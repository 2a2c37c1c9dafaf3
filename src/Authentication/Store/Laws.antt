-- ===== src/Authentication/Store/Laws.antt =====
-- What the statements on credentials and tokens leave behind.
use mathlib.Core.Path.{subst}
use starter_template_fastapi.Base.{
  ℕ, ◌≡◌, refl, sym, ap, ◌∙◌, inl, inr, String, Bool, true, false, not, ◌&&◌, none, some, List, [],
  ◌∷◌, ◌++◌, map, arith, str_eq, ◌==◌, ==-refl, if◌then◌else◌, is_some, count, Bool-cases,
}
use starter_template_fastapi.Base.Dict.{str_eq_self}
use starter_template_fastapi.Base.Keys.{has_id}
use starter_template_fastapi.Authentication.Models.{RefreshToken, Credential, InternalToken, AuthDb}
use starter_template_fastapi.Authentication.Refresh.{
  invalid_token, Call, find_token, or_now, present, execute,
}
use starter_template_fastapi.Authentication.Store.{
  find_credential, new_credential, upsert_credential, revoke_user_refresh_tokens,
  find_internal_token, mark_internal_token_used,
}

-- The credential of a user for an algorithm has a hash.
abbrev pub HasHash : ℕ → String → String → List Credential → Type 0
HasHash user_id algorithm hash credentials =
    (c : Credential) × (find_credential user_id algorithm credentials ≡ some c) × (c.hash ≡ hash)

module _ (id now user_id : ℕ) (algorithm hash : String) where
  abbrev changed : List Credential → List Credential
  changed credentials =
      map
        (λ c.
          if c.user_id == user_id && str_eq c.algorithm algorithm
          then record c { hash = hash; last_changed_at = now }
          else c)
        credentials

  changed-HasHash :
      (credentials : List Credential)
      → is_some (find_credential user_id algorithm credentials) ≡ true
      → HasHash user_id algorithm hash (changed credentials)
  unfolding find_credential
  changed-HasHash [] h = absurd (ground arith)
  changed-HasHash (c ∷ credentials) h =
      elim (Bool-cases (c.user_id == user_id && str_eq c.algorithm algorithm)) [
        | inl e ↦ rw e (rw e (record c { hash = hash; last_changed_at = now }, refl, refl))
        | inr e ↦ rw e (rw e (changed-HasHash credentials (rw e at h)))
      ]

  append-HasHash :
      (credentials : List Credential)
      → is_some (find_credential user_id algorithm credentials) ≡ false
      → HasHash user_id algorithm hash
          (credentials ++ new_credential id now user_id algorithm hash ∷ [])
  unfolding find_credential
  append-HasHash [] h =
      let self = str_eq_self algorithm in
      let same = ==-refl user_id in
      (new_credential id now user_id algorithm hash, rw (same, self) refl, refl)
  append-HasHash (c ∷ credentials) h =
      elim (Bool-cases (c.user_id == user_id && str_eq c.algorithm algorithm)) [
        | inl e ↦ absurd (let f = rw e at h in cc)
        | inr e ↦ rw e (append-HasHash credentials (rw e at h))
      ]

  pub upsert_credential-HasHash :
      (credentials : List Credential) {after : List Credential}
      → upsert_credential id now user_id algorithm hash credentials ≡ (none, after)
      → HasHash user_id algorithm hash after
  unfolding upsert_credential
  upsert_credential-HasHash credentials e =
      elim (Bool-cases (is_some (find_credential user_id algorithm credentials))) [
        | inl there ↦
            let f = rw there at e in
            subst (HasHash user_id algorithm hash) (ap (λ r. r.1) f)
              (changed-HasHash credentials there)
        | inr absent ↦ elim (Bool-cases (has_id (λ (c : Credential). c.id) credentials id)) [
          | inl taken ↦ let f = rw (absent, taken) at e in absurd (ground arith)
          | inr free ↦
              let f = rw (absent, free) at e in
              subst (HasHash user_id algorithm hash) (ap (λ r. r.1) f)
                (append-HasHash credentials absent)
        ]
      ]

-- The tokens of a user that are not revoked.
abbrev pub open_token : ℕ → RefreshToken → Bool
open_token user_id t = t.user_id == user_id && not (is_some t.revoked_at)

-- Revoking a user's tokens leaves none open.
pub revoke_user_refresh_tokens-zero :
    (now user_id : ℕ) (tokens : List RefreshToken)
    → count (open_token user_id) (revoke_user_refresh_tokens now user_id tokens) ≡ 0
unfolding revoke_user_refresh_tokens
revoke_user_refresh_tokens-zero now user_id [] = refl
revoke_user_refresh_tokens-zero now user_id (t ∷ tokens) =
    let rest = revoke_user_refresh_tokens-zero now user_id tokens in
    elim (Bool-cases (open_token user_id t)) [
      | inl e ↦ rw e (ground arith)
      | inr e ↦ rw (e, e) rest
    ]

find_token-revoked :
    (user_id : ℕ) (token_hash : String) (tokens : List RefreshToken) {t : RefreshToken}
    → count (open_token user_id) tokens ≡ 0
    → find_token token_hash tokens ≡ some t
    → t.user_id ≡ user_id
    → is_some t.revoked_at ≡ true
unfolding find_token
find_token-revoked user_id token_hash [] none_open found owner = absurd (ground arith)
find_token-revoked user_id token_hash (x ∷ tokens) {t} none_open found owner =
    elim (Bool-cases (str_eq x.token_hash token_hash)) [
      | inl e ↦
          let same : x ≡ t = (let f = rw e at found in cc) in
          let owned : x.user_id ≡ user_id = ap (λ (y : RefreshToken). y.user_id) same ∙ owner in
          let revoked : is_some x.revoked_at ≡ true = ground arith in
          ap (λ (y : RefreshToken). is_some y.revoked_at) (sym same) ∙ revoked
      | inr e ↦ find_token-revoked user_id token_hash tokens (ground arith) (rw e at found) owner
    ]

-- A refresh token of a user without open tokens is not rotated.
pub execute-refused :
    (hash_token : String → String) (call : Call) (user_id : ℕ) (refresh_token : String)
    (db : AuthDb) {t : RefreshToken}
    → count (open_token user_id) db.refresh_tokens ≡ 0
    → find_token (hash_token refresh_token) db.refresh_tokens ≡ some t
    → t.user_id ≡ user_id
    → (execute hash_token call (some refresh_token) db).0 ≡ invalid_token
unfolding execute present
execute-refused hash_token call user_id refresh_token db none_open found owner =
    let revoked =
      find_token-revoked user_id (hash_token refresh_token) db.refresh_tokens none_open found
        owner in
    elim (Bool-cases (str_eq refresh_token "")) [
      | inl e ↦ rw e refl
      | inr e ↦ rw (e, found) (rw revoked refl)
    ]

-- The row that `find_internal_token` returns, once it is marked used.
pub find_internal_token-marked :
    (now : ℕ) (token_hash purpose : String) (tokens : List InternalToken) {t : InternalToken}
    → find_internal_token token_hash purpose tokens ≡ some t
    → find_internal_token token_hash purpose (mark_internal_token_used now t.id tokens)
      ≡ some (record t { used_at = or_now t.used_at now })
unfolding find_internal_token mark_internal_token_used
find_internal_token-marked now token_hash purpose [] found = absurd (ground arith)
find_internal_token-marked now token_hash purpose (x ∷ tokens) {t} found =
    elim (Bool-cases (str_eq x.token_hash token_hash && str_eq x.purpose purpose)) [
      | inl e ↦
          let same : x ≡ t = (let f = rw e at found in cc) in
          let self = ==-refl x.id in rw (sym same) (rw self (rw e refl))
      | inr e ↦
          let rest = find_internal_token-marked now token_hash purpose tokens (rw e at found) in
          elim (Bool-cases (x.id == t.id)) [ inl i ↦ rw i (rw e rest) | inr i ↦ rw i (rw e rest) ]
    ]
