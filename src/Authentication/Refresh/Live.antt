-- ===== src/Authentication/Refresh/Live.antt =====
-- The live tokens of a family, before and after a rotation.
use starter_template_fastapi.Base.{
  ℕ, ◌+◌, ◌≤◌, ◌≡◌, refl, ap, inl, inr, String, Bool, true, false, not, ◌&&◌, Option, none, some,
  List, [], ◌∷◌, ◌++◌, arith, str_eq, leb, ◌==◌, if◌then◌else◌, is_some, count, Bool-cases,
  Option-cases,
}
use starter_template_fastapi.Base.Clock.{days, add_time}
use starter_template_fastapi.Users.Model.{User}
use starter_template_fastapi.Users.Repository.{get_by_id}
use starter_template_fastapi.Authentication.Models.{RefreshToken, AuthDb}
use starter_template_fastapi.Authentication.Refresh.{
  Call, find_token, or_now, revoke_refresh_token, revoke_refresh_family, create_refresh_token,
  replacement, after_create, renew, present, execute,
}

-- A token of the family that is not revoked.
abbrev pub live : ℕ → RefreshToken → Bool
live family_id t = t.family_id == family_id && not (is_some t.revoked_at)

pub or_now-is_some : (o : Option ℕ) (at : ℕ) → is_some (or_now o at) ≡ true
or_now-is_some none at = refl
or_now-is_some (some t) at = refl

module _ (f at : ℕ) where
  revoke_refresh_token-le :
      (id : ℕ) (replaced_by : Option ℕ) (tokens : List RefreshToken)
      → count (live f) (revoke_refresh_token at id replaced_by tokens) ≤ count (live f) tokens
  unfolding revoke_refresh_token
  revoke_refresh_token-le id replaced_by [] = omega arith
  revoke_refresh_token-le id replaced_by (t ∷ tokens) =
      ground (arith, or_now-is_some t.revoked_at at, revoke_refresh_token-le id replaced_by tokens)

  revoke_refresh_family-le :
      (family_id : ℕ) (tokens : List RefreshToken)
      → count (live f) (revoke_refresh_family at family_id tokens) ≤ count (live f) tokens
  unfolding revoke_refresh_family
  revoke_refresh_family-le family_id [] = omega arith
  revoke_refresh_family-le family_id (t ∷ tokens) =
      ground (arith, or_now-is_some t.revoked_at at, revoke_refresh_family-le family_id tokens)

  pub revoke_refresh_family-zero :
      (tokens : List RefreshToken) → count (live f) (revoke_refresh_family at f tokens) ≡ 0
  unfolding revoke_refresh_family
  revoke_refresh_family-zero [] = refl
  revoke_refresh_family-zero (t ∷ tokens) =
      ground (arith, or_now-is_some t.revoked_at at, revoke_refresh_family-zero tokens)

  -- Revoking a live token that is there takes it from its family.
  revoke_found :
      (replaced_by : Option ℕ) (token_hash : String) (tokens : List RefreshToken)
      {stored : RefreshToken}
      → find_token token_hash tokens ≡ some stored
      → is_some stored.revoked_at ≡ false
      → count (live f) (revoke_refresh_token at stored.id replaced_by tokens)
          + (if stored.family_id == f then 1 else 0)
        ≤ count (live f) tokens
  unfolding revoke_refresh_token find_token
  revoke_found replaced_by token_hash [] e h = cc
  revoke_found replaced_by token_hash (t ∷ tokens) {stored} e h =
      elim (Bool-cases (str_eq t.token_hash token_hash)) [
        | inl hit ↦
            let found : some t ≡ some stored = rw hit at e in
            let same : t ≡ stored = cc in
            let dead : is_some t.revoked_at ≡ false = rw same h in
            let same_id : t.id ≡ stored.id = ap (λ (x : RefreshToken). x.id) same in
            let same_family : t.family_id ≡ stored.family_id =
              ap (λ (x : RefreshToken). x.family_id) same in
            ground (
              arith,
              dead,
              same_id,
              same_family,
              or_now-is_some t.revoked_at at,
              revoke_refresh_token-le stored.id replaced_by tokens,
            )
        | inr miss ↦
            let later : find_token token_hash tokens ≡ some stored = rw miss at e in
            let rest = revoke_found replaced_by token_hash tokens {stored = stored} later h in
            ground (arith, or_now-is_some t.revoked_at at, rest)
      ]

  revoke-append :
      (id : ℕ) (replaced_by : Option ℕ) (tokens : List RefreshToken) (new : RefreshToken)
      → count (live f) (revoke_refresh_token at id replaced_by (tokens ++ new ∷ []))
        ≤ count (live f) (revoke_refresh_token at id replaced_by tokens)
          + (if new.family_id == f then 1 else 0)
  unfolding revoke_refresh_token
  revoke-append id replaced_by [] new = ground (arith, or_now-is_some new.revoked_at at)
  revoke-append id replaced_by (t ∷ tokens) new =
      ground (arith, revoke-append id replaced_by tokens new)

module _ (hash_token : String → String) (call : Call) (f : ℕ) where
  after_create-le :
      (stored : RefreshToken) (user : User) (at : ℕ) (token_hash : String) (db : AuthDb)
      → find_token token_hash db.refresh_tokens ≡ some stored
      → is_some stored.revoked_at ≡ false
      → count
          (live f)
          (after_create hash_token call stored user
            (create_refresh_token (replacement hash_token call stored at) db.refresh_tokens)
            db).1.refresh_tokens
        ≤ count (live f) db.refresh_tokens
  unfolding create_refresh_token
  after_create-le stored user at token_hash db e h = ground (
    arith,
    revoke-append f call.utc_now stored.id (some call.fresh_id) db.refresh_tokens
        (replacement hash_token call stored at),
    revoke_found f call.utc_now (some call.fresh_id) token_hash db.refresh_tokens e h,
  )

  renew-le :
      (stored : RefreshToken) (user : Option User) (token_hash : String) (db : AuthDb)
      → find_token token_hash db.refresh_tokens ≡ some stored
      → is_some stored.revoked_at ≡ false
      → count (live f) (renew hash_token call stored user db).1.refresh_tokens
        ≤ count (live f) db.refresh_tokens
  unfolding renew
  renew-le stored none token_hash db e h = omega arith
  renew-le stored (some user) token_hash db e h = elim (Bool-cases user.is_active) [
    | inr inactive ↦ rw inactive (omega arith)
    | inl active ↦ elim (Option-cases (add_time call.now (days call.expire_days))) [
      | inl overflow ↦ rw (active, overflow) (omega arith)
      | inr (at, fits) ↦ rw (active, fits) (after_create-le stored user at token_hash db e h)
    ]
  ]

  present-le :
      (found : Option RefreshToken) (token_hash : String) (db : AuthDb)
      → find_token token_hash db.refresh_tokens ≡ found
      → count (live f) (present hash_token call found db).1.refresh_tokens
        ≤ count (live f) db.refresh_tokens
  unfolding present
  present-le none token_hash db e = omega arith
  present-le (some stored) token_hash db e = elim (Bool-cases (is_some stored.revoked_at)) [
    | inl revoked ↦
        rw revoked (revoke_refresh_family-le f call.utc_now stored.family_id db.refresh_tokens)
    | inr alive ↦ elim (Bool-cases (leb stored.expires_at call.now)) [
      | inl expired ↦
          rw (alive, expired)
            (revoke_refresh_token-le f call.utc_now stored.id none db.refresh_tokens)
      | inr fresh ↦
          rw (alive, fresh)
            (renew-le stored (get_by_id stored.user_id db.users) token_hash db e alive)
    ]
  ]

  -- Whatever token is presented, and whatever the answer, no family has more live tokens after a
  -- call than before it.
  pub execute-live :
      (refresh_token : Option String) (db : AuthDb)
      → count (live f) (execute hash_token call refresh_token db).1.refresh_tokens
        ≤ count (live f) db.refresh_tokens
  unfolding execute
  execute-live none db = omega arith
  execute-live (some t) db = elim (Bool-cases (str_eq t "")) [
    | inl empty ↦ rw empty (omega arith)
    | inr given ↦
        rw given (present-le (find_token (hash_token t) db.refresh_tokens) (hash_token t) db refl)
  ]
