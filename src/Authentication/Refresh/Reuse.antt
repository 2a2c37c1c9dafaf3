-- ===== src/Authentication/Refresh/Reuse.antt =====
-- What a rotation that issues tokens has done, and what presenting its token again does.
use starter_template_fastapi.Base.{
  ℕ, ◌<◌, ◌≡◌, refl, sym, ap, ◌∙◌, inl, inr, String, true, false, Option, none, some, List, [], ◌∷◌,
  ◌++◌, arith, str_eq, leb, ◌==◌, is_some, count, ==-refl, Bool-cases, Option-cases,
}
use mathlib.Core.Option.{some-injective}
use mathlib.Core.Path.{subst}
use starter_template_fastapi.Base.Clock.{days, add_time}
use starter_template_fastapi.Base.Keys.{has_id}
use starter_template_fastapi.Users.Model.{User}
use starter_template_fastapi.Users.Repository.{get_by_id}
use starter_template_fastapi.Authentication.Models.{RefreshToken, Principal, IssuedTokens, AuthDb}
use starter_template_fastapi.Authentication.Refresh.{
  Raised, RotateResult, issued, invalid_token, Call, find_token, revoke_refresh_token,
  revoke_refresh_family, create_refresh_token, replacement, after_create, renew, present, execute,
}
use starter_template_fastapi.Authentication.Refresh.Live.{
  live, or_now-is_some, revoke_refresh_family-zero,
}

-- What a rotation that issues tokens has found and done.
pub record Rotated (hash_token : String → String) (call : Call) (refresh_token : String)
    (tks : IssuedTokens) (db db' : AuthDb) : Type 0 where
  pub stored : RefreshToken
  pub found : find_token (hash_token refresh_token) db.refresh_tokens ≡ some stored
  pub alive : is_some stored.revoked_at ≡ false
  pub unexpired : call.now < stored.expires_at
  pub handed : tks.refresh_token ≡ call.opaque_token
  pub expires_at : ℕ
  pub lasts : add_time call.now (days call.expire_days) ≡ some expires_at
  pub new_hash : is_some (find_token (hash_token call.opaque_token) db.refresh_tokens) ≡ false
  pub new_id : has_id (λ (x : RefreshToken). x.id) db.refresh_tokens call.fresh_id ≡ false
  pub tokens :
      db'.refresh_tokens
      ≡ revoke_refresh_token call.utc_now stored.id
          (some call.fresh_id)
          (db.refresh_tokens ++ replacement hash_token call stored expires_at ∷ [])

create-parts :
    (t : RefreshToken) (tokens : List RefreshToken) {after : List RefreshToken}
    → create_refresh_token t tokens ≡ (none, after)
    → (is_some (find_token t.token_hash tokens) ≡ false)
      × (has_id (λ (x : RefreshToken). x.id) tokens t.id ≡ false)
      × (after ≡ tokens ++ t ∷ [])
unfolding create_refresh_token
create-parts t tokens e = (ground arith, ground arith, ground arith)

module _ (hash_token : String → String) (call : Call) {tks : IssuedTokens} {p : Principal} where
  after_create-parts :
      (stored : RefreshToken) (user : User) (db : AuthDb)
      (created : Option Raised × List RefreshToken) {db' : AuthDb}
      → after_create hash_token call stored user created db ≡ (issued tks p, db')
      → (created.0 ≡ none)
        × (tks.refresh_token ≡ call.opaque_token)
        × (db'.refresh_tokens
            ≡ revoke_refresh_token call.utc_now stored.id (some call.fresh_id) created.1)
  after_create-parts stored user db (some exc, tokens) e = absurd (ground arith)
  after_create-parts stored user db (none, tokens) e =
      (refl, ground arith, sym (ap (λ (x : RotateResult × AuthDb). x.1.refresh_tokens) e))

  renew-Rotated :
      (refresh_token : String) (stored : RefreshToken) (user : Option User) (db : AuthDb)
      {db' : AuthDb}
      → find_token (hash_token refresh_token) db.refresh_tokens ≡ some stored
      → is_some stored.revoked_at ≡ false
      → call.now < stored.expires_at
      → renew hash_token call stored user db ≡ (issued tks p, db')
      → Rotated hash_token call refresh_token tks db db'
  unfolding renew
  renew-Rotated refresh_token stored none db found alive unexpired e = absurd (ground arith)
  renew-Rotated refresh_token stored (some user) db {db'} found alive unexpired e =
      elim (Bool-cases user.is_active) [
        | inr inactive ↦ absurd (ground arith)
        | inl active ↦ elim (Option-cases (add_time call.now (days call.expire_days))) [
          | inl overflow ↦ absurd (ground arith)
          | inr (at, fits) ↦
              let new = replacement hash_token call stored at in
              let created = create_refresh_token new db.refresh_tokens in
              let ran : after_create hash_token call stored user created db ≡ (issued tks p, db') =
                rw (active, fits) at e in
              let (quiet, handed, done) = after_create-parts stored user db created ran in
              let split : created ≡ (none, created.1) =
                ap (λ (o : Option Raised). (o, created.1)) quiet in
              let (new_hash, new_id, tokens) = create-parts new db.refresh_tokens split in
              record {
                stored = stored;
                found = found;
                alive = alive;
                unexpired = unexpired;
                handed = handed;
                expires_at = at;
                lasts = fits;
                new_hash = new_hash;
                new_id = new_id;
                tokens =
                    done
                    ∙ ap (revoke_refresh_token call.utc_now stored.id (some call.fresh_id)) tokens;
              }
        ]
      ]

  present-Rotated :
      (refresh_token : String) (stored : Option RefreshToken) (db : AuthDb) {db' : AuthDb}
      → find_token (hash_token refresh_token) db.refresh_tokens ≡ stored
      → present hash_token call stored db ≡ (issued tks p, db')
      → Rotated hash_token call refresh_token tks db db'
  unfolding present
  present-Rotated refresh_token none db found e = absurd (ground arith)
  present-Rotated refresh_token (some stored) db {db'} found e =
      elim (Bool-cases (is_some stored.revoked_at)) [
        | inl revoked ↦ absurd (ground arith)
        | inr alive ↦ elim (Bool-cases (leb stored.expires_at call.now)) [
          | inl expired ↦ absurd (ground arith)
          | inr fresh ↦
              renew-Rotated refresh_token stored (get_by_id stored.user_id db.users) db found alive
                (ground arith) (rw (alive, fresh) at e)
        ]
      ]

  pub execute-Rotated :
      (refresh_token : String) (db : AuthDb) {db' : AuthDb}
      → execute hash_token call (some refresh_token) db ≡ (issued tks p, db')
      → (str_eq refresh_token "" ≡ false) × Rotated hash_token call refresh_token tks db db'
  unfolding execute
  execute-Rotated refresh_token db {db'} e = elim (Bool-cases (str_eq refresh_token "")) [
    | inl empty ↦ absurd (ground arith)
    | inr given ↦ (
      given,
      present-Rotated refresh_token (find_token (hash_token refresh_token) db.refresh_tokens) db
          refl (rw given at e),
    )
  ]

-- The row of a hash, after a revocation and an insertion.
find_token-revoke :
    (at id : ℕ) (replaced_by : Option ℕ) (token_hash : String) (tokens : List RefreshToken)
    (new : RefreshToken) {stored : RefreshToken}
    → find_token token_hash tokens ≡ some stored
    → (stored' : RefreshToken) × (find_token token_hash
          (revoke_refresh_token at id replaced_by (tokens ++ new ∷ []))
        ≡ some stored')
      × (stored'.family_id ≡ stored.family_id)
      × ((stored.id == id) ≡ true → is_some stored'.revoked_at ≡ true)
unfolding find_token revoke_refresh_token
find_token-revoke at id replaced_by token_hash [] new e = cc
find_token-revoke at id replaced_by token_hash (t ∷ tokens) new {stored} e =
    elim (Bool-cases (str_eq t.token_hash token_hash)) [
      | inl hit ↦
          let same : t ≡ stored = some-injective t stored (rw hit at e) in
          let same_family : t.family_id ≡ stored.family_id =
            ap (λ (x : RefreshToken). x.family_id) same in
          let same_id : t.id ≡ stored.id = ap (λ (x : RefreshToken). x.id) same in
          elim (Bool-cases (t.id == id)) [
            | inl this ↦ rw (this, hit) (_, refl, same_family, λ _. or_now-is_some t.revoked_at at)
            | inr other ↦
                rw (other, hit) (t, refl, same_family, λ h. absurd (ground (arith, same_id)))
          ]
      | inr miss ↦
          let later : find_token token_hash tokens ≡ some stored = rw miss at e in
          let rest =
            find_token-revoke at id replaced_by token_hash tokens new {stored = stored} later in
          elim (Bool-cases (t.id == id)) [
            | inl this ↦ rw (this, miss) rest
            | inr other ↦ rw (other, miss) rest
          ]
    ]

-- What presenting a revoked token does.
present_revoked :
    (hash_token : String → String) (call : Call) (stored : RefreshToken) (db : AuthDb) {f : ℕ}
    → is_some stored.revoked_at ≡ true
    → stored.family_id ≡ f
    → let (answer, after) = present hash_token call (some stored) db in
      (answer ≡ invalid_token) × (count (live f) after.refresh_tokens ≡ 0)
unfolding present
present_revoked hash_token call stored db revoked family = rw revoked (
  refl,
  subst
      (λ g.
        count (live g) (revoke_refresh_family call.utc_now stored.family_id db.refresh_tokens) ≡ 0)
      family (revoke_refresh_family-zero stored.family_id call.utc_now db.refresh_tokens),
)

module _ (hash_token : String → String) (first second : Call) (refresh_token : String) where
  -- A refresh token works once: after a call that issued tokens for it, a call that presents it
  -- again, at whatever time, is refused, and leaves no live token in the family that the table had
  -- for it.
  pub execute-execute :
      (db : AuthDb) {tks : IssuedTokens} {p : Principal} {db' : AuthDb}
      → execute hash_token first (some refresh_token) db ≡ (issued tks p, db')
      → (stored : RefreshToken) × (find_token (hash_token refresh_token) db.refresh_tokens
          ≡ some stored)
        × (let (answer, db'') = execute hash_token second (some refresh_token) db' in
            (answer ≡ invalid_token) × (count (live stored.family_id) db''.refresh_tokens ≡ 0))
  unfolding execute
  execute-execute db {db' = db'} e =
      let (given, r) = execute-Rotated hash_token first refresh_token db e in
      let (stored', there, family, dead) =
        find_token-revoke first.utc_now r.stored.id (some first.fresh_id) (hash_token refresh_token)
          db.refresh_tokens (replacement hash_token first r.stored r.expires_at) r.found in
      let found : find_token (hash_token refresh_token) db'.refresh_tokens ≡ some stored' =
        ap (find_token (hash_token refresh_token)) r.tokens ∙ there in
      let revoked = dead (==-refl r.stored.id) in
      (
        r.stored,
        r.found,
        rw (given, found) (present_revoked hash_token second stored' db' revoked family),
      )
