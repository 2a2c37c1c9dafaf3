-- ===== src/Authentication/Refresh/Issue.antt =====
-- The token that a rotation issues, as the table holds it.
use starter_template_fastapi.Base.{
  ℕ, ◌≡◌, refl, ap, ◌∙◌, inl, inr, String, true, false, Option, none, some, List, [], ◌∷◌, ◌++◌,
  arith, str_eq, ◌==◌, is_some, Bool-cases,
}
use mathlib.Core.Option.{some-injective}
use starter_template_fastapi.Base.Dict.{str_eq_self}
use starter_template_fastapi.Base.Keys.{has_id, has_id_same}
use starter_template_fastapi.Authentication.Models.{RefreshToken, Principal, IssuedTokens, AuthDb}
use starter_template_fastapi.Authentication.Refresh.{
  issued, Call, find_token, revoke_refresh_token, replacement, execute,
}
use starter_template_fastapi.Authentication.Refresh.Reuse.{execute-Rotated}

-- The id of a token that is found is in the table.
found-has_id :
    (token_hash : String) (tokens : List RefreshToken) {stored : RefreshToken}
    → find_token token_hash tokens ≡ some stored
    → has_id (λ (x : RefreshToken). x.id) tokens stored.id ≡ true
unfolding find_token
found-has_id token_hash [] e = cc
found-has_id token_hash (t ∷ tokens) {stored} e =
    elim (Bool-cases (str_eq t.token_hash token_hash)) [
      | inl hit ↦
          let same : t.id ≡ stored.id =
            ap (λ (x : RefreshToken). x.id) (some-injective t stored (rw hit at e)) in
          ground (arith, same)
      | inr miss ↦ ground (arith, found-has_id token_hash tokens {stored = stored} (rw miss at e))
    ]

-- An id that is in the table is not one that is new.
fresh_other :
    (tokens : List RefreshToken) (fresh id : ℕ)
    → has_id (λ (x : RefreshToken). x.id) tokens fresh ≡ false
    → has_id (λ (x : RefreshToken). x.id) tokens id ≡ true
    → (fresh == id) ≡ false
fresh_other tokens fresh id new old = elim (Bool-cases (fresh == id)) [
  | inr other ↦ other
  | inl same ↦ absurd (cc (has_id_same (λ (x : RefreshToken). x.id) tokens fresh id same, new, old))
]

-- The row of a new hash, after an insertion and the revocation of another row.
find_token-new :
    (at id : ℕ) (replaced_by : Option ℕ) (tokens : List RefreshToken) (new : RefreshToken)
    → is_some (find_token new.token_hash tokens) ≡ false
    → (new.id == id) ≡ false
    → find_token new.token_hash (revoke_refresh_token at id replaced_by (tokens ++ new ∷ []))
      ≡ some new
unfolding find_token revoke_refresh_token
find_token-new at id replaced_by [] new h ne = rw (ne, str_eq_self new.token_hash) refl
find_token-new at id replaced_by (t ∷ tokens) new h ne =
    elim (Bool-cases (str_eq t.token_hash new.token_hash)) [
      | inl hit ↦ absurd (ground arith)
      | inr miss ↦
          let rest = find_token-new at id replaced_by tokens new (rw miss at h) ne in
          elim (Bool-cases (t.id == id)) [
            | inl this ↦ rw (this, miss) rest
            | inr other ↦ rw (other, miss) rest
          ]
    ]

-- After a call that issued tokens, the table finds the refresh token of the answer by its hash: it is live, of
-- the user and in the family of the token that was presented.
pub execute-issued :
    (hash_token : String → String) (call : Call) (refresh_token : String) (db : AuthDb)
    {tks : IssuedTokens} {p : Principal} {db' : AuthDb}
    → execute hash_token call (some refresh_token) db ≡ (issued tks p, db')
    → (stored : RefreshToken) × (find_token (hash_token refresh_token) db.refresh_tokens
        ≡ some stored)
      × (new : RefreshToken) × (find_token (hash_token tks.refresh_token) db'.refresh_tokens
          ≡ some new)
      × (new.revoked_at ≡ none)
      × (new.user_id ≡ stored.user_id)
      × (new.family_id ≡ stored.family_id)
execute-issued hash_token call refresh_token db {db' = db'} e =
    let (given, r) = execute-Rotated hash_token call refresh_token db e in
    let new = replacement hash_token call r.stored r.expires_at in
    let listed = found-has_id (hash_token refresh_token) db.refresh_tokens r.found in
    let other : (call.fresh_id == r.stored.id) ≡ false =
      fresh_other db.refresh_tokens call.fresh_id r.stored.id r.new_id listed in
    (
      r.stored,
      r.found,
      new,
      ap (λ h. find_token (hash_token h) db'.refresh_tokens) r.handed
          ∙ ap (find_token (hash_token call.opaque_token)) r.tokens
          ∙ find_token-new call.utc_now r.stored.id (some call.fresh_id) db.refresh_tokens new
              r.new_hash other,
      refl,
      refl,
      refl,
    )
