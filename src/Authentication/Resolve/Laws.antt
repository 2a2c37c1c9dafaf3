-- ===== src/Authentication/Resolve/Laws.antt =====
-- Whom a token resolves to after its user was dropped from the cache.
use starter_template_fastapi.Base.{
  ℕ, ◌≡◌, ◌⊎◌, refl, inl, inr, String, Bool, true, false, not, Option, none, some, List, arith,
  ◌==◌, if◌then◌else◌,
}
use starter_template_fastapi.Users.Model.{User}
use starter_template_fastapi.Users.Repository.{get_by_id}
use starter_template_fastapi.Authentication.Models.{Principal}
use starter_template_fastapi.Authentication.Refresh.{principal_from_user}
use starter_template_fastapi.Authentication.PrincipalCache.{
  TtlCache, PrincipalCache, get, set, pop, invalidate_user, Reach,
}
use starter_template_fastapi.Authentication.PrincipalCache.Invalidate.{
  IsTtlCache, get-invalidate_user,
}
use starter_template_fastapi.Authentication.Resolve.{
  AccessTokenPayload, ResolveResult, resolved, inactive_user, stale_token, resolve_user,
  resolve_cached, execute,
}

module _ {C : Type 0} (ttl_cache : TtlCache C) (str_uuid : ℕ → String)
    (decode : String → Option AccessTokenPayload) (now : ℕ) (users : List User) where
  -- The row that a principal was read from: active, and at the version of the token.
  abbrev pub Current : AccessTokenPayload → Principal → Type 0
  Current payload p =
      (user : User) × (get_by_id payload.subject users ≡ some user)
      × (user.is_active ≡ true)
      × (user.authz_version ≡ payload.authz_version)
      × (p ≡ principal_from_user user)

  resolve_user-Current :
      (payload : AccessTokenPayload) (found : Option User) (cache : PrincipalCache C)
      {p : Principal} {cache' : PrincipalCache C}
      → resolve_user ttl_cache str_uuid decode now users payload found cache ≡ (resolved p, cache')
      → (user : User) × (found ≡ some user)
        × (user.is_active ≡ true)
        × (user.authz_version ≡ payload.authz_version)
        × (p ≡ principal_from_user user)
  resolve_user-Current payload none cache e = absurd (ground arith)
  resolve_user-Current payload (some user) cache e =
      let (active, version, principal) =
        by_tests user.is_active (user.authz_version == payload.authz_version) e in
      (user, refl, active, ground (arith, version), principal)
    where
      by_tests :
          (active same : Bool) {p : Principal} {cache' : PrincipalCache C}
          → ◌≡◌ {A = ResolveResult × PrincipalCache C}
              (if not active
                then (inactive_user, cache)
                else if not same
                then (stale_token, pop ttl_cache str_uuid payload.token_id now cache)
                else (
                  resolved (principal_from_user user),
                  set ttl_cache str_uuid payload.token_id (principal_from_user user) now cache,
                ))
              (resolved p, cache')
          → (active ≡ true) × (same ≡ true) × (p ≡ principal_from_user user)
      by_tests false same e = absurd (ground arith)
      by_tests true false e = absurd (ground arith)
      by_tests true true e = (refl, refl, ground arith)

  resolve_cached-Current :
      (payload : AccessTokenPayload) (hit : Option Principal) (cache : PrincipalCache C)
      {p : Principal} {cache' : PrincipalCache C}
      → resolve_cached ttl_cache str_uuid decode now users payload hit cache ≡ (resolved p, cache')
      → (hit ≡ some p) ⊎ Current payload p
  resolve_cached-Current payload (some q) cache e = inl (ground arith)
  resolve_cached-Current payload none cache e =
      inr (resolve_user-Current payload (get_by_id payload.subject users) cache e)

  -- If the cache answers only what was last set and not popped: once a user is invalidated, after any
  -- history of a cache that had no entries, a token that resolves to that user resolves to the row as it
  -- now stands, which is active and at the token's version.
  pub execute-Current :
      IsTtlCache ttl_cache
      → {s u : PrincipalCache C} → ((j : String) (t : ℕ) → ttl_cache.get j t s.cache ≡ none)
      → Reach ttl_cache str_uuid s u
      → (user_id at : ℕ) (token : String) {payload : AccessTokenPayload} {p : Principal}
        {cache' : PrincipalCache C}
      → decode token ≡ some payload
      → execute ttl_cache str_uuid decode now users token
          (invalidate_user ttl_cache str_uuid user_id at u)
        ≡ (resolved p, cache')
      → p.user_id ≡ user_id
      → Current payload p
  unfolding execute
  execute-Current laws fresh r user_id at token {payload} {p} decoded e same =
      let cache = invalidate_user ttl_cache str_uuid user_id at _ in
      let f = rw decoded at e in
      elim (resolve_cached-Current payload (get ttl_cache str_uuid payload.token_id now cache) cache
        f) [
          | inl hit ↦ absurd (
              get-invalidate_user ttl_cache str_uuid laws fresh r user_id at payload.token_id now p
                hit same)
          | inr current ↦ current
        ]
