-- ===== src/Authentication/Resolve.antt =====
-- src/features/authentication/application/use_cases/auth/resolve_principal.py, with the cache of
-- cache.py.
pub mod Laws
use starter_template_fastapi.Base.{ℕ, String, Option, none, some, List, not, ◌==◌, if◌then◌else◌}
use starter_template_fastapi.Users.Model.{User}
use starter_template_fastapi.Users.Repository.{get_by_id}
use starter_template_fastapi.Authentication.Models.{Principal}
use starter_template_fastapi.Authentication.Refresh.{principal_from_user}
use starter_template_fastapi.Authentication.PrincipalCache.{TtlCache, PrincipalCache, get, set, pop}

-- The claims that `AccessTokenService.decode` returns
pub record AccessTokenPayload : Type 0 where
  pub subject : ℕ
  pub authz_version : ℕ
  pub token_id : String

pub data ResolveResult : Type 0 where
  resolved : Principal → ResolveResult
  invalid_token inactive_user stale_token : ResolveResult

-- `decode` verifies a JWT: `none` is InvalidTokenError.
module _ {C : Type 0} (ttl_cache : TtlCache C) (str_uuid : ℕ → String)
    (decode : String → Option AccessTokenPayload) (now : ℕ) (users : List User) where
  -- The branch of a token that the cache does not hold.
  abbrev pub resolve_user :
      AccessTokenPayload → Option User → PrincipalCache C → ResolveResult × PrincipalCache C
  resolve_user payload none cache = (invalid_token, cache)
  resolve_user payload (some user) cache =
      if not user.is_active
      then (inactive_user, cache)
      else if not (user.authz_version == payload.authz_version)
      then (stale_token, pop ttl_cache str_uuid payload.token_id now cache)
      else (
        resolved (principal_from_user user),
        set ttl_cache str_uuid payload.token_id (principal_from_user user) now cache,
      )

  abbrev pub resolve_cached :
      AccessTokenPayload → Option Principal → PrincipalCache C → ResolveResult × PrincipalCache C
  resolve_cached payload (some principal) cache = (resolved principal, cache)
  resolve_cached payload none cache = resolve_user payload (get_by_id payload.subject users) cache

  abbrev pub resolve_payload :
      Option AccessTokenPayload → PrincipalCache C → ResolveResult × PrincipalCache C
  resolve_payload none cache = (invalid_token, cache)
  resolve_payload (some payload) cache =
      resolve_cached payload (get ttl_cache str_uuid payload.token_id now cache) cache

  -- `execute`
  unfoldable pub execute : String → PrincipalCache C → ResolveResult × PrincipalCache C
  unfolding get set pop get_by_id
  execute token cache = resolve_payload (decode token) cache
