-- ===== src/Authentication/PrincipalCache.antt =====
-- `InProcessPrincipalCache` of src/features/authentication/application/cache.py. The lock makes each
-- operation one step.
pub mod Invalidate
mod Tests
use starter_template_fastapi.Base.{
  ℕ, String, Bool, not, Option, none, some, List, [], ◌∷◌, str_eq, if◌then◌else◌, filter,
}
use starter_template_fastapi.Base.Dict.{Dict, lookup, insert, member}
use starter_template_fastapi.Authentication.Models.{Principal}

-- `cachetools.TTLCache`, at the time of its timer.
pub record TtlCache (C : Type 0) : Type 0 where
  pub get : String → ℕ → C → Option Principal
  pub set : String → Principal → ℕ → C → C
  pub pop : String → ℕ → C → C

pub record PrincipalCache (C : Type 0) : Type 0 where
  pub cache : C
  pub user_index : Dict (List String)

-- the tokens of a user in the index, or the empty set
abbrev pub or_empty : Option (List String) → List String
or_empty none = []
or_empty (some token_ids) = token_ids

abbrev pub add : String → List String → List String
add token_id token_ids = if member token_id token_ids then token_ids else token_id ∷ token_ids

-- d.pop(key, None)
unfoldable pub without : String → Dict (List String) → Dict (List String)
without k d = filter (λ e. not (str_eq e.0 k)) d

module _ {C : Type 0} (ttl_cache : TtlCache C) (str_uuid : ℕ → String) where
  unfoldable pub get : String → ℕ → PrincipalCache C → Option Principal
  get token_id now s = ttl_cache.get token_id now s.cache

  unfoldable pub set : String → Principal → ℕ → PrincipalCache C → PrincipalCache C
  set token_id principal now s =
      let uid = str_uuid principal.user_id in
      record {
        cache = ttl_cache.set token_id principal now s.cache;
        user_index = insert uid (add token_id (or_empty (lookup uid s.user_index))) s.user_index;
      }

  unfoldable pub pop : String → ℕ → PrincipalCache C → PrincipalCache C
  pop token_id now s = record s { cache = ttl_cache.pop token_id now s.cache }

  -- `for tid in token_ids`
  unfoldable pub pop_all : List String → ℕ → C → C
  pop_all [] now cache = cache
  pop_all (token_id ∷ token_ids) now cache =
      pop_all token_ids now (ttl_cache.pop token_id now cache)

  unfoldable pub invalidate_user : ℕ → ℕ → PrincipalCache C → PrincipalCache C
  unfolding without pop_all
  invalidate_user user_id now s =
      let uid = str_uuid user_id in
      record {
        cache = pop_all (or_empty (lookup uid s.user_index)) now s.cache;
        user_index = without uid s.user_index;
      }

  -- A history of the cache; `get` changes nothing that a later call sees.
  pub data Reach (s : PrincipalCache C) : PrincipalCache C → Type 0 where
    created : Reach s s
    after_set :
        {t : PrincipalCache C} (token_id : String) (principal : Principal) (now : ℕ)
        → Reach s t
        → Reach s (set token_id principal now t)
    after_pop :
        {t : PrincipalCache C} (token_id : String) (now : ℕ)
        → Reach s t
        → Reach s (pop token_id now t)
    after_invalidate :
        {t : PrincipalCache C} (user_id now : ℕ)
        → Reach s t
        → Reach s (invalidate_user user_id now t)
