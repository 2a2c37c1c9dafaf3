-- ===== src/Authentication/PrincipalCache/Tests.antt =====
-- The cache's theorem at a cache of functions with two users.
use starter_template_fastapi.Base.{
  ℕ, ◌≡◌, ◌≢◌, refl, sym, ◌∙◌, String, true, false, List, ◌∷◌, Option, none, some, [], arith, ◌==◌,
  str_eq, if◌then◌else◌,
}
use mathlib.Core.Option.{some-injective}
use starter_template_fastapi.Users.Model.{User}
use starter_template_fastapi.Users.Repository.{get_by_id, get_raw_by_id}
use starter_template_fastapi.Authentication.Resolve.{AccessTokenPayload, resolved, execute}
use starter_template_fastapi.Authentication.Resolve.Laws.{Current, execute-Current}
use starter_template_fastapi.Base.Dict.{str_eq_self, lookup, insert}
use starter_template_fastapi.Authentication.Models.{Principal}
use starter_template_fastapi.Authentication.PrincipalCache.{
  TtlCache, PrincipalCache, get, set, pop_all, invalidate_user, created, after_set,
}
use starter_template_fastapi.Authentication.PrincipalCache.Invalidate.{
  IsTtlCache, get-invalidate_user,
}

abbrev functions : TtlCache (String → Option Principal)
functions = record {
  get = λ k t c. c k;
  set = λ k v now c. (λ j. if str_eq k j then some v else c j);
  pop = λ k now c. (λ j. if str_eq k j then none else c j);
}

functions-IsTtlCache : IsTtlCache functions
functions-IsTtlCache = record {
  get-set_same = λ k v p now t c e. some-injective p v (sym e ∙ rw (str_eq_self k) refl);
  get-set_other = λ k j v p now t c ne e. rw ne at e;
  get-pop = λ k j p now t c e. ground arith;
}

abbrev principal : ℕ → Principal
principal user_id = record {
  user_id = user_id;
  email = "a@b";
  is_active = true;
  is_verified = true;
  authz_version = 1;
}

abbrev name : ℕ → String
name user_id = if user_id == 7 then "seven" else "eight"

abbrev empty : PrincipalCache (String → Option Principal)
empty = record { cache = λ k. none; user_index = [] }

abbrev filled : PrincipalCache (String → Option Principal)
filled = set functions name "t8" (principal 8) 2 (set functions name "t7" (principal 7) 1 empty)

-- The token of the other user is still answered.
still_there :
    get functions name "t8" 4 (invalidate_user functions name 7 3 filled) ≡ some (principal 8)
unfolding get set invalidate_user pop_all lookup insert
still_there = refl

get-invalidate_user_example : (principal 8).user_id ≢ 7
get-invalidate_user_example =
    get-invalidate_user functions name functions-IsTtlCache (λ j t. refl)
      (after_set "t8" (principal 8) 2 (after_set "t7" (principal 7) 1 created)) 7 3 "t8" 4
      (principal 8) still_there

abbrev payload : AccessTokenPayload
payload = record { subject = 7; authz_version = 1; token_id = "t7" }

abbrev decode : String → Option AccessTokenPayload
decode token = some payload

abbrev users : List User
users =
    record {
      id = 7;
      email = "a@b";
      is_active = true;
      is_verified = true;
      is_erased = false;
      authz_version = 1;
      created_at = 0;
      updated_at = 0;
      last_login_at = none;
    }
    ∷ []

abbrev dropped : PrincipalCache (String → Option Principal)
dropped = invalidate_user functions name 7 3 filled

abbrev refilled : PrincipalCache (String → Option Principal)
refilled = (execute functions name decode 4 users "jwt" dropped).1

resolves : execute functions name decode 4 users "jwt" dropped ≡ (resolved (principal 7), refilled)
unfolding execute get set invalidate_user pop_all lookup insert get_by_id get_raw_by_id
resolves = refl

execute-Current_example : Current functions name decode 4 users payload (principal 7)
execute-Current_example =
    execute-Current functions name decode 4 users functions-IsTtlCache (λ j t. refl)
      (after_set "t8" (principal 8) 2 (after_set "t7" (principal 7) 1 created)) 7 3 "jwt" refl
      resolves refl
