-- ===== src/Users/Profile.antt =====
-- The use cases of src/features/users/application/use_cases that read and write one user.
pub mod Laws
use starter_template_fastapi.Base.{
  ℕ, String, Option, none, some, List, str_eq, if◌then◌else◌, max, min,
}
use starter_template_fastapi.Users.Model.{User, UserResult, ok, err, user_not_found}
use starter_template_fastapi.Users.Repository.{
  get_by_id, list_paginated, get_by_email, create, update_email,
}

abbrev pub or_not_found : Option User → UserResult
or_not_found none = err user_not_found
or_not_found (some user) = ok user

-- `GetUserById.execute`
unfoldable pub get_user_by_id : ℕ → List User → UserResult
get_user_by_id user_id rows = or_not_found (get_by_id user_id rows)

-- `ListUsers.execute`
unfoldable pub list_users : Option (ℕ × ℕ) → ℕ → List User → List User
unfolding list_paginated
list_users cursor limit rows = list_paginated cursor (max 1 (min limit 500)) rows

module _ (lower strip : String → String) where
  -- `GetUserByEmail.execute`
  unfoldable pub get_user_by_email : String → List User → UserResult
  unfolding get_by_email
  get_user_by_email email rows = or_not_found (get_by_email lower strip (lower (strip email)) rows)

  -- `RegisterUser.execute`
  unfoldable pub register_user : ℕ → ℕ → String → List User → UserResult × List User
  unfolding create
  register_user id now email rows = create lower strip id now (lower (strip email)) rows

  abbrev pub update_existing :
      ℕ → ℕ → Option String → Option User → List User → UserResult × List User
  update_existing now user_id email none rows = (err user_not_found, rows)
  update_existing now user_id none (some existing) rows = (ok existing, rows)
  update_existing now user_id (some email) (some existing) rows =
      if str_eq (lower (strip email)) existing.email
      then (ok existing, rows)
      else update_email lower strip now user_id (lower (strip email)) rows

  -- `UpdateProfile.execute`
  unfoldable pub update_profile : ℕ → ℕ → Option String → List User → UserResult × List User
  unfolding get_by_id update_email
  update_profile now user_id email rows =
      update_existing now user_id email (get_by_id user_id rows) rows
