-- ===== src/Users/Repository.antt =====
-- `SQLModelUserRepository` of
-- src/features/users/adapters/outbound/persistence/sqlmodel/repository.py, and its session-bound twin,
-- which stages the same changes. A write that raises IntegrityError is rolled back.
pub mod Writes
pub mod Rows
pub mod Valid
pub mod Versions
use starter_template_fastapi.Base.{
  ℕ, ◌+◌, String, Bool, true, false, not, ◌&&◌, ◌||◌, Option, none, some, List, [], ◌∷◌, ◌++◌, map,
  str_eq, str_append, ◌==◌, ltb, if◌then◌else◌, any,
}
use starter_template_fastapi.Base.Keys.{has_id}
use starter_template_fastapi.Base.Keyset.{page}
use starter_template_fastapi.Users.Model.{
  User, UserResult, ok, err, user_not_found, user_already_exists,
}

-- session.get(UserTable, user_id), also `get_raw_by_id`
unfoldable pub get_raw_by_id : ℕ → List User → Option User
get_raw_by_id user_id [] = none
get_raw_by_id user_id (row ∷ rows) =
    if row.id == user_id then some row else get_raw_by_id user_id rows

-- Erased users are invisible to readers.
abbrev pub visible : Option User → Option User
visible none = none
visible (some row) = if row.is_erased then none else some row

unfoldable pub get_by_id : ℕ → List User → Option User
get_by_id user_id rows = visible (get_raw_by_id user_id rows)

-- The first row of the SELECT by the e-mail in lower case.
unfoldable pub find_email : String → List User → Option User
find_email email [] = none
find_email email (row ∷ rows) =
    if str_eq row.email email && not row.is_erased then some row else find_email email rows

-- UniqueConstraint("email"): whether another row has it
unfoldable pub email_taken : String → ℕ → List User → Bool
email_taken email user_id rows = any (λ row. str_eq row.email email && not (row.id == user_id)) rows

-- UPDATE of the row that `session.get` returned
unfoldable pub update_row : ℕ → (User → User) → List User → List User
update_row user_id change rows = map (λ row. if row.id == user_id then change row else row) rows

-- `UserTable(email=...)` with its defaults
abbrev pub new_user : ℕ → ℕ → String → User
new_user id now email = record {
  id = id;
  email = email;
  is_active = true;
  is_verified = false;
  is_erased = false;
  authz_version = 1;
  created_at = now;
  updated_at = now;
  last_login_at = none;
}

abbrev pub verify_row : ℕ → ℕ → Option User → List User → List User
verify_row now user_id none rows = rows
verify_row now user_id (some row) rows =
    if row.is_verified
    then rows
    else update_row user_id (λ u. record u { is_verified = true; updated_at = now }) rows

unfoldable pub mark_verified : ℕ → ℕ → List User → List User
mark_verified now user_id rows = verify_row now user_id (get_raw_by_id user_id rows) rows

unfoldable pub bump_authz_version : ℕ → ℕ → List User → List User
bump_authz_version now user_id rows =
    update_row user_id (λ u. record u { authz_version = u.authz_version + 1; updated_at = now })
      rows

unfoldable pub set_active : ℕ → Bool → ℕ → List User → List User
set_active now is_active user_id rows =
    update_row user_id
      (λ u. record u {
        is_active = is_active;
        authz_version = u.authz_version + 1;
        updated_at = now;
      })
      rows

unfoldable pub update_last_login : ℕ → ℕ → List User → List User
update_last_login at user_id rows =
    update_row user_id (λ u. record u { last_login_at = some at; updated_at = at }) rows

abbrev pub erased_email : (ℕ → String) → ℕ → String
erased_email str_uuid id = str_append "erased+" (str_append (str_uuid id) "@erased.invalid")

-- `_apply_erasure_scrub`; `str_uuid` is `str` of a UUID.
unfoldable pub apply_erasure_scrub : (ℕ → String) → ℕ → User → User
apply_erasure_scrub str_uuid now u = record u {
  email = erased_email str_uuid u.id;
  is_active = false;
  is_erased = true;
  last_login_at = none;
  authz_version = u.authz_version + 1;
  updated_at = now;
}

-- What `scrub_for_erasure_atomically_with` returns, with the rows; `integrity_error` is raised by
-- the flush when another row has the placeholder for its e-mail.
pub data ScrubResult : Type 0 where
  scrubbed : Bool → List User → ScrubResult
  integrity_error : ScrubResult

abbrev pub scrub_row : (ℕ → String) → ℕ → ℕ → Option User → List User → ScrubResult
scrub_row str_uuid now user_id none rows = scrubbed false rows
scrub_row str_uuid now user_id (some row) rows =
    if email_taken (erased_email str_uuid user_id) user_id rows
    then integrity_error
    else scrubbed true (update_row user_id (apply_erasure_scrub str_uuid now) rows)

unfoldable pub scrub_for_erasure : (ℕ → String) → ℕ → ℕ → List User → ScrubResult
scrub_for_erasure str_uuid now user_id rows =
    scrub_row str_uuid now user_id (get_by_id user_id rows) rows

-- (created_at, id), compared as a row value
abbrev pub created_key : User → ℕ × ℕ
created_key u = (u.created_at, u.id)

abbrev pub key_lt : ℕ × ℕ → ℕ × ℕ → Bool
key_lt (t, i) (s, j) = ltb t s || t == s && ltb i j

unfoldable pub list_paginated : Option (ℕ × ℕ) → ℕ → List User → List User
unfolding page
list_paginated cursor limit rows = page created_key key_lt limit cursor rows

abbrev pub rename_row : ℕ → ℕ → String → Option User → List User → UserResult × List User
rename_row now user_id email none rows = (err user_not_found, rows)
rename_row now user_id email (some row) rows =
    if email_taken email user_id rows then (err user_already_exists, rows) else (
      ok (record row { email = email; updated_at = now }),
      update_row user_id (λ u. record u { email = email; updated_at = now }) rows,
    )

-- `str.lower` and `str.strip`
module _ (lower strip : String → String) where
  unfoldable pub get_by_email : String → List User → Option User
  get_by_email email rows = find_email (lower email) rows

  unfoldable pub create : ℕ → ℕ → String → List User → UserResult × List User
  create id now email rows =
      if email_taken (lower email) id rows || has_id (λ (u : User). u.id) rows id
      then (err user_already_exists, rows)
      else (ok (new_user id now (lower email)), rows ++ new_user id now (lower email) ∷ [])

  unfoldable pub update_email : ℕ → ℕ → String → List User → UserResult × List User
  update_email now user_id new_email rows =
      rename_row now user_id (lower (strip new_email)) (get_raw_by_id user_id rows) rows
