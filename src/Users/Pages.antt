-- ===== src/Users/Pages.antt =====
-- `admin_list_users` of src/features/users/adapters/inbound/http/admin.py, and a client that follows its
-- cursors.
pub mod Walk
use starter_template_fastapi.Base.{
  ℕ, zero, suc, String, Bool, not, ◌&&◌, Option, none, some, List, [], ◌++◌, map, leb,
  if◌then◌else◌, length,
}
use starter_template_fastapi.Base.Keyset.{next_cursor}
use starter_template_fastapi.Base.Keyset.Client.{gather}
use starter_template_fastapi.Base.Cursor.{
  CursorLib, CursorError, Decoded, decoded, invalid, encode_cursor, decode_cursor,
}
use starter_template_fastapi.Users.Model.{User}
use starter_template_fastapi.Users.Repository.{created_key, key_lt}
use starter_template_fastapi.Users.Profile.{list_users}

pub record UserPublic : Type 0 where
  pub id : ℕ
  pub email : String
  pub is_active : Bool
  pub is_verified : Bool
  pub authz_version : ℕ
  pub created_at : ℕ
  pub updated_at : ℕ

abbrev pub public : User → UserPublic
public u = record {
  id = u.id;
  email = u.email;
  is_active = u.is_active;
  is_verified = u.is_verified;
  authz_version = u.authz_version;
  created_at = u.created_at;
  updated_at = u.updated_at;
}

pub record UserListPage (T : Type 0) : Type 0 where
  pub items : List UserPublic
  pub count : ℕ
  pub limit : ℕ
  pub next_cursor : Option T

-- The answer: a page, 400 with the code `invalid_cursor`, or 422 for a limit out of range
pub data ListAnswer (T : Type 0) : Type 0 where
  shows : UserListPage T → ListAnswer T
  invalid_cursor : CursorError → ListAnswer T
  unprocessable : ListAnswer T

module _ {T B : Type 0} (lib : CursorLib T B) where
  abbrev pub next_token : Option (ℕ × ℕ) → Option T
  next_token none = none
  next_token (some (created_at, id)) = some (encode_cursor lib created_at id)

  -- The page of the users that the query returned.
  abbrev pub list_page : ℕ → List User → ListAnswer T
  list_page limit users = shows (record {
    items = map public users;
    count = length (map public users);
    limit = limit;
    next_cursor = next_token (next_cursor created_key key_lt limit users);
  })

  abbrev pub list_decoded : Decoded → ℕ → List User → ListAnswer T
  list_decoded (invalid error) limit rows = invalid_cursor error
  list_decoded (decoded created_at id) limit rows =
      list_page limit (list_users (some (created_at, id)) limit rows)

  abbrev pub list_from : Option T → ℕ → List User → ListAnswer T
  list_from none limit rows = list_page limit (list_users none limit rows)
  list_from (some cursor) limit rows = list_decoded (decode_cursor lib cursor) limit rows

  unfoldable pub admin_list_users : Option T → ℕ → List User → ListAnswer T
  unfolding list_users next_cursor encode_cursor decode_cursor
  admin_list_users cursor limit rows =
      if leb 1 limit && leb limit 500 then list_from cursor limit rows else unprocessable

  -- What a client reads of an answer; an error ends its walk.
  abbrev pub read_answer : ListAnswer T → List UserPublic × Option T
  read_answer (shows p) = (p.items, p.next_cursor)
  read_answer (invalid_cursor error) = ([], none)
  read_answer unprocessable = ([], none)

  -- The users that a client collects which sends each `next_cursor` back, on fuel.
  unfoldable pub collect : ℕ → ℕ → List User → List UserPublic
  unfolding gather admin_list_users
  collect fuel limit rows =
      gather (λ cursor. read_answer (admin_list_users cursor limit rows)) fuel none
