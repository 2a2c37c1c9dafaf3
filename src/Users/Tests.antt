-- ===== src/Users/Tests.antt =====
-- The theorems of the users at small tables.
use starter_template_fastapi.Base.{
  ℕ, ◌≡◌, refl, String, true, false, none, some, List, [], ◌∷◌, map, arith,
}
use starter_template_fastapi.Base.Sort.{sort}
use starter_template_fastapi.Base.Keyset.{in_order}
use starter_template_fastapi.Base.Cursor.{decoded, encode_cursor, decode_cursor}
use starter_template_fastapi.Base.Cursor.Strokes.{stroke, lib, lib-RoundTrips}
use starter_template_fastapi.Base.Cursor.RoundTrip.{decode_cursor-encode_cursor}
use starter_template_fastapi.Users.Model.{User}
use starter_template_fastapi.Users.Repository.{get_raw_by_id, created_key, key_lt}
use starter_template_fastapi.Users.Repository.Writes.{renames, erases, written}
use starter_template_fastapi.Users.Repository.Valid.{Valid, written-Valid}
use starter_template_fastapi.Users.Repository.Versions.{Grown, written-Grown}
use starter_template_fastapi.Users.Pages.{public, collect}
use starter_template_fastapi.Users.Pages.Walk.{collect-all}

abbrev same : String → String
same s = s

decode_cursor-encode_cursor_example : decode_cursor lib (encode_cursor lib 5 7) ≡ decoded 5 7
decode_cursor-encode_cursor_example =
    decode_cursor-encode_cursor lib lib-RoundTrips 5 7 (omega arith) (omega arith)

abbrev user : ℕ → String → ℕ → User
user id email created_at = record {
  id = id;
  email = email;
  is_active = true;
  is_verified = false;
  is_erased = false;
  authz_version = 1;
  created_at = created_at;
  updated_at = created_at;
  last_login_at = none;
}

abbrev rows : List User
rows = user 3 "c@x" 5 ∷ user 1 "a@x" 9 ∷ user 2 "b@x" 5 ∷ []

rows-Valid : Valid rows
rows-Valid = record {
  ids = (refl, (refl, (refl, tt)));
  emails = (refl, (refl, (refl, tt)));
  versions = (omega arith, (omega arith, (omega arith, tt)));
}

-- The second user takes the e-mail of nobody.
written-Valid_example : Valid (written same same stroke (renames 20 1 "d@x") rows)
written-Valid_example = written-Valid same same stroke (renames 20 1 "d@x") rows rows-Valid

found : get_raw_by_id 1 rows ≡ some (user 1 "a@x" 9)
unfolding get_raw_by_id
found = refl

written-Grown_example : Grown 1 (user 1 "a@x" 9) (written same same stroke (erases 20 1) rows)
written-Grown_example = written-Grown same same stroke (erases 20 1) 1 rows (user 1 "a@x" 9) found

collect-all_example : collect lib 4 2 rows ≡ map public (sort (in_order created_key key_lt) rows)
collect-all_example =
    collect-all lib lib-RoundTrips 2 rows (omega arith) (omega arith)
      ((omega arith, omega arith), ((omega arith, omega arith), ((omega arith, omega arith), tt))) 4
      (refl, (refl, (refl, tt))) (omega arith)
