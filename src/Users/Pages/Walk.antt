-- ===== src/Users/Pages/Walk.antt =====
-- A client that follows the cursors sees every user once, in the order of the listing.
use starter_template_fastapi.Base.{
  ℕ, ◌≤◌, ◌<◌, ◌≡◌, refl, ap, true, Option, none, some, List, map, arith, leb, length, All, max,
  min, ◌&&◌,
}
use starter_template_fastapi.Base.Keys.{Distinct}
use starter_template_fastapi.Base.Sort.{sort}
use starter_template_fastapi.Base.Keyset.{in_order, page, next_cursor}
use starter_template_fastapi.Base.Keyset.Client.{token_of, InRange?, answer_of, gather-all}
use starter_template_fastapi.Base.Keyset.Pages.{IsStrict, IsAscending-sort}
use starter_template_fastapi.Base.Cursor.{CursorLib, encode_cursor}
use starter_template_fastapi.Base.Cursor.RoundTrip.{
  RoundTrips, InRange, decode_cursor-encode_cursor,
}
use starter_template_fastapi.Users.Model.{User}
use starter_template_fastapi.Users.Repository.{created_key, key_lt, list_paginated}
use starter_template_fastapi.Users.Repository.Rows.{ident}
use starter_template_fastapi.Users.Profile.{list_users}
use starter_template_fastapi.Users.Pages.{
  public, next_token, list_page, admin_list_users, read_answer, collect,
}

key_lt-IsStrict : IsStrict key_lt
key_lt-IsStrict = record {
  irrefl = λ k. ground arith;
  trans = λ i j k e f. ground arith;
  between = λ i j k e f. ground arith;
}

module _ {T B : Type 0} (lib : CursorLib T B) (laws : RoundTrips lib) (limit : ℕ) (rows : List User)
    (least : 1 ≤ limit) (most : limit ≤ 500) (range : All (λ u. InRange (created_key u)) rows) where
  abbrev encode : ℕ × ℕ → T
  encode (created_at, id) = encode_cursor lib created_at id

  abbrev query : Option (ℕ × ℕ) → List User
  query cursor = page created_key key_lt limit cursor rows

  list_users-eq_query : (cursor : Option (ℕ × ℕ)) → list_users cursor limit rows ≡ query cursor
  unfolding list_users list_paginated
  list_users-eq_query cursor =
      let bounded : max 1 (min limit 500) ≡ limit = omega (arith, least, most) in
      ap (λ n. page created_key key_lt n cursor rows) bounded

  in_bounds : (leb 1 limit && leb limit 500) ≡ true
  in_bounds = ground arith

  next_token-eq_token_of :
      (cursor : Option (ℕ × ℕ))
      → next_token lib cursor ≡ token_of created_key key_lt public encode InRange cursor
  next_token-eq_token_of none = refl
  next_token-eq_token_of (some (t, i)) = refl

  read_answer-list_page :
      (users : List User)
      → read_answer lib (list_page lib limit users)
        ≡ answer_of created_key key_lt public encode InRange limit users
  read_answer-list_page users =
      ap (λ token. (map public users, token))
        (next_token-eq_token_of (next_cursor created_key key_lt limit users))

  answers :
      (cursor : Option (ℕ × ℕ))
      → InRange? created_key key_lt public encode InRange cursor
      → read_answer lib (
          admin_list_users lib
            (token_of created_key key_lt public encode InRange cursor)
            limit
            rows)
        ≡ answer_of created_key key_lt public encode InRange limit (query cursor)
  unfolding admin_list_users
  answers none r =
      rw (in_bounds, list_users-eq_query none, admin_list_users)
        (read_answer-list_page (query none))
  answers (some (t, i)) r =
      rw
        (
          in_bounds,
          decode_cursor-encode_cursor lib laws t i r.0 r.1,
          list_users-eq_query (some (t, i)),
          admin_list_users,
        )
        (read_answer-list_page (query (some (t, i))))

  -- A client that lists the users by pages of 1 to 500, and sends back each cursor that it is given,
  -- collects every user once, in the order of (created_at, id), if it makes more requests than there
  -- are users: given that the ids are distinct, that times and ids fit their types, and that the
  -- cursor's formats read back what they write.
  pub collect-all :
      (fuel : ℕ)
      → Distinct ident rows
      → length rows < fuel
      → collect lib fuel limit rows ≡ map public (sort (in_order created_key key_lt) rows)
  unfolding collect
  collect-all fuel d enough =
      gather-all created_key key_lt public encode InRange limit rows range
        (λ cursor. read_answer lib (admin_list_users lib cursor limit rows)) answers fuel
        key_lt-IsStrict (omega (arith, least))
        (IsAscending-sort created_key key_lt key_lt-IsStrict ident (λ x y e f. ground arith) rows d)
        enough
