-- ===== src/Users/Profile/Laws.antt =====
-- What the registration of a user makes findable, and whom readers do not see.
use starter_template_fastapi.Base.{
  ℕ, ◌≡◌, refl, inl, inr, String, true, false, not, ◌&&◌, ◌||◌, some, List, [], ◌∷◌, ◌++◌, arith,
  str_eq, ◌==◌, ==-refl, any-append, Bool-cases,
}
use starter_template_fastapi.Base.Dict.{str_eq_self}
use starter_template_fastapi.Base.Keys.{has_id}
use starter_template_fastapi.Users.Model.{User, ok, err, user_already_exists}
use starter_template_fastapi.Users.Repository.{
  get_raw_by_id, get_by_id, find_email, email_taken, new_user, get_by_email, create,
}
use starter_template_fastapi.Users.Repository.Rows.{ident, has_email}
use starter_template_fastapi.Users.Repository.Valid.{has_email_of_taken}
use starter_template_fastapi.Users.Profile.{get_user_by_id, get_user_by_email, register_user}

pub find_email-append_new :
    (email : String) (rows : List User) (u : User)
    → has_email rows email ≡ false
    → u.email ≡ email
    → u.is_erased ≡ false
    → find_email email (rows ++ u ∷ []) ≡ some u
unfolding find_email
find_email-append_new email [] u h same e = let self = str_eq_self email in rw (same, self, e) refl
find_email-append_new email (v ∷ rows) u h same e =
    ground (arith, find_email-append_new email rows u)

pub get_raw_by_id-append_new :
    (rows : List User) (u : User)
    → has_id ident rows u.id ≡ false
    → get_raw_by_id u.id (rows ++ u ∷ []) ≡ some u
unfolding get_raw_by_id
get_raw_by_id-append_new [] u h = rw (==-refl u.id) refl
get_raw_by_id-append_new (v ∷ rows) u h = ground (arith, get_raw_by_id-append_new rows u)

-- Whatever id is drawn, the e-mail of a row that is there cannot be inserted again.
email_taken_or_id :
    (id : ℕ) (rows : List User) (u : User)
    → (email_taken u.email id (rows ++ u ∷ []) || has_id ident (rows ++ u ∷ []) id) ≡ true
unfolding email_taken
email_taken_or_id id rows u =
    let self = str_eq_self u.email in
    let taken = any-append (λ v. str_eq v.email u.email && not (v.id == id)) rows (u ∷ []) in
    let there = any-append (λ v. v.id == id) rows (u ∷ []) in
    rw (taken, there) (rw self (ground arith))

module _ (lower strip : String → String) where
  -- The parts of a creation that succeeds.
  pub create-ok :
      (id now : ℕ) (email : String) (rows : List User) {u : User} {rows' : List User}
      → create lower strip id now email rows ≡ (ok u, rows')
      → (u ≡ new_user id now (lower email))
        × (rows' ≡ rows ++ u ∷ [])
        × (has_id ident rows id ≡ false)
        × (has_email rows (lower email) ≡ false)
  unfolding create
  create-ok id now email rows e =
      elim (Bool-cases (email_taken (lower email) id rows || has_id ident rows id)) [
        | inl t ↦ let f = rw t at e in cc
        | inr t ↦
            let f = rw t at e in
            let absent : has_id ident rows id ≡ false = ground arith in
            (cc, cc, absent, has_email_of_taken (lower email) id rows (ground arith) absent)
      ]

  -- The user that a registration returns is found afterwards by its id, and by the e-mail that was given
  -- as it was written; and no later registration with that e-mail succeeds or changes a row.
  pub register_user-found :
      (id now id' now' : ℕ) (email : String) (rows : List User) {u : User} {rows' : List User}
      → register_user lower strip id now email rows ≡ (ok u, rows')
      → (get_user_by_id id rows' ≡ ok u)
        × (get_user_by_email lower strip email rows' ≡ ok u)
        × (register_user lower strip id' now' email rows' ≡ (err user_already_exists, rows'))
  unfolding register_user get_user_by_id get_user_by_email get_by_id get_by_email
  register_user-found id now id' now' email rows {u} {rows'} e =
      let (same, after, absent, free) = create-ok id now (lower (strip email)) rows e in
      let mail = lower (lower (strip email)) in
      let n = new_user id now mail in
      let by_id : get_raw_by_id id (rows ++ n ∷ []) ≡ some n =
        get_raw_by_id-append_new rows n absent in
      let by_email : find_email mail (rows ++ n ∷ []) ≡ some n =
        find_email-append_new mail rows n free refl refl in
      let there = email_taken_or_id id' rows n in
      rw after (rw same (rw by_id refl, rw by_email refl, rw there refl))
