-- ===== src/Users/Repository/Valid.antt =====
-- The constraints of the table `users`, kept by each method that writes.
use starter_template_fastapi.Base.{
  ℕ, ◌≤◌, ◌≡◌, refl, inl, inr, ap, String, true, false, ◌||◌, Option, none, some, List, [], ◌∷◌,
  ◌++◌, arith, str_eq, ◌==◌, any-append, Bool-cases, All, All-append,
}
use starter_template_fastapi.Base.Dict.{str_eq-sym}
use starter_template_fastapi.Base.Keys.{has_id, Distinct, Distinct-append_new}
use starter_template_fastapi.Users.Model.{User}
use starter_template_fastapi.Users.Repository.{
  get_raw_by_id, get_by_id, verify_row, scrub_row, rename_row, email_taken, update_row, new_user,
  erased_email, apply_erasure_scrub, mark_verified, bump_authz_version, set_active,
  update_last_login, scrub_for_erasure, create, update_email,
}
use starter_template_fastapi.Users.Repository.Writes.{
  Write, creates, verifies, bumps, renames, activates, logs_in, erases, kept_or, written,
}
use starter_template_fastapi.Users.Repository.Rows.{
  ident, has_email, UniqueEmails, Distinct-update_row, UniqueEmails-update_row, All-update_row,
  UniqueEmails-update_row_taking,
}

-- The primary key, `uq_users_email` and `ck_users_authz_version_positive`.
pub record Valid (rows : List User) : Type 0 where
  pub ids : Distinct ident rows
  pub emails : UniqueEmails rows
  pub versions : All (λ u. 1 ≤ u.authz_version) rows

UniqueEmails-append_new :
    (rows : List User) (u : User)
    → has_email rows u.email ≡ false
    → UniqueEmails rows
    → UniqueEmails (rows ++ u ∷ [])
UniqueEmails-append_new [] u free h = (refl, tt)
UniqueEmails-append_new (v ∷ rows) u free h =
    let turned = str_eq-sym u.email v.email in
    ground (
      arith,
      any-append (λ x. str_eq x.email v.email) rows (u ∷ []),
      UniqueEmails-append_new rows u,
    )

pub has_email_of_taken :
    (email : String) (id : ℕ) (rows : List User)
    → email_taken email id rows ≡ false
    → has_id ident rows id ≡ false
    → has_email rows email ≡ false
unfolding email_taken
has_email_of_taken email id [] free h = refl
has_email_of_taken email id (u ∷ rows) free h = ground (arith, has_email_of_taken email id rows)

-- A change that keeps the id and the e-mail of a row.
update_row-Valid :
    (user_id : ℕ) (change : User → User) (rows : List User)
    → ((u : User) → (change u).id ≡ u.id)
    → ((u : User) → (change u).email ≡ u.email)
    → ((u : User) → 1 ≤ u.authz_version → 1 ≤ (change u).authz_version)
    → Valid rows
    → Valid (update_row user_id change rows)
update_row-Valid user_id change rows same_id same_email grows v = record {
  ids = Distinct-update_row user_id change same_id rows v.ids;
  emails = UniqueEmails-update_row user_id change same_id rows same_email v.emails;
  versions = All-update_row user_id change same_id _ rows grows v.versions;
}

-- A change that takes an e-mail that no other row has.
update_row-Valid_taking :
    (user_id : ℕ) (email : String) (change : User → User) (rows : List User)
    → ((u : User) → (change u).id ≡ u.id)
    → ((u : User) → (u.id == user_id) ≡ true → (change u).email ≡ email)
    → ((u : User) → 1 ≤ u.authz_version → 1 ≤ (change u).authz_version)
    → email_taken email user_id rows ≡ false
    → Valid rows
    → Valid (update_row user_id change rows)
update_row-Valid_taking user_id email change rows same_id takes grows free v = record {
  ids = Distinct-update_row user_id change same_id rows v.ids;
  emails = UniqueEmails-update_row_taking user_id email change takes rows free v.ids v.emails;
  versions = All-update_row user_id change same_id _ rows grows v.versions;
}

verify_row-Valid :
    (now user_id : ℕ) (found : Option User) (rows : List User)
    → Valid rows
    → Valid (verify_row now user_id found rows)
verify_row-Valid now user_id none rows v = v
verify_row-Valid now user_id (some row) rows v = elim (Bool-cases row.is_verified) [
  | inl e ↦ rw e v
  | inr e ↦ rw e (update_row-Valid user_id _ rows (λ u. refl) (λ u. refl) (λ u h. h) v)
]

scrub_row-Valid :
    (str_uuid : ℕ → String) (now user_id : ℕ) (found : Option User) (rows : List User)
    → Valid rows
    → Valid (kept_or (scrub_row str_uuid now user_id found rows) rows)
unfolding apply_erasure_scrub
scrub_row-Valid str_uuid now user_id none rows v = v
scrub_row-Valid str_uuid now user_id (some row) rows v =
    elim (Bool-cases (email_taken (erased_email str_uuid user_id) user_id rows)) [
      | inl e ↦ rw e v
      | inr e ↦ rw e (
          update_row-Valid_taking user_id (erased_email str_uuid user_id) _ rows (λ u. refl)
            (λ u same. ap (erased_email str_uuid) (ground arith)) (λ u h. omega (arith, h)) e v)
    ]

rename_row-Valid :
    (now user_id : ℕ) (email : String) (found : Option User) (rows : List User)
    → Valid rows
    → Valid (rename_row now user_id email found rows).1
rename_row-Valid now user_id email none rows v = v
rename_row-Valid now user_id email (some row) rows v =
    elim (Bool-cases (email_taken email user_id rows)) [
      | inl e ↦ rw e v
      | inr e ↦
          rw e (
            update_row-Valid_taking user_id email _ rows (λ u. refl) (λ u same. refl) (λ u h. h) e
              v)
    ]

module _ (lower strip : String → String) where
  create-Valid :
      (id now : ℕ) (email : String) (rows : List User)
      → Valid rows
      → Valid (create lower strip id now email rows).1
  unfolding create
  create-Valid id now email rows v =
      elim (Bool-cases (email_taken (lower email) id rows || has_id ident rows id)) [
        | inl e ↦ rw e v
        | inr e ↦ rw e (record {
          ids = Distinct-append_new ident rows (new_user id now (lower email)) (ground arith) v.ids;
          emails =
              UniqueEmails-append_new rows (new_user id now (lower email))
                (has_email_of_taken (lower email) id rows (ground arith) (ground arith)) v.emails;
          versions = All-append _ rows _ v.versions (omega arith, tt);
        })
      ]

  module _ (str_uuid : ℕ → String) where
    -- Every method that writes keeps the ids and the e-mails of the rows distinct and their versions
    -- at least 1.
    pub written-Valid :
        (w : Write) (rows : List User) → Valid rows → Valid (written lower strip str_uuid w rows)
    unfolding written mark_verified update_email scrub_for_erasure bump_authz_version set_active
        update_last_login
    written-Valid (creates id now email) rows v = create-Valid id now email rows v
    written-Valid (verifies now user_id) rows v =
        verify_row-Valid now user_id (get_raw_by_id user_id rows) rows v
    written-Valid (bumps now user_id) rows v =
        update_row-Valid user_id _ rows (λ u. refl) (λ u. refl) (λ u h. omega (arith, h)) v
    written-Valid (renames now user_id email) rows v =
        rename_row-Valid now user_id (lower (strip email)) (get_raw_by_id user_id rows) rows v
    written-Valid (activates now is_active user_id) rows v =
        update_row-Valid user_id _ rows (λ u. refl) (λ u. refl) (λ u h. omega (arith, h)) v
    written-Valid (logs_in at user_id) rows v =
        update_row-Valid user_id _ rows (λ u. refl) (λ u. refl) (λ u h. h) v
    written-Valid (erases now user_id) rows v =
        scrub_row-Valid str_uuid now user_id (get_by_id user_id rows) rows v
