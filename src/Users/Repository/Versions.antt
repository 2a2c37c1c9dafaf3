-- ===== src/Users/Repository/Versions.antt =====
-- What no method that writes takes back from a user, and that it counts up the version of a user
-- whom it activates, deactivates or erases.
use starter_template_fastapi.Base.{
  ℕ, ◌+◌, ◌≤◌, ◌<◌, ◌≡◌, ◌⊎◌, refl, inl, inr, ◌∙◌, String, Bool, true, false, ◌||◌, Option, none,
  some, List, [], ◌∷◌, ◌++◌, arith, ◌==◌, if◌then◌else◌, Bool-cases,
}
use starter_template_fastapi.Base.Keys.{has_id}
use starter_template_fastapi.Users.Model.{User}
use starter_template_fastapi.Users.Repository.{
  get_raw_by_id, get_by_id, verify_row, scrub_row, rename_row, email_taken, update_row,
  apply_erasure_scrub, erased_email, mark_verified, bump_authz_version, set_active,
  update_last_login, scrub_for_erasure, create, update_email,
}
use starter_template_fastapi.Users.Repository.Writes.{
  Write, creates, verifies, bumps, renames, activates, logs_in, erases, kept_or, written,
}
use starter_template_fastapi.Users.Repository.Rows.{ident, get_raw_by_id-update_row}

-- How a row may change.
pub record Grows (u v : User) : Type 0 where
  pub same_id : v.id ≡ u.id
  pub same_created_at : v.created_at ≡ u.created_at
  pub version : u.authz_version ≤ v.authz_version
  pub stays_erased : (u.is_erased ≡ false) ⊎ (v.is_erased ≡ true)
  pub stays_verified : (u.is_verified ≡ false) ⊎ (v.is_verified ≡ true)
  pub counted :
      ((v.is_active ≡ u.is_active) × (v.is_erased ≡ u.is_erased))
      ⊎ (u.authz_version < v.authz_version)

stays : (a b : Bool) → (a ≡ true → b ≡ true) → (a ≡ false) ⊎ (b ≡ true)
stays false b h = inl refl
stays true b h = inr (h refl)

Grows-refl : (u : User) → Grows u u
Grows-refl u = record {
  same_id = refl;
  same_created_at = refl;
  version = omega arith;
  stays_erased = stays _ _ (λ h. h);
  stays_verified = stays _ _ (λ h. h);
  counted = inl (refl, refl);
}

with_same_version :
    (u v : User)
    → v.id ≡ u.id
    → v.created_at ≡ u.created_at
    → v.authz_version ≡ u.authz_version
    → (v.is_active ≡ u.is_active) × (v.is_erased ≡ u.is_erased)
    → (u.is_verified ≡ true → v.is_verified ≡ true)
    → Grows u v
with_same_version u v same_id same_time same_version flags verified = record {
  same_id = same_id;
  same_created_at = same_time;
  version = omega (arith, same_version);
  stays_erased = stays _ _ (λ h. flags.1 ∙ h);
  stays_verified = stays _ _ verified;
  counted = inl flags;
}

with_next_version :
    (u v : User)
    → v.id ≡ u.id
    → v.created_at ≡ u.created_at
    → v.authz_version ≡ u.authz_version + 1
    → (u.is_erased ≡ true → v.is_erased ≡ true)
    → v.is_verified ≡ u.is_verified
    → Grows u v
with_next_version u v same_id same_time up erased same_verified = record {
  same_id = same_id;
  same_created_at = same_time;
  version = omega (arith, up);
  stays_erased = stays _ _ erased;
  stays_verified = stays _ _ (λ h. same_verified ∙ h);
  counted = inr (omega (arith, up));
}

-- The row of a user afterwards.
abbrev pub Grown : ℕ → User → List User → Type 0
Grown user_id u rows = (v : User) × (get_raw_by_id user_id rows ≡ some v) × Grows u v

update_row-Grown :
    (k user_id : ℕ) (change : User → User) (rows : List User) (u : User)
    → ((v : User) → Grows v (change v))
    → get_raw_by_id k rows ≡ some u
    → Grown k u (update_row user_id change rows)
update_row-Grown k user_id change rows u grows found = (
  (if u.id == user_id then change u else u),
  get_raw_by_id-update_row user_id change (λ v. (grows v).same_id) k rows ∙ rw found refl,
  elim (Bool-cases (u.id == user_id)) [ inl e ↦ rw e (grows u) | inr e ↦ rw e (Grows-refl u) ],
)

get_raw_by_id-append :
    (k : ℕ) (rows more : List User) (u : User)
    → get_raw_by_id k rows ≡ some u
    → get_raw_by_id k (rows ++ more) ≡ some u
unfolding get_raw_by_id
get_raw_by_id-append k [] more u h = cc
get_raw_by_id-append k (v ∷ rows) more u h = ground (arith, get_raw_by_id-append k rows more u)

verify_row-Grown :
    (k now user_id : ℕ) (found : Option User) (rows : List User) (u : User)
    → get_raw_by_id k rows ≡ some u
    → Grown k u (verify_row now user_id found rows)
verify_row-Grown k now user_id none rows u h = (u, h, Grows-refl u)
verify_row-Grown k now user_id (some row) rows u h = elim (Bool-cases row.is_verified) [
  | inl e ↦ rw e (u, h, Grows-refl u)
  | inr e ↦ rw e (
      update_row-Grown k user_id _ rows u
        (λ v. with_same_version v _ refl refl refl (refl, refl) (λ h. refl)) h)
]

scrub_row-Grown :
    (str_uuid : ℕ → String) (k now user_id : ℕ) (found : Option User) (rows : List User) (u : User)
    → get_raw_by_id k rows ≡ some u
    → Grown k u (kept_or (scrub_row str_uuid now user_id found rows) rows)
unfolding apply_erasure_scrub
scrub_row-Grown str_uuid k now user_id none rows u h = (u, h, Grows-refl u)
scrub_row-Grown str_uuid k now user_id (some row) rows u h =
    elim (Bool-cases (email_taken (erased_email str_uuid user_id) user_id rows)) [
      | inl e ↦ rw e (u, h, Grows-refl u)
      | inr e ↦ rw e (
          update_row-Grown k user_id _ rows u
            (λ v.
              with_next_version v (apply_erasure_scrub str_uuid now v) refl refl refl (λ h. refl)
                refl)
            h)
    ]

rename_row-Grown :
    (k now user_id : ℕ) (email : String) (found : Option User) (rows : List User) (u : User)
    → get_raw_by_id k rows ≡ some u
    → Grown k u (rename_row now user_id email found rows).1
rename_row-Grown k now user_id email none rows u h = (u, h, Grows-refl u)
rename_row-Grown k now user_id email (some row) rows u h =
    elim (Bool-cases (email_taken email user_id rows)) [
      | inl e ↦ rw e (u, h, Grows-refl u)
      | inr e ↦ rw e (
          update_row-Grown k user_id _ rows u
            (λ v. with_same_version v _ refl refl refl (refl, refl) (λ h. h)) h)
    ]

module _ (lower strip : String → String) where
  create-Grown :
      (k id now : ℕ) (email : String) (rows : List User) (u : User)
      → get_raw_by_id k rows ≡ some u
      → Grown k u (create lower strip id now email rows).1
  unfolding create
  create-Grown k id now email rows u h =
      elim (Bool-cases (email_taken (lower email) id rows || has_id ident rows id)) [
        | inl e ↦ rw e (u, h, Grows-refl u)
        | inr e ↦ rw e (u, get_raw_by_id-append k rows _ u h, Grows-refl u)
      ]

  module _ (str_uuid : ℕ → String) where
    -- After any write, a user whose row was there has a row with the same id and time of creation. Its
    -- version is not less, an erased user is erased, a verified one verified, and the version is greater
    -- if the row became active, inactive or erased.
    pub written-Grown :
        (w : Write) (k : ℕ) (rows : List User) (u : User)
        → get_raw_by_id k rows ≡ some u
        → Grown k u (written lower strip str_uuid w rows)
    unfolding written mark_verified update_email scrub_for_erasure bump_authz_version set_active
        update_last_login
    written-Grown (creates id now email) k rows u h = create-Grown k id now email rows u h
    written-Grown (verifies now user_id) k rows u h =
        verify_row-Grown k now user_id (get_raw_by_id user_id rows) rows u h
    written-Grown (bumps now user_id) k rows u h =
        update_row-Grown k user_id _ rows u
          (λ v. with_next_version v _ refl refl refl (λ h. h) refl) h
    written-Grown (renames now user_id email) k rows u h =
        rename_row-Grown k now user_id (lower (strip email)) (get_raw_by_id user_id rows) rows u h
    written-Grown (activates now is_active user_id) k rows u h =
        update_row-Grown k user_id _ rows u
          (λ v. with_next_version v _ refl refl refl (λ h. h) refl) h
    written-Grown (logs_in at user_id) k rows u h =
        update_row-Grown k user_id _ rows u
          (λ v. with_same_version v _ refl refl refl (refl, refl) (λ h. h)) h
    written-Grown (erases now user_id) k rows u h =
        scrub_row-Grown str_uuid k now user_id (get_by_id user_id rows) rows u h
