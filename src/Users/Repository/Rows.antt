-- ===== src/Users/Repository/Rows.antt =====
-- What an UPDATE of one row keeps.
use starter_template_fastapi.Base.{
  ℕ, ◌≡◌, refl, sym, ap, ◌∙◌, inl, inr, String, Bool, true, false, Option, none, some, List, [],
  ◌∷◌, arith, str_eq, ◌==◌, if◌then◌else◌, any, Bool-cases, All,
}
use starter_template_fastapi.Base.Dict.{str_eq-sym}
use starter_template_fastapi.Base.Keys.{has_id, Distinct}
use starter_template_fastapi.Users.Model.{User}
use starter_template_fastapi.Users.Repository.{get_raw_by_id, visible, email_taken, update_row}

abbrev pub ident : User → ℕ
ident u = u.id

abbrev pub has_email : List User → String → Bool
has_email rows email = any (λ u. str_eq u.email email) rows

-- The e-mails of the rows are distinct.
abbrev pub UniqueEmails : List User → Type 0
UniqueEmails [] = Unit
UniqueEmails (u ∷ rows) = (has_email rows u.email ≡ false) × UniqueEmails rows

module _ (user_id : ℕ) (change : User → User) (same_id : (u : User) → (change u).id ≡ u.id) where
  same_ident : (u : User) → ident (if u.id == user_id then change u else u) ≡ ident u
  same_ident u = ground (arith, same_id u)

  any-update_row :
      (p : User → Bool) (rows : List User)
      → ((u : User) → p (change u) ≡ p u)
      → any p (update_row user_id change rows) ≡ any p rows
  unfolding update_row
  any-update_row p [] h = refl
  any-update_row p (u ∷ rows) h = ground (arith, h u, any-update_row p rows h)

  has_id-update_row :
      (k : ℕ) (rows : List User)
      → has_id ident (update_row user_id change rows) k ≡ has_id ident rows k
  has_id-update_row k rows =
      any-update_row (λ u. u.id == k) rows (λ u. ap (λ i. i == k) (same_id u))

  pub Distinct-update_row :
      (rows : List User) → Distinct ident rows → Distinct ident (update_row user_id change rows)
  unfolding update_row
  Distinct-update_row [] d = tt
  Distinct-update_row (u ∷ rows) d = (
    has_id-update_row (ident (if u.id == user_id then change u else u)) rows
        ∙ ap (has_id ident rows) (same_ident u)
        ∙ d.0,
    Distinct-update_row rows d.1,
  )

  pub UniqueEmails-update_row :
      (rows : List User)
      → ((u : User) → (change u).email ≡ u.email)
      → UniqueEmails rows
      → UniqueEmails (update_row user_id change rows)
  unfolding update_row
  UniqueEmails-update_row [] h d = tt
  UniqueEmails-update_row (u ∷ rows) h d = (
    any-update_row _ rows
          (λ v. ap (λ e. str_eq e (if u.id == user_id then change u else u).email) (h v))
        ∙ ap (has_email rows) (same_email u)
        ∙ d.0,
    UniqueEmails-update_row rows h d.1,
  )
    where
      same_email : (u : User) → (if u.id == user_id then change u else u).email ≡ u.email
      same_email u = ground (arith, h u)

  pub get_raw_by_id-update_row :
      (k : ℕ) (rows : List User)
      → get_raw_by_id k (update_row user_id change rows) ≡ elim (get_raw_by_id k rows) [
        | none ↦ none
        | some u ↦ some (if u.id == user_id then change u else u)
      ]
  unfolding update_row get_raw_by_id
  get_raw_by_id-update_row k [] = refl
  get_raw_by_id-update_row k (u ∷ rows) =
      let same : (ident (if u.id == user_id then change u else u) == k) ≡ (u.id == k) =
        ap (λ i. i == k) (same_ident u) in
      elim (Bool-cases (u.id == k)) [
        | inl e ↦ rw (same ∙ e, e) refl
        | inr e ↦ rw (same ∙ e, e) (get_raw_by_id-update_row k rows)
      ]

  pub All-update_row {κ} :
      (P : User → Type κ) (rows : List User)
      → ((u : User) → P u → P (change u))
      → All P rows
      → All P (update_row user_id change rows)
  unfolding update_row
  All-update_row P [] h k = tt
  All-update_row P (u ∷ rows) h k = (
    elim (Bool-cases (u.id == user_id)) [ inl e ↦ rw e (h u k.0) | inr e ↦ rw e (k.0) ],
    All-update_row P rows h k.1,
  )

-- An e-mail that no other row has: the rows keep distinct e-mails when one row takes it.
module _ (user_id : ℕ) (email : String) (change : User → User)
    (takes : (u : User) → (u.id == user_id) ≡ true → (change u).email ≡ email) where
  has_email-update_row :
      (rows : List User) (other : String)
      → str_eq email other ≡ false
      → has_email rows other ≡ false
      → has_email (update_row user_id change rows) other ≡ false
  unfolding update_row
  has_email-update_row [] other h k = refl
  has_email-update_row (u ∷ rows) other h k = elim (Bool-cases (u.id == user_id)) [
    | inl e ↦ rw (e, takes u e) (ground (arith, has_email-update_row rows other h))
    | inr e ↦ rw e (ground (arith, has_email-update_row rows other h))
  ]

  update_row_absent :
      (rows : List User) → has_id ident rows user_id ≡ false → update_row user_id change rows ≡ rows
  unfolding update_row
  update_row_absent [] h = refl
  update_row_absent (u ∷ rows) h =
      let other : (u.id == user_id) ≡ false = ground arith in
      rw other (ap (◌∷◌ u) (update_row_absent rows (ground arith)))

  not_taken :
      (rows : List User)
      → email_taken email user_id rows ≡ false
      → has_id ident rows user_id ≡ false
      → has_email rows email ≡ false
  unfolding email_taken
  not_taken [] free h = refl
  not_taken (u ∷ rows) free h = ground (arith, not_taken rows)

  pub UniqueEmails-update_row_taking :
      (rows : List User)
      → email_taken email user_id rows ≡ false
      → Distinct ident rows
      → UniqueEmails rows
      → UniqueEmails (update_row user_id change rows)
  unfolding update_row email_taken
  UniqueEmails-update_row_taking [] free d h = tt
  UniqueEmails-update_row_taking (u ∷ rows) free d h = elim (Bool-cases (u.id == user_id)) [
    | inl e ↦
        let absent : has_id ident rows user_id ≡ false =
          (let same : u.id ≡ user_id = ground arith in rw (sym same) (d.0)) in
        let keeps = update_row_absent rows absent in
        rw (e, takes u e) (rw keeps (not_taken rows (ground (arith, free)) absent, h.1))
    | inr e ↦ rw e (
      has_email-update_row rows u.email
          (let sym_eq = str_eq-sym email u.email in ground (arith, free)) h.0,
      UniqueEmails-update_row_taking rows (ground (arith, free)) d.1 h.1,
    )
  ]

pub get_raw_by_id-id :
    (user_id : ℕ) (rows : List User) {u : User}
    → get_raw_by_id user_id rows ≡ some u
    → u.id ≡ user_id
unfolding get_raw_by_id
get_raw_by_id-id user_id [] h = absurd (ground arith)
get_raw_by_id-id user_id (x ∷ rows) {u} h = elim (Bool-cases (x.id == user_id)) [
  | inl e ↦
      let same : x ≡ u = (let f = rw e at h in cc) in
      ap (λ (v : User). v.id) (sym same) ∙ ground arith
  | inr e ↦ get_raw_by_id-id user_id rows (rw e at h)
]

pub visible-some : (found : Option User) {u : User} → visible found ≡ some u → found ≡ some u
visible-some none h = absurd (ground arith)
visible-some (some v) h = elim (Bool-cases v.is_erased) [
  | inl e ↦ absurd (let f = rw e at h in ground arith)
  | inr e ↦ (let f = rw e at h in cc)
]
