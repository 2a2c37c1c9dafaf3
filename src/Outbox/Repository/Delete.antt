-- ===== src/Outbox/Repository/Delete.antt =====
-- What one bounded DELETE removes from a table whose ids are distinct: a primary key.
use starter_template_fastapi.Base.{
  ℕ, ◌+◌, ◌≤◌, ◌<◌, ◌≡◌, refl, ◌⊎◌, inl, inr, Bool, true, false, not, Option, List, [], ◌∷◌, arith,
  ◌==◌, length, take, filter, count, any, All, All-implies, any-take, All-any_self, length-filter,
  All-zip, All-true, ◌∙◌, Bool-cases, ==-refl, length-take,
}
pub use starter_template_fastapi.Base.Keys.{Distinct}
pub use starter_template_fastapi.Base.Keys.Kept.{Distinct-filter}
use starter_template_fastapi.Base.Keys.Kept.{has_id-filter, Distinct-take, Distinct-sort}
use starter_template_fastapi.Base.Filters.{
  count-add-filter-not, filter-not_of_none, count_of_any, filter-filter-not, All-of_any-false,
  any-filter, any_of_All, count-or-le, count-eq-zero,
}
use starter_template_fastapi.Base.Sort.{sort, any-sort, length-sort}
use starter_template_fastapi.Outbox.Repository.{oldest_first, has_id, select_oldest, delete_oldest}

module _ {ℓ} {A : Type ℓ} (ident : A → ℕ) where
  after_head :
      (e : A → Bool) (x : A) (xs : List A) (y : A)
      → ((ident y == ident x) ≡ false)
        × ((e y ≡ true) ⊎ (has_id ident (filter e xs) (ident y) ≡ false))
      → (e y ≡ true) ⊎ (has_id ident (filter e (x ∷ xs)) (ident y) ≡ false)
  after_head e x xs y (ne, inl p) = inl p
  after_head e x xs y (ne, inr p) = inr (ground arith)

  -- With distinct ids, a row that fails the test shares no id with a row that passes it.
  has_id-filter_self :
      (e : A → Bool) (xs : List A)
      → Distinct ident xs
      → All (λ x. (e x ≡ true) ⊎ (has_id ident (filter e xs) (ident x) ≡ false)) xs
  has_id-filter_self e [] h = tt
  has_id-filter_self e (x ∷ xs) h = (
    elim (Bool-cases (e x)) [
      | inl p ↦ inl p
      | inr p ↦ inr (rw p (has_id-filter ident e (ident x) xs h.0))
    ],
    All-implies _ _ xs (λ y k. after_head e x xs y k)
        (All-zip (λ y. (ident y == ident x) ≡ false)
          (λ y. (e y ≡ true) ⊎ (has_id ident (filter e xs) (ident y) ≡ false)) xs
          (All-of_any-false (λ y. ident y == ident x) xs h.0) (has_id-filter_self e xs h.1)),
  )

  count-has_id-false :
      (k : ℕ) (x : A) (xs : List A)
      → has_id ident xs (ident x) ≡ false
      → k ≡ ident x
      → count (λ y. k == ident y) xs ≡ 0
  count-has_id-false k x [] h e = refl
  count-has_id-false k x (y ∷ ys) h e = ground (arith, count-has_id-false k x ys)

  count_id-le : (k : ℕ) (xs : List A) → Distinct ident xs → count (λ x. k == ident x) xs ≤ 1
  count_id-le k [] h = omega arith
  count_id-le k (x ∷ xs) h = ground (arith, count_id-le k xs h.1, count-has_id-false k x xs)

  count-has_id-le :
      (selected xs : List A)
      → Distinct ident xs
      → count (λ x. has_id ident selected (ident x)) xs ≤ length selected
  count-has_id-le [] xs h =
      omega (arith, count-eq-zero (λ x. false) xs (All-true (λ x. false ≡ false) (λ x. refl) xs))
  count-has_id-le (s ∷ selected) xs h = omega (
    arith,
    count-or-le (λ x. ident s == ident x) (λ x. has_id ident selected (ident x)) xs,
    count_id-le (ident s) xs h,
    count-has_id-le selected xs h,
  )

module _ {ℓ} {A : Type ℓ} (ident : A → ℕ) (eligible : A → Bool) (at : A → Option ℕ) where
  abbrev doomed : ℕ → List A → A → Bool
  doomed limit rows r = has_id ident (select_oldest ident eligible at limit rows) (ident r)

  not_selected :
      (limit : ℕ) (rows : List A) (r : A)
      → (eligible r ≡ true) ⊎ (has_id ident (filter eligible rows) (ident r) ≡ false)
      → (eligible r ≡ true) ⊎ (doomed limit rows r ≡ false)
  unfolding select_oldest
  not_selected limit rows r (inl e) = inl e
  not_selected limit rows r (inr e) = inr (
      any-take _ limit (sort (λ a b. oldest_first (at a) (at b)) (filter eligible rows))
        (any-sort _ _ (filter eligible rows) ∙ e))

  doomed-eligible :
      (limit : ℕ) (rows : List A)
      → Distinct ident rows
      → All (λ r. (eligible r ≡ true) ⊎ (doomed limit rows r ≡ false)) rows
  doomed-eligible limit rows h =
      All-implies _ _ rows (λ r k. not_selected limit rows r k)
        (has_id-filter_self ident eligible rows h)

  length-select_oldest :
      (limit : ℕ) (rows : List A) → length (select_oldest ident eligible at limit rows) ≤ limit
  unfolding select_oldest
  length-select_oldest limit rows =
      omega
        (arith, length-take limit (sort (λ a b. oldest_first (at a) (at b)) (filter eligible rows)))

  nothing_selected :
      (limit : ℕ) (rows : List A)
      → 0 < limit
      → 0 < count eligible rows
      → ¬ (any (doomed limit rows) rows ≡ false)
  nothing_selected limit rows l h e =
      let sorted : List A = sort (λ a b. oldest_first (at a) (at b)) (filter eligible rows) in
      let none_here : any (doomed limit rows) (take limit sorted) ≡ false =
        any-take (doomed limit rows) limit sorted (
          any-sort _ (doomed limit rows) (filter eligible rows)
          ∙ any-filter (doomed limit rows) eligible rows e) in
      let some_here : any (doomed limit rows) (take limit sorted) ≡ true =
        any_of_All (doomed limit rows) (take limit sorted)
          (unfold select_oldest in
            All-any_self (λ r s. ident s == ident r) (take limit sorted) (λ r. ==-refl (ident r)))
          (omega (
            arith,
            length-take limit sorted,
            length-sort (λ a b. oldest_first (at a) (at b)) (filter eligible rows),
            length-filter eligible rows,
          )) in
      cc (none_here, some_here)

  -- The first row selected is a row of the table.
  select_oldest_nonempty :
      (limit : ℕ) (rows : List A)
      → 0 < limit
      → 0 < count eligible rows
      → 0 < count (doomed limit rows) rows
  select_oldest_nonempty limit rows l h = elim (Bool-cases (any (doomed limit rows) rows)) [
    | inl e ↦ count_of_any (doomed limit rows) rows e
    | inr e ↦ absurd (nothing_selected limit rows l h e)
  ]

  -- One DELETE never removes a row that is not eligible.
  pub delete_oldest-keeps :
      (limit : ℕ) (rows : List A)
      → Distinct ident rows
      → filter (λ r. not (eligible r)) (delete_oldest ident eligible at limit rows).1
        ≡ filter (λ r. not (eligible r)) rows
  unfolding delete_oldest
  delete_oldest-keeps limit rows h =
      ground
        (arith, filter-filter-not eligible (doomed limit rows) rows (doomed-eligible limit rows h))

  -- The rowcount is the number of rows that are gone.
  pub delete_oldest-count :
      (limit : ℕ) (rows : List A)
      → (delete_oldest ident eligible at limit rows).0
          + length (delete_oldest ident eligible at limit rows).1
        ≡ length rows
  unfolding delete_oldest
  delete_oldest-count limit rows = ground (arith, count-add-filter-not (doomed limit rows) rows)

  pub delete_oldest-le :
      (limit : ℕ) (rows : List A)
      → Distinct ident rows
      → (delete_oldest ident eligible at limit rows).0 ≤ limit
  unfolding delete_oldest
  delete_oldest-le limit rows h = ground (
    arith,
    count-has_id-le ident (select_oldest ident eligible at limit rows) rows h,
    length-select_oldest limit rows,
  )

  pub delete_oldest-pos :
      (limit : ℕ) (rows : List A)
      → 0 < limit
      → 0 < count eligible rows
      → 0 < (delete_oldest ident eligible at limit rows).0
  unfolding delete_oldest
  delete_oldest-pos limit rows l h = ground (arith, select_oldest_nonempty limit rows)

  pub delete_oldest_nothing :
      (limit : ℕ) (rows : List A)
      → (delete_oldest ident eligible at limit rows).0 ≡ 0
      → (delete_oldest ident eligible at limit rows).1 ≡ rows
  unfolding delete_oldest
  delete_oldest_nothing limit rows h = ground (arith, filter-not_of_none (doomed limit rows) rows)

  pub Distinct-delete_oldest :
      (limit : ℕ) (rows : List A)
      → Distinct ident rows
      → Distinct ident (delete_oldest ident eligible at limit rows).1
  unfolding delete_oldest
  Distinct-delete_oldest limit rows h = elim (Bool-cases (limit == 0)) [
    | inl e ↦ rw e h
    | inr e ↦ rw e (Distinct-filter ident (λ r. not (doomed limit rows r)) rows h)
  ]

-- Distinct ids stay distinct in a sorted prefix.
module _ {ℓ} {A : Type ℓ} (ident : A → ℕ) where
  module _ (before : A → A → Bool) where
    -- The rows that a bounded, ordered SELECT returns have distinct ids.
    pub Distinct-select :
        (n : ℕ) (p : A → Bool) (xs : List A)
        → Distinct ident xs
        → Distinct ident (take n (sort before (filter p xs)))
    Distinct-select n p xs d =
        Distinct-take ident n (sort before (filter p xs))
          (Distinct-sort ident before (filter p xs) (Distinct-filter ident p xs d))
