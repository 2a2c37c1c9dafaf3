-- ===== src/Base/Filters.antt =====
-- Filters, and the number of items that they keep.
use starter_template_fastapi.Base.{
  ◌+◌, ◌≤◌, ◌<◌, ◌≡◌, refl, ◌⊎◌, Bool, true, false, not, ◌||◌, List, [], ◌∷◌, arith, length, filter,
  count, any, All,
}

module _ {ℓ} {A : Type ℓ} where
  pub count-add-filter-not :
      (p : A → Bool) (xs : List A) → count p xs + length (filter (λ x. not (p x)) xs) ≡ length xs
  count-add-filter-not p [] = omega arith
  count-add-filter-not p (x ∷ xs) = ground (arith, count-add-filter-not p xs)

  pub filter-not_of_none :
      (p : A → Bool) (xs : List A) → count p xs ≡ 0 → filter (λ x. not (p x)) xs ≡ xs
  filter-not_of_none p [] h = refl
  filter-not_of_none p (x ∷ xs) h = ground (arith, filter-not_of_none p xs)

  pub any_of_count : (p : A → Bool) (xs : List A) → 0 < count p xs → any p xs ≡ true
  any_of_count p [] h = absurd (omega arith)
  any_of_count p (x ∷ xs) h = ground (arith, any_of_count p xs)

  pub count_of_any : (p : A → Bool) (xs : List A) → any p xs ≡ true → 0 < count p xs
  count_of_any p [] h = cc
  count_of_any p (x ∷ xs) h = ground (arith, count_of_any p xs)

  -- Two filters in turn, where the first drops nothing that the second keeps.
  pub filter-filter-not :
      (e d : A → Bool) (xs : List A)
      → All (λ x. (e x ≡ true) ⊎ (d x ≡ false)) xs
      → filter (λ x. not (e x)) (filter (λ x. not (d x)) xs) ≡ filter (λ x. not (e x)) xs
  filter-filter-not e d [] h = refl
  filter-filter-not e d (x ∷ xs) h = ground (arith, filter-filter-not e d xs h.1)

  pub All-of_any-false : (p : A → Bool) (xs : List A) → any p xs ≡ false → All (λ x. p x ≡ false) xs
  All-of_any-false p [] h = tt
  All-of_any-false p (x ∷ xs) h = (ground arith, All-of_any-false p xs (ground arith))

  pub any-filter : (p e : A → Bool) (xs : List A) → any p xs ≡ false → any p (filter e xs) ≡ false
  any-filter p e [] h = refl
  any-filter p e (x ∷ xs) h = ground (arith, any-filter p e xs)

  pub any_of_All :
      (p : A → Bool) (xs : List A) → All (λ x. p x ≡ true) xs → 0 < length xs → any p xs ≡ true
  any_of_All p [] h l = absurd (omega arith)
  any_of_All p (x ∷ xs) h l = ground arith

  pub count-or-le :
      (p q : A → Bool) (xs : List A) → count (λ x. p x || q x) xs ≤ count p xs + count q xs
  count-or-le p q [] = omega arith
  count-or-le p q (x ∷ xs) = ground (arith, count-or-le p q xs)

  pub count-eq-zero : (p : A → Bool) (xs : List A) → All (λ x. p x ≡ false) xs → count p xs ≡ 0
  count-eq-zero p [] h = refl
  count-eq-zero p (x ∷ xs) h = ground (arith, count-eq-zero p xs h.1)

  pub All-any-true :
      (p q : A → Bool) (xs : List A)
      → All (λ x. (q x ≡ true) ⊎ (p x ≡ false)) xs
      → any p xs ≡ true
      → any q xs ≡ true
  All-any-true p q [] h k = cc
  All-any-true p q (x ∷ xs) h k = ground (arith, All-any-true p q xs h.1)
