-- ===== src/Base/Keyset/Kept.antt =====
-- What a filter keeps of a sorted list, and of a list cut in two.
use starter_template_fastapi.Base.{
  ℕ, zero, suc, ◌<◌, ◌≡◌, refl, sym, ap, ◌∙◌, inl, inr, Bool, true, false, List, [], ◌∷◌, ◌++◌,
  arith, if◌then◌else◌, length, filter, take, All, All-implies, Bool-cases,
}
use starter_template_fastapi.Base.Sort.{insert, sort, IsSorted, IsOrder, sort-IsSorted}

module _ {ℓ} {A : Type ℓ} where
  pub All-filter_kept {κ} :
      (P : A → Type κ) (p : A → Bool) (xs : List A) → All P xs → All P (filter p xs)
  All-filter_kept P p [] h = tt
  All-filter_kept P p (x ∷ xs) h = elim (Bool-cases (p x)) [
    | inl e ↦ rw e (h.0, All-filter_kept P p xs h.1)
    | inr e ↦ rw e (All-filter_kept P p xs h.1)
  ]

  insert_first :
      (before : A → A → Bool) (x : A) (ys : List A)
      → All (λ y. before x y ≡ true) ys
      → insert before x ys ≡ x ∷ ys
  unfolding insert
  insert_first before x [] h = refl
  insert_first before x (y ∷ ys) h = rw (h.0) refl

  filter-insert :
      (before : A → A → Bool) (order : IsOrder before) (p : A → Bool) (x : A) (ys : List A)
      → IsSorted before ys
      → filter p (insert before x ys) ≡ (if p x then insert before x (filter p ys) else filter p ys)
  unfolding insert
  filter-insert before order p x [] s = ground arith
  filter-insert before order p x (y ∷ ys) s = elim (Bool-cases (before x y)) [
    | inl first ↦
        let front : All (λ z. before x z ≡ true) (y ∷ ys) =
          (first, All-implies _ _ ys (λ z e. order.trans x y z first e) s.0) in
        let kept =
          insert_first before x (filter p (y ∷ ys))
            (All-filter_kept (λ z. before x z ≡ true) p (y ∷ ys) front) in
        elim (Bool-cases (p x)) [ inl e ↦ rw (first, e) (sym kept) | inr e ↦ rw (first, e) refl ]
    | inr later ↦ rw later (ground (arith, filter-insert before order p x ys s.1))
  ]

  -- A filter commutes with the sort.
  pub sort-filter :
      (before : A → A → Bool) (order : IsOrder before) (p : A → Bool) (xs : List A)
      → sort before (filter p xs) ≡ filter p (sort before xs)
  unfolding sort
  sort-filter before order p [] = refl
  sort-filter before order p (x ∷ xs) =
      let rest = filter-insert before order p x (sort before xs) (sort-IsSorted order xs) in
      elim (Bool-cases (p x)) [
        | inl e ↦
            rw e (ap (insert before x) (sort-filter before order p xs) ∙ sym (rest ∙ rw e refl))
        | inr e ↦ rw e (sort-filter before order p xs ∙ sym (rest ∙ rw e refl))
      ]

  pub All-prefix {κ} : (P : A → Type κ) (xs ys : List A) → All P (xs ++ ys) → All P xs
  All-prefix P [] ys h = tt
  All-prefix P (x ∷ xs) ys h = (h.0, All-prefix P xs ys h.1)

  pub filter_implied :
      (p q : A → Bool) (xs : List A)
      → ((x : A) → p x ≡ true → q x ≡ true)
      → filter p (filter q xs) ≡ filter p xs
  filter_implied p q [] h = refl
  filter_implied p q (x ∷ xs) h = ground (arith, h x, filter_implied p q xs h)

  pub filter-append_split :
      (p : A → Bool) (xs ys : List A)
      → All (λ x. p x ≡ false) xs
      → All (λ y. p y ≡ true) ys
      → filter p (xs ++ ys) ≡ ys
  filter-append_split p [] [] h k = refl
  filter-append_split p [] (y ∷ ys) h k = rw (k.0) (ap (◌∷◌ y) (filter-append_split p [] ys h k.1))
  filter-append_split p (x ∷ xs) ys h k = rw (h.0) (filter-append_split p xs ys h.1 k)

  pub take_nothing : (n : ℕ) (xs : List A) → 0 < n → take n xs ≡ [] → xs ≡ []
  take_nothing zero xs h e = ground arith
  take_nothing (suc n) [] h e = refl
  take_nothing (suc n) (x ∷ xs) h e = cc

  pub take_all : (n : ℕ) (xs : List A) → length xs < n → take n xs ≡ xs
  take_all zero xs h = ground arith
  take_all (suc n) [] h = refl
  take_all (suc n) (x ∷ xs) h = ap (◌∷◌ x) (take_all n xs (omega (arith, h)))

  pub filter_all : (xs : List A) → filter (λ x. true) xs ≡ xs
  filter_all [] = refl
  filter_all (x ∷ xs) = ap (◌∷◌ x) (filter_all xs)
