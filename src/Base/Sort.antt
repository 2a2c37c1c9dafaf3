-- ===== src/Base/Sort.antt =====
-- `ORDER BY`: a sort by a Boolean order.
use mathlib.Core.List.{Perm}
use mathlib.Core.List.Perm
use mathlib.Core.Path.{subst}
use starter_template_fastapi.Base.{
  ℕ, zero, suc, ◌≡◌, refl, ◌∙◌, ◌⊎◌, Bool, true, false, ◌||◌, List, [], ◌∷◌, map, arith,
  if◌then◌else◌, length, count, any, take, drop, All, Bool-cases, inl, inr, All-true, All-zip,
  All-drop, All-take, All-append, All-implies, All-any_self, All-map, take-append-drop,
}

module _ {ℓ} {A : Type ℓ} (before : A → A → Bool) where
  unfoldable pub insert : A → List A → List A
  insert x [] = x ∷ []
  insert x (y ∷ ys) = if before x y then x ∷ y ∷ ys else y ∷ insert x ys

  unfoldable pub sort : List A → List A
  unfolding insert
  sort [] = []
  sort (x ∷ xs) = insert x (sort xs)

  -- Each item comes before all that follow it.
  abbrev pub IsSorted : List A → Type 0
  IsSorted [] = Unit
  IsSorted (x ∷ xs) = All (λ y. before x y ≡ true) xs × IsSorted xs

  insert-perm : (x : A) (xs : List A) → Perm (insert x xs) (x ∷ xs)
  unfolding insert
  insert-perm x [] = Perm.rfl
  insert-perm x (y ∷ ys) = elim (Bool-cases (before x y)) [
    | inl e ↦ rw e Perm.rfl
    | inr e ↦ rw e (Perm.trans (Perm.cons y (insert-perm x ys)) (Perm.swap x y ys))
  ]

  pub sort-perm : (xs : List A) → Perm (sort xs) xs
  unfolding sort
  sort-perm [] = Perm.rfl
  sort-perm (x ∷ xs) = Perm.trans (insert-perm x (sort xs)) (Perm.cons x (sort-perm xs))

  length-insert : (x : A) (xs : List A) → length (insert x xs) ≡ suc (length xs)
  unfolding insert
  length-insert x [] = refl
  length-insert x (y ∷ ys) = ground (arith, length-insert x ys)

  pub length-sort : (xs : List A) → length (sort xs) ≡ length xs
  unfolding sort
  length-sort [] = refl
  length-sort (x ∷ xs) = ground (arith, length-insert x (sort xs), length-sort xs)

  pub any-insert : (p : A → Bool) (x : A) (xs : List A) → any p (insert x xs) ≡ (p x || any p xs)
  unfolding insert
  any-insert p x [] = refl
  any-insert p x (y ∷ ys) = ground (arith, any-insert p x ys)

  pub any-sort : (p : A → Bool) (xs : List A) → any p (sort xs) ≡ any p xs
  unfolding sort
  any-sort p [] = refl
  any-sort p (x ∷ xs) = ground (arith, any-insert p x (sort xs), any-sort p xs)

  count-insert : (p : A → Bool) (x : A) (xs : List A) → count p (insert x xs) ≡ count p (x ∷ xs)
  unfolding insert
  count-insert p x [] = refl
  count-insert p x (y ∷ ys) = ground (arith, count-insert p x ys)

  pub count-sort : (p : A → Bool) (xs : List A) → count p (sort xs) ≡ count p xs
  unfolding sort
  count-sort p [] = refl
  count-sort p (x ∷ xs) = ground (arith, count-insert p x (sort xs), count-sort p xs)

  module _ {κ} (P : A → Type κ) where
    All-insert : (x : A) (xs : List A) → P x → All P xs → All P (insert x xs)
    unfolding insert
    All-insert x [] h k = (h, tt)
    All-insert x (y ∷ ys) h k = elim (Bool-cases (before x y)) [
      | inl e ↦ rw e (h, k)
      | inr e ↦ rw e (k.0, All-insert x ys h k.1)
    ]

    pub All-sort : (xs : List A) → All P xs → All P (sort xs)
    unfolding sort
    All-sort [] h = tt
    All-sort (x ∷ xs) h = All-insert x (sort xs) h.0 (All-sort xs h.1)

  -- `before` is a total preorder.
  pub record IsOrder : Type ℓ where
    pub total : (x y : A) → before x y ≡ false → before y x ≡ true
    pub trans : (x y z : A) → before x y ≡ true → before y z ≡ true → before x z ≡ true

module _ {ℓ} {A : Type ℓ} {before : A → A → Bool} (order : IsOrder before) where
  All-trans :
      (x y : A) (xs : List A)
      → before x y ≡ true
      → All (λ z. before y z ≡ true) xs
      → All (λ z. before x z ≡ true) xs
  All-trans x y [] h k = tt
  All-trans x y (z ∷ zs) h k = (order.trans x y z h k.0, All-trans x y zs h k.1)

  insert-IsSorted :
      (x : A) (xs : List A) → IsSorted before xs → IsSorted before (insert before x xs)
  unfolding insert
  insert-IsSorted x [] h = (tt, tt)
  insert-IsSorted x (y ∷ ys) h = elim (Bool-cases (before x y)) [
    | inl e ↦ rw e ((e, All-trans x y ys e h.0), h)
    | inr e ↦ rw e (
      All-insert before (λ z. before y z ≡ true) x ys (order.total x y e) h.0,
      insert-IsSorted x ys h.1,
    )
  ]

  pub sort-IsSorted : (xs : List A) → IsSorted before (sort before xs)
  unfolding sort
  sort-IsSorted [] = tt
  sort-IsSorted (x ∷ xs) = insert-IsSorted x (sort before xs) (sort-IsSorted xs)

module _ {ℓ} {A : Type ℓ} (before : A → A → Bool) where
  -- In a sorted list, the items after a prefix come after each item of it.
  take-before-drop :
      (n : ℕ) (xs : List A)
      → IsSorted before xs
      → All (λ y. All (λ x. before x y ≡ true) (take n xs)) (drop n xs)
  take-before-drop zero xs h = All-true (λ y. Unit {0}) (λ y. tt) xs
  take-before-drop (suc n) [] h = tt
  take-before-drop (suc n) (x ∷ xs) h =
      All-zip (λ y. before x y ≡ true) (λ y. All (λ z. before z y ≡ true) (take n xs)) (drop n xs)
        (All-drop (λ y. before x y ≡ true) n xs h.0) (take-before-drop n xs h.1)

  pub IsSorted-take : (n : ℕ) (xs : List A) → IsSorted before xs → IsSorted before (take n xs)
  IsSorted-take zero xs h = tt
  IsSorted-take (suc n) [] h = tt
  IsSorted-take (suc n) (x ∷ xs) h =
      (All-take (λ y. before x y ≡ true) n xs h.0, IsSorted-take n xs h.1)

  -- Each item is in the prefix, by a test `same`, or comes after all of it.
  pub prefix_or_after :
      (same : A → A → Bool) (n : ℕ) (xs : List A)
      → ((x : A) → same x x ≡ true)
      → IsSorted before xs
      → All (λ y. (any (same y) (take n xs) ≡ true) ⊎ All (λ x. before x y ≡ true) (take n xs)) xs
  prefix_or_after same n xs refl_same h =
      let P : A → Type 0 =
        λ y. (any (same y) (take n xs) ≡ true) ⊎ All (λ x. before x y ≡ true) (take n xs) in
      subst (All P) (take-append-drop n xs) (
        All-append P (take n xs) (drop n xs)
          (All-implies (λ y. any (same y) (take n xs) ≡ true) P (take n xs) (λ y e. inl e)
            (All-any_self same (take n xs) refl_same))
          (All-implies (λ y. All (λ x. before x y ≡ true) (take n xs)) P (drop n xs) (λ y e. inr e)
            (take-before-drop n xs h)))

module _ {ℓ κ} {A : Type ℓ} (before : A → A → Bool) (P : A → Type κ) where
  All-of_insert : (x : A) (xs : List A) → All P (insert before x xs) → P x × All P xs
  unfolding insert
  All-of_insert x [] h = h
  All-of_insert x (y ∷ ys) h = elim (Bool-cases (before x y)) [
    | inl e ↦ rw e at h
    | inr e ↦
        let k : P y × All P (insert before x ys) = rw e at h in
        let r : P x × All P ys = All-of_insert x ys k.1 in (r.0, (k.0, r.1))
  ]

  pub All-of_sort : (xs : List A) → All P (sort before xs) → All P xs
  unfolding sort
  All-of_sort [] h = tt
  All-of_sort (x ∷ xs) h =
      let r : P x × All P (sort before xs) = All-of_insert x (sort before xs) h in
      (r.0, All-of_sort xs r.1)

-- A map that keeps the order passes through the sort.
module _ {ℓ κ} {A : Type ℓ} {B : Type κ} (before : A → A → Bool) (before' : B → B → Bool)
    (f : A → B) (same : (x y : A) → before' (f x) (f y) ≡ before x y) where
  insert-map : (x : A) (xs : List A) → insert before' (f x) (map f xs) ≡ map f (insert before x xs)
  unfolding insert
  insert-map x [] = refl
  insert-map x (y ∷ ys) = rw (same x y) (ground (arith, insert-map x ys))

  pub sort-map : (xs : List A) → sort before' (map f xs) ≡ map f (sort before xs)
  unfolding sort
  sort-map [] = refl
  sort-map (x ∷ xs) = rw (sort-map xs) (insert-map x (sort before xs))

  pub IsSorted-map : (xs : List A) → IsSorted before xs → IsSorted before' (map f xs)
  IsSorted-map [] h = tt
  IsSorted-map (x ∷ xs) h = (
    All-map f (λ y. before' (f x) y ≡ true) xs
        (All-implies _ (λ y. before' (f x) (f y) ≡ true) xs (λ y e. same x y ∙ e) h.0),
    IsSorted-map xs h.1,
  )
