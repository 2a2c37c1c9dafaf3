-- ===== src/Base/Keys/Kept.antt =====
-- Distinct ids stay distinct in a prefix, a part and a sorted list.
use starter_template_fastapi.Base.{
  ℕ, zero, suc, ◌≡◌, refl, ◌∙◌, Bool, false, List, [], ◌∷◌, arith, ◌==◌, filter, take, any-take,
}
use starter_template_fastapi.Base.Keys.{has_id, Distinct}
use starter_template_fastapi.Base.Filters.{any-filter}
use starter_template_fastapi.Base.Sort.{insert, any-insert, sort, any-sort}

module _ {ℓ} {A : Type ℓ} (ident : A → ℕ) where
  pub has_id-filter :
      (e : A → Bool) (k : ℕ) (xs : List A)
      → has_id ident xs k ≡ false
      → has_id ident (filter e xs) k ≡ false
  has_id-filter e k xs h = any-filter (λ s. ident s == k) e xs h

  pub Distinct-filter :
      (e : A → Bool) (xs : List A) → Distinct ident xs → Distinct ident (filter e xs)
  Distinct-filter e [] h = tt
  Distinct-filter e (x ∷ xs) h =
      ground (arith, has_id-filter e (ident x) xs, Distinct-filter e xs h.1)

  pub Distinct-take : (n : ℕ) (xs : List A) → Distinct ident xs → Distinct ident (take n xs)
  Distinct-take zero xs h = tt
  Distinct-take (suc n) [] h = tt
  Distinct-take (suc n) (x ∷ xs) h =
      (any-take (λ s. ident s == ident x) n xs h.0, Distinct-take n xs h.1)

  module _ (before : A → A → Bool) where
    Distinct-insert :
        (x : A) (xs : List A)
        → has_id ident xs (ident x) ≡ false
        → Distinct ident xs
        → Distinct ident (insert before x xs)
    unfolding insert
    Distinct-insert x [] h d = (refl, tt)
    Distinct-insert x (y ∷ ys) h d =
        ground (arith, Distinct-insert x ys, any-insert before (λ s. ident s == ident y) x ys)

    pub Distinct-sort : (xs : List A) → Distinct ident xs → Distinct ident (sort before xs)
    unfolding sort
    Distinct-sort [] d = tt
    Distinct-sort (x ∷ xs) d =
        Distinct-insert x (sort before xs) (any-sort before (λ s. ident s == ident x) xs ∙ d.0)
          (Distinct-sort xs d.1)
