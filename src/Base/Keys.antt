-- ===== src/Base/Keys.antt =====
-- Lists of items with a numeric key, such as the rows of a table under its primary key.
pub mod Among
pub mod Kept
use starter_template_fastapi.Base.{
  ℕ, ◌≡◌, refl, Bool, true, false, List, [], ◌∷◌, ◌++◌, arith, ◌==◌, any, any-append,
}

-- id = ANY(:ids), for the ids of the items selected
abbrev pub has_id {ℓ} : {A : Type ℓ} → (A → ℕ) → List A → ℕ → Bool
has_id ident selected k = any (λ s. ident s == k) selected

-- The ids of the items are distinct.
abbrev pub Distinct {ℓ} : {A : Type ℓ} → (A → ℕ) → List A → Type 0
Distinct ident [] = Unit
Distinct ident (x ∷ xs) = (has_id ident xs (ident x) ≡ false) × Distinct ident xs

-- A new id at the end keeps the ids distinct.
pub Distinct-append_new {ℓ} :
    {A : Type ℓ} (ident : A → ℕ) (xs : List A) (y : A)
    → has_id ident xs (ident y) ≡ false
    → Distinct ident xs
    → Distinct ident (xs ++ y ∷ [])
Distinct-append_new ident [] y h d = (refl, tt)
Distinct-append_new ident (x ∷ xs) y h d =
    ground (arith, any-append (λ s. ident s == ident x) xs (y ∷ []), Distinct-append_new ident xs y)

pub has_id_same {ℓ} :
    {A : Type ℓ} (ident : A → ℕ) (xs : List A) (i k : ℕ)
    → (i == k) ≡ true
    → has_id ident xs i ≡ has_id ident xs k
has_id_same ident xs i k e = let same : i ≡ k = ground arith in rw same
