-- ===== src/Base/Keys/Among.antt =====
-- The item that stands in a list under its key.
use starter_template_fastapi.Base.{
  ℕ, ◌≡◌, refl, sym, ap, ◌∙◌, ◌⊎◌, inl, inr, true, false, List, [], ◌∷◌, arith, ◌==◌, filter, All,
  All-implies, Bool-cases,
}
use starter_template_fastapi.Base.Keys.{has_id, Distinct}

-- The item stands in the list.
abbrev pub Among : {A : Type 0} → A → List A → Type 0
Among a [] = ⊥
Among a (x ∷ xs) = (a ≡ x) ⊎ Among a xs

pub All-Among : {A : Type 0} (xs : List A) → All (λ x. Among x xs) xs
All-Among [] = tt
All-Among (x ∷ xs) = (inl refl, All-implies (λ y. Among y xs) _ xs (λ y h. inr h) (All-Among xs))

module _ {A : Type 0} (ident : A → ℕ) where
  -- The items under a key, such as the rows that `WHERE id = :id` selects.
  abbrev pub at_key : ℕ → List A → List A
  at_key k xs = filter (λ x. ident x == k) xs

  at_key_none : (k : ℕ) (xs : List A) → has_id ident xs k ≡ false → at_key k xs ≡ []
  at_key_none k [] h = refl
  at_key_none k (x ∷ xs) h = ground (arith, at_key_none k xs)

  pub has_id-Among : (a : A) (xs : List A) → Among a xs → has_id ident xs (ident a) ≡ true
  has_id-Among a [] h = elim h [ ]
  has_id-Among a (x ∷ xs) (inl e) = let same = ap ident e in ground (arith, same)
  has_id-Among a (x ∷ xs) (inr h) = ground (arith, has_id-Among a xs h)

  -- Where keys are distinct, an item is the only one under its key.
  pub at_key-Among :
      (a : A) (xs : List A) → Distinct ident xs → Among a xs → at_key (ident a) xs ≡ a ∷ []
  at_key-Among a [] d h = elim h [ ]
  at_key-Among a (x ∷ xs) d (inl e) =
      let same : (ident x == ident a) ≡ true = (let key = ap ident e in ground (arith, key)) in
      let alone : at_key (ident a) xs ≡ [] =
        at_key_none (ident a) xs (ap (λ y. has_id ident xs (ident y)) e ∙ d.0) in
      rw same (ap (λ l. x ∷ l) alone ∙ ap (λ y. y ∷ []) (sym e))
  at_key-Among a (x ∷ xs) d (inr h) = elim (Bool-cases (ident x == ident a)) [
    | inl hit ↦
        let key : ident x ≡ ident a = ground arith in absurd (cc (has_id-Among a xs h, d.0, key))
    | inr miss ↦ rw miss (at_key-Among a xs d.1 h)
  ]
