-- ===== src/Authorization/Registry/Leaf.antt =====
-- The rounds of `nearest_leaf_type`, and the chain of `inherits_from` that it follows.
use starter_template_fastapi.Base.{
  ℕ, zero, suc, ◌+◌, ◌≤◌, ◌<◌, ◌≡◌, ◌≢◌, refl, sym, ap, ◌↔◌, ◌⊎◌, inl, inr, String, true, false,
  not, some, List, [], ◌∷◌, arith, str_eq, str_eq_iff, length, count, count-le-length, All,
  All-implies, Bool-cases, Option-cases,
}
use mathlib.Core.Path.{subst}
use starter_template_fastapi.Base.Dict.{Dict, lookup, has, member, str_eq_self}
use starter_template_fastapi.Authorization.Types.{out_of_fuel, unknown_action_error, ok, err}
use starter_template_fastapi.Authorization.Registry.{
  ParentEntry, Registry, find_leaf, nearest_leaf_type,
}

-- The chain from a type to a leaf: `Chain reg n t l` follows `inherits_from` n times.
pub data Chain (reg : Registry) (leaf : String) : ℕ → String → Type 0 where
  at_leaf : has leaf reg.leaves ≡ true → Chain reg leaf zero leaf
  inherit :
      {n : ℕ} {t : String} {entry : ParentEntry}
      → has t reg.leaves ≡ false
      → lookup t reg.parents ≡ some entry
      → Chain reg leaf n entry.inherits_from
      → Chain reg leaf (suc n) t

-- The inherited types that the walk has not seen yet.
unseen : List String → Dict ParentEntry → ℕ
unseen seen parents = count (λ e. not (member e.0 seen)) parents

unseen-le :
    (current : String) (seen : List String) (parents : Dict ParentEntry)
    → unseen (current ∷ seen) parents ≤ unseen seen parents
unfolding unseen
unseen-le current seen [] = omega arith
unseen-le current seen ((k, v) ∷ parents) = ground (arith, unseen-le current seen parents)

-- Seeing one more inherited type leaves fewer.
unseen-lt :
    (current : String) (seen : List String) (parents : Dict ParentEntry) {entry : ParentEntry}
    → lookup current parents ≡ some entry
    → member current seen ≡ false
    → unseen (current ∷ seen) parents < unseen seen parents
unfolding unseen lookup
unseen-lt current seen [] e h = cc
unseen-lt current seen ((k, v) ∷ parents) {entry} e h = elim (Bool-cases (str_eq k current)) [
  | inl hit ↦
      let same : k ≡ current = (str_eq_iff k current).0 hit in
      rw (same, h, str_eq_self current) (ground (arith, unseen-le current seen parents))
  | inr miss ↦ ground (
    arith,
    unseen-lt current seen parents {entry = entry} (rw miss at e) h,
    str_eq_iff k current,
    str_eq_iff current k,
  )
]

module _ (reg : Registry) where
  find_leaf-ends :
      (fuel : ℕ) (seen : List String) (current : String)
      → unseen seen reg.parents < fuel
      → find_leaf fuel reg seen current ≢ err out_of_fuel
  unfolding find_leaf
  find_leaf-ends zero seen current h = absurd (omega arith)
  find_leaf-ends (suc fuel) seen current h = elim (Bool-cases (has current reg.leaves)) [
    | inl leaf ↦ rw leaf (λ p. cc)
    | inr inner ↦ elim (Bool-cases (member current seen)) [
      | inl again ↦ rw (inner, again) (λ p. cc)
      | inr new ↦ elim (Option-cases (lookup current reg.parents)) [
        | inl unknown ↦ rw (inner, new, unknown) (λ p. cc)
        | inr (entry, found) ↦
            rw (inner, new, found)
              (find_leaf-ends fuel (current ∷ seen) entry.inherits_from
                (omega (arith, unseen-lt current seen reg.parents found new)))
      ]
    ]
  ]

  -- What the walk returns is a leaf at the end of the chain.
  find_leaf_sound :
      (fuel : ℕ) (seen : List String) (current : String) {leaf : String}
      → find_leaf fuel reg seen current ≡ ok leaf
      → (n : ℕ) × Chain reg leaf n current
  unfolding find_leaf
  find_leaf_sound zero seen current e = cc
  find_leaf_sound (suc fuel) seen current {leaf} e = elim (Bool-cases (has current reg.leaves)) [
    | inl here ↦
        let same : current ≡ leaf = ground arith in
        (0, subst (λ t. Chain reg leaf 0 t) (sym same) (at_leaf (rw same at here)))
    | inr inner ↦ elim (Bool-cases (member current seen)) [
      | inl again ↦ absurd (ground arith)
      | inr new ↦ elim (Option-cases (lookup current reg.parents)) [
        | inl unknown ↦ absurd (ground arith)
        | inr (entry, found) ↦
            let (n, c) =
              find_leaf_sound fuel (current ∷ seen) entry.inherits_from {leaf = leaf}
                (ground arith) in
            (suc n, inherit inner found c)
      ]
    ]
  ]

  Chain-length :
      {leaf leaf' t : String} {n m : ℕ} → Chain reg leaf n t → Chain reg leaf' m t → n ≡ m
  Chain-length (at_leaf h) (at_leaf k) = refl
  Chain-length (at_leaf h) (inherit k e c) = cc
  Chain-length (inherit k e c) (at_leaf h) = cc
  Chain-length {leaf' = l} (inherit {entry = x} k e c) (inherit {n = m} {entry = y} k' e' c') =
      let same : y ≡ x = cc in
      ap suc (Chain-length c (subst (λ (z : ParentEntry). Chain reg l m z.inherits_from) same c'))

  not_seen :
      (leaf current : String) (n : ℕ) (seen : List String)
      → Chain reg leaf n current
      → All (λ s. (m : ℕ) × Chain reg leaf m s × (n < m)) seen
      → member current seen ≡ false
  not_seen leaf current n [] c h = refl
  not_seen leaf current n (s ∷ seen) c h = elim (Bool-cases (str_eq s current)) [
    | inl hit ↦
        let same : s ≡ current = (str_eq_iff s current).0 hit in
        let (m, longer, lt) = h.0 in
        absurd (omega (arith, Chain-length c (subst (λ t. Chain reg leaf m t) same longer)))
    | inr miss ↦ rw miss (not_seen leaf current n seen c h.1)
  ]

  -- A walk along a chain does not fail before its fuel does.
  find_leaf_complete :
      (fuel n : ℕ) (seen : List String) (current leaf : String)
      → Chain reg leaf n current
      → All (λ s. (m : ℕ) × Chain reg leaf m s × (n < m)) seen
      → (find_leaf fuel reg seen current ≡ ok leaf)
        ⊎ (find_leaf fuel reg seen current ≡ err out_of_fuel)
  unfolding find_leaf
  find_leaf_complete zero n seen current leaf c h = inr refl
  find_leaf_complete (suc fuel) zero seen current leaf (at_leaf here) h = inl (rw here)
  find_leaf_complete (suc fuel) (suc n) seen current leaf (inherit {entry = x} inner found c) h =
      rw (inner, not_seen leaf current (suc n) seen (inherit inner found c) h, found)
        (find_leaf_complete fuel n (current ∷ seen) x.inherits_from leaf c (
          (suc n, inherit inner found c, omega arith),
          All-implies _ _ seen (λ s k. (k.0, k.1, omega arith)) h,
        ))

  unseen-le-length : (parents : Dict ParentEntry) → unseen [] parents ≤ length parents
  unfolding unseen
  unseen-le-length parents = count-le-length (λ e. not (member e.0 [])) parents

  -- The resolution of a type always ends.
  pub nearest_leaf_type-ends : (t : String) → nearest_leaf_type t reg ≢ err out_of_fuel
  unfolding nearest_leaf_type
  nearest_leaf_type-ends t =
      find_leaf-ends (length reg.parents + 2) [] t (omega (arith, unseen-le-length reg.parents))

  -- A walk raises UnknownActionError or runs out of fuel, if it does not answer.
  find_leaf-cases :
      (fuel : ℕ) (seen : List String) (current : String)
      → ((leaf : String) × (find_leaf fuel reg seen current ≡ ok leaf))
        ⊎ ((find_leaf fuel reg seen current ≡ err unknown_action_error)
            ⊎ (find_leaf fuel reg seen current ≡ err out_of_fuel))
  unfolding find_leaf
  find_leaf-cases zero seen current = inr (inr refl)
  find_leaf-cases (suc fuel) seen current = elim (Bool-cases (has current reg.leaves)) [
    | inl leaf ↦ inl (current, rw leaf refl)
    | inr inner ↦ elim (Bool-cases (member current seen)) [
      | inl again ↦ inr (inl (rw (inner, again) refl))
      | inr new ↦ elim (Option-cases (lookup current reg.parents)) [
        | inl unknown ↦ inr (inl (rw (inner, new, unknown) refl))
        | inr (entry, found) ↦
            rw (inner, new, found) (find_leaf-cases fuel (current ∷ seen) entry.inherits_from)
      ]
    ]
  ]

  nearest_leaf_type-cases :
      (t : String)
      → ((leaf : String) × (nearest_leaf_type t reg ≡ ok leaf))
        ⊎ (nearest_leaf_type t reg ≡ err unknown_action_error)
  unfolding nearest_leaf_type
  nearest_leaf_type-cases t = elim (find_leaf-cases (length reg.parents + 2) [] t) [
    | inl found ↦ inl found
    | inr (inl raised) ↦ inr raised
    | inr (inr stopped) ↦ absurd (nearest_leaf_type-ends t stopped)
  ]

  -- The resolution of a type ends within its rounds, with a leaf or with UnknownActionError, and it
  -- answers a leaf exactly when the chain of `inherits_from` leads from the type to that leaf.
  pub nearest_leaf_type_iff :
      (t leaf : String)
      → (((l : String) × (nearest_leaf_type t reg ≡ ok l))
          ⊎ (nearest_leaf_type t reg ≡ err unknown_action_error))
        × ((nearest_leaf_type t reg ≡ ok leaf) ↔ ((n : ℕ) × Chain reg leaf n t))
  unfolding nearest_leaf_type
  nearest_leaf_type_iff t leaf = (
    nearest_leaf_type-cases t,
    (
      λ e. find_leaf_sound (length reg.parents + 2) [] t e,
      λ (n, c). elim (find_leaf_complete (length reg.parents + 2) n [] t leaf c tt) [
        | inl done ↦ done
        | inr stopped ↦ absurd (nearest_leaf_type-ends t stopped)
      ],
    ),
  )
