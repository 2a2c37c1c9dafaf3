-- ===== src/Authorization/Engine/Lookup/Found.antt =====
-- The resources that `lookup_resources` finds, beside what `check` answers on each.
use starter_template_fastapi.Base.{
  ℕ, zero, suc, ◌≤◌, ◌≡◌, refl, sym, ap, ◌∙◌, inl, inr, String, Bool, true, false, not, ◌&&◌, List,
  [], ◌∷◌, arith, str_eq, str_eq_iff, length, filter, count, any, take, Bool-cases, any-map,
  any-take, length-map, length-take, length-filter,
}
use mathlib.Core.Path.{subst}
use starter_template_fastapi.Base.Dict.{has, member}
use starter_template_fastapi.Base.Sort.{sort, any-sort, length-sort}
use starter_template_fastapi.Authorization.Types.{Relationship, ok, returned}
use starter_template_fastapi.Authorization.Registry.{
  Registry, relations_for, nearest_leaf_type, expand_relations, resolve_leaf, has_stored_relations,
}
use starter_template_fastapi.Authorization.Registry.Leaf.{
  Chain, at_leaf, inherit, nearest_leaf_type_iff,
}
use starter_template_fastapi.Authorization.Engine.{Store, grants, walk, check, check_at}
use starter_template_fastapi.Authorization.Engine.Lookup.{
  capped_limit, user_holds, distinct_ids, select_resources, lookup_resources,
}

member-distinct_ids :
    (id : String) (seen rows : List String)
    → member id (distinct_ids seen rows) ≡ (not (member id seen) && member id rows)
unfolding distinct_ids
member-distinct_ids id seen [] = ground arith
member-distinct_ids id seen (r ∷ rows) = elim (Bool-cases (member r seen)) [
  | inl old ↦ elim (Bool-cases (str_eq r id)) [
    | inl hit ↦
        let same : r ≡ id = (str_eq_iff r id).0 hit in
        let was : member id seen ≡ true = subst (λ (x : String). member x seen ≡ true) same old in
        rw old (ground (arith, was, hit, member-distinct_ids id seen rows))
    | inr miss ↦ rw (old, miss) (member-distinct_ids id seen rows)
  ]
  | inr new ↦ elim (Bool-cases (str_eq r id)) [
    | inl hit ↦
        let same : r ≡ id = (str_eq_iff r id).0 hit in
        let was : member id seen ≡ false = subst (λ (x : String). member x seen ≡ false) same new in
        rw (new, hit, was) refl
    | inr miss ↦ rw (new, miss) (ground (arith, miss, member-distinct_ids id (r ∷ seen) rows))
  ]
]

length-distinct_ids : (seen rows : List String) → length (distinct_ids seen rows) ≤ length rows
unfolding distinct_ids
length-distinct_ids seen [] = omega arith
length-distinct_ids seen (r ∷ rows) =
    ground (arith, length-distinct_ids seen rows, length-distinct_ids (r ∷ seen) rows)

take_all {ℓ} : {A : Type ℓ} (n : ℕ) (xs : List A) → length xs ≤ n → take n xs ≡ xs
take_all zero [] h = refl
take_all zero (x ∷ xs) h = absurd (omega arith)
take_all (suc n) [] h = refl
take_all (suc n) (x ∷ xs) h = rw (take_all n xs (omega arith))

any-filter {ℓ} :
    {A : Type ℓ} (p q : A → Bool) (xs : List A) → any p (filter q xs) ≡ any (λ x. q x && p x) xs
any-filter p q [] = refl
any-filter p q (x ∷ xs) = ground (arith, any-filter p q xs)

-- The tuples of a user.
abbrev pub of_user : String → Relationship → Bool
of_user user t = str_eq t.subject_type "user" && str_eq t.subject_id user

module _ (stored_type : String) (expanded : List String) (user : String) where
  any-user_holds :
      (id : String) (rows : List Relationship)
      → any (λ t. user_holds stored_type expanded user t && str_eq t.resource_id id) rows
        ≡ any (grants stored_type id expanded user) rows
  unfolding user_holds grants
  any-user_holds id [] = refl
  any-user_holds id (t ∷ rows) = ground (arith, any-user_holds id rows)

  count-user_holds :
      (rows : List Relationship)
      → count (user_holds stored_type expanded user) rows ≤ count (of_user user) rows
  unfolding user_holds
  count-user_holds [] = omega arith
  count-user_holds (t ∷ rows) = ground (arith, count-user_holds rows)

module _ (before : String → String → Bool) (limit : ℕ) (stored_type : String)
    (expanded : List String) (user : String) where
  selected-le :
      (rows : List Relationship)
      → length (select_resources before limit stored_type expanded user rows) ≤ limit
  unfolding select_resources
  selected-le rows =
      let held = filter (user_holds stored_type expanded user) rows in
      let sorted =
        sort (λ (a : Relationship) (b : Relationship). before a.resource_id b.resource_id) held in
      rw
        (
          length-map (λ (t : Relationship). t.resource_id) (take limit sorted),
          length-take limit sorted,
        )
        (omega arith)

  -- What is selected is granted.
  selected_granted :
      (id : String) (rows : List Relationship)
      → member id (select_resources before limit stored_type expanded user rows) ≡ true
      → any (grants stored_type id expanded user) rows ≡ true
  unfolding select_resources
  selected_granted id rows h = elim (Bool-cases (any (grants stored_type id expanded user) rows)) [
    | inl granted ↦ granted
    | inr denied ↦
        let held = filter (user_holds stored_type expanded user) rows in
        let order = λ (a : Relationship) (b : Relationship). before a.resource_id b.resource_id in
        let test = λ (t : Relationship). str_eq t.resource_id id in
        let nowhere : any test held ≡ false =
          any-filter test (user_holds stored_type expanded user) rows
          ∙ any-user_holds stored_type expanded user id rows
          ∙ denied in
        let never : member id (select_resources before limit stored_type expanded user rows)
            ≡ false =
          any-map (λ (t : Relationship). t.resource_id) (λ r. str_eq r id)
            (take limit (sort order held))
          ∙ any-take test limit (sort order held) (any-sort order test held ∙ nowhere) in
        absurd (cc (h, never))
  ]

  -- Under the limit, everything granted is selected.
  all_selected :
      (id : String) (rows : List Relationship)
      → count (of_user user) rows ≤ limit
      → member id (select_resources before limit stored_type expanded user rows)
        ≡ any (grants stored_type id expanded user) rows
  unfolding select_resources
  all_selected id rows few =
      let held = filter (user_holds stored_type expanded user) rows in
      let order = λ (a : Relationship) (b : Relationship). before a.resource_id b.resource_id in
      let test = λ (t : Relationship). str_eq t.resource_id id in
      let fits : length (sort order held) ≤ limit = omega (
        arith,
        length-sort order held,
        length-filter (user_holds stored_type expanded user) rows,
        count-user_holds stored_type expanded user rows,
      ) in
      any-map (λ (t : Relationship). t.resource_id) (λ r. str_eq r id)
        (take limit (sort order held))
      ∙ rw (take_all limit (sort order held) fits) (any-sort order test held)
      ∙ any-filter test (user_holds stored_type expanded user) rows
      ∙ any-user_holds stored_type expanded user id rows

module _ (reg : Registry) where
  Chain-leaf : {leaf t : String} {n : ℕ} → Chain reg leaf n t → has leaf reg.leaves ≡ true
  Chain-leaf (at_leaf here) = here
  Chain-leaf (inherit _ _ c) = Chain-leaf c

  -- A leaf resolves to itself, so its actions are those of the types that resolve to it.
  relations_for-leaf :
      (t leaf action : String)
      → nearest_leaf_type t reg ≡ ok leaf
      → (nearest_leaf_type leaf reg ≡ ok leaf)
        × (relations_for leaf action reg ≡ relations_for t action reg)
        × (has leaf reg.leaves ≡ true)
  unfolding relations_for resolve_leaf
  relations_for-leaf t leaf action e =
      let (n, c) = (nearest_leaf_type_iff reg t leaf).1.0 e in
      let here = Chain-leaf c in
      let self = (nearest_leaf_type_iff reg leaf leaf).1.1 (0, at_leaf here) in
      (self, rw (self, e) refl, here)

  -- The steps of a lookup that succeeds.
  lookup-steps :
      (before : String → String → Bool) (user action resource_type : String) (limit : ℕ)
      (store : Store) {leaf : String} {ids : List String}
      → nearest_leaf_type resource_type reg ≡ ok leaf
      → lookup_resources before reg user action resource_type limit store ≡ ok ids
      → (expanded : List String) × (ids
          ≡ distinct_ids []
              (select_resources before (capped_limit limit) leaf expanded user store.relationships))
        × ((id : String)
            → check 1 reg user action leaf id store
              ≡ ok (any (grants leaf id expanded user) store.relationships))
  unfolding lookup_resources check walk check_at has_stored_relations
  lookup-steps before user action resource_type limit store {leaf} {ids} e run =
      let (required, known, run1) = returned (relations_for resource_type action reg) _ run in
      let (expanded, done, run2) = returned (expand_relations leaf required reg) _ (rw e at run1) in
      let (self, same, here) = relations_for-leaf resource_type leaf action e in
      (expanded, cc (run2), λ id. rw (same, known, here, done) refl)

-- What `lookup_resources` answers, for a type whose resolution is `leaf`: at most 1000 resources;
-- only resources on which `check` grants the user the action; and all of those, if the user has no
-- more tuples than the limit admits.
pub lookup_resources-check :
    (before : String → String → Bool) (reg : Registry) (user action resource_type : String)
    (limit : ℕ) (store : Store) {leaf : String} {ids : List String}
    → nearest_leaf_type resource_type reg ≡ ok leaf
    → lookup_resources before reg user action resource_type limit store ≡ ok ids
    → (length ids ≤ 1000)
      × ((id : String) → member id ids ≡ true → check 1 reg user action leaf id store ≡ ok true)
      × (count (of_user user) store.relationships ≤ capped_limit limit
          → (id : String) → check 1 reg user action leaf id store ≡ ok (member id ids))
unfolding lookup_resources
lookup_resources-check before reg user action resource_type limit store {leaf} {ids} e run =
    let (expanded, same, decides) =
      lookup-steps reg before user action resource_type limit store e run in
    let rows = store.relationships in
    let selected = select_resources before (capped_limit limit) leaf expanded user rows in
    let listed : (id : String) → member id ids ≡ member id selected =
      λ id. rw same (member-distinct_ids id [] selected) in
    (
      rw same (
          omega (
            arith,
            length-distinct_ids [] selected,
            selected-le before (capped_limit limit) leaf expanded user rows,
          )),
      λ id h.
          decides id
          ∙ ap ok (
              selected_granted before (capped_limit limit) leaf expanded user id rows
                (sym (listed id) ∙ h)),
      λ few id.
          decides id
          ∙ ap ok (
              sym (all_selected before (capped_limit limit) leaf expanded user id rows few)
              ∙ sym (listed id)),
    )
