-- ===== src/Authorization/Registry/Register.antt =====
-- What a registration changes of the resolution of types.
use starter_template_fastapi.Base.{
  ℕ, suc, ◌≡◌, refl, String, false, ◌||◌, Option, List, arith, str_eq, str_eq_iff,
}
use starter_template_fastapi.Base.Dict.{Dict, insert, has, lookup-insert, str_eq_self}
use starter_template_fastapi.Authorization.Types.{ok}
use starter_template_fastapi.Authorization.Registry.{
  LeafEntry, ParentEntry, Registry, register_resource_type, register_parent, nearest_leaf_type,
  resolve_leaf,
}
use starter_template_fastapi.Authorization.Registry.Leaf.{
  Chain, at_leaf, inherit, nearest_leaf_type_iff,
}

has-insert {ℓ} :
    {V : Type ℓ} (k t : String) (v : V) (d : Dict V)
    → has t (insert k v d) ≡ (str_eq k t || has t d)
has-insert k t v d = ground (arith, lookup-insert k t v d)

module _ (reg : Registry) (new_type : String) {reg' : Registry} where
  -- A registration that succeeds was of a new type, in a registry that is not sealed.
  leaf_was_new :
      (actions hierarchy : Dict (List String))
      → register_resource_type new_type actions hierarchy reg ≡ ok reg'
      → (has new_type reg.leaves ≡ false)
        × (has new_type reg.parents ≡ false)
        × (reg' ≡ record reg {
          leaves = insert new_type (record { actions = actions; hierarchy = hierarchy }) reg.leaves;
        })
  unfolding register_resource_type
  leaf_was_new actions hierarchy e = (ground arith, ground arith, ground arith)

  parent_was_new :
      (parent_of : String → Option (String × String)) (inherits_from : String)
      → register_parent new_type parent_of inherits_from reg ≡ ok reg'
      → (has new_type reg.leaves ≡ false)
        × (has new_type reg.parents ≡ false)
        × (reg' ≡ record reg {
          parents =
              insert new_type
                (record { parent_of = parent_of; inherits_from = inherits_from })
                reg.parents;
        })
  unfolding register_parent
  parent_was_new parent_of inherits_from e = (ground arith, ground arith, ground arith)

-- A new leaf leaves every chain that is there.
Chain-insert_leaf :
    (reg : Registry) (new_type : String) (entry : LeafEntry) (leaf : String)
    → has new_type reg.parents ≡ false
    → {n : ℕ} {t : String} → Chain reg leaf n t
    → Chain (record reg { leaves = insert new_type entry reg.leaves }) leaf n t
Chain-insert_leaf reg new_type entry leaf h (at_leaf here) =
    at_leaf (ground (arith, has-insert new_type leaf entry reg.leaves))
Chain-insert_leaf reg new_type entry leaf h (inherit {t = t} {entry = x} not_leaf found c) =
    inherit {entry = x}
      (ground (arith, has-insert new_type t entry reg.leaves, str_eq_iff new_type t, found)) found
      (Chain-insert_leaf reg new_type entry leaf h c)

Chain-insert_parent :
    (reg : Registry) (new_type : String) (entry : ParentEntry) (leaf : String)
    → has new_type reg.parents ≡ false
    → {n : ℕ} {t : String} → Chain reg leaf n t
    → Chain (record reg { parents = insert new_type entry reg.parents }) leaf n t
Chain-insert_parent reg new_type entry leaf h (at_leaf here) = at_leaf here
Chain-insert_parent reg new_type entry leaf h (inherit {t = t} {entry = x} not_leaf found c) =
    inherit {entry = x} not_leaf
      (ground (arith, lookup-insert new_type t entry reg.parents, str_eq_iff new_type t, found))
      (Chain-insert_parent reg new_type entry leaf h c)

-- What an accepted registration of a leaf type does: the registry was not sealed and did not have
-- the type, the type now resolves to itself, with exactly the actions given, and every type that
-- resolved before resolves to the same leaf.
pub register_resource_type_lem :
    (reg : Registry) (new_type : String) (actions hierarchy : Dict (List String)) {reg' : Registry}
    → register_resource_type new_type actions hierarchy reg ≡ ok reg'
    → (reg.is_sealed ≡ false)
      × (has new_type reg.leaves ≡ false)
      × (has new_type reg.parents ≡ false)
      × (resolve_leaf new_type reg' ≡ ok (record { actions = actions; hierarchy = hierarchy }))
      × ((t leaf : String) → nearest_leaf_type t reg ≡ ok leaf → nearest_leaf_type t reg' ≡ ok leaf)
unfolding resolve_leaf register_resource_type
register_resource_type_lem reg new_type actions hierarchy {reg'} e =
    let was_new = leaf_was_new reg new_type actions hierarchy e in
    let entry : LeafEntry = record { actions = actions; hierarchy = hierarchy } in
    let next : Registry = record reg { leaves = insert new_type entry reg.leaves } in
    let same : reg' ≡ next = was_new.2 in
    let resolves : nearest_leaf_type new_type next ≡ ok new_type =
      (nearest_leaf_type_iff next new_type new_type).1.1 (
        0,
        at_leaf (rw (has-insert new_type new_type entry reg.leaves, str_eq_self new_type) refl),
      ) in
    (
      ground arith,
      was_new.0,
      was_new.1,
      rw (same, resolves, lookup-insert new_type new_type entry reg.leaves, str_eq_self new_type)
          refl,
      λ t leaf found.
          let (n, c) = (nearest_leaf_type_iff reg t leaf).1.0 found in
          rw same (
            (nearest_leaf_type_iff next t leaf).1.1
              (n, Chain-insert_leaf reg new_type entry leaf was_new.1 c)),
    )

-- What an accepted registration of an inherited type does: the registry was not sealed and did not
-- have the type, the type now resolves to the leaf that the type it inherits from resolves to, if
-- that resolves, and every type that resolved before resolves to the same leaf.
pub register_parent_lem :
    (reg : Registry) (new_type : String) (of : String → Option (String × String))
    (inherits_from : String) {reg' : Registry}
    → register_parent new_type of inherits_from reg ≡ ok reg'
    → (reg.is_sealed ≡ false)
      × (has new_type reg.leaves ≡ false)
      × (has new_type reg.parents ≡ false)
      × ((leaf : String)
          → nearest_leaf_type inherits_from reg ≡ ok leaf
          → nearest_leaf_type new_type reg' ≡ ok leaf)
      × ((t leaf : String) → nearest_leaf_type t reg ≡ ok leaf → nearest_leaf_type t reg' ≡ ok leaf)
unfolding register_parent
register_parent_lem reg new_type of inherits_from {reg'} e =
    let was_new = parent_was_new reg new_type of inherits_from e in
    let entry : ParentEntry = record { parent_of = of; inherits_from = inherits_from } in
    let next : Registry = record reg { parents = insert new_type entry reg.parents } in
    let same : reg' ≡ next = was_new.2 in
    (
      ground arith,
      was_new.0,
      was_new.1,
      λ leaf found.
          let (n, c) = (nearest_leaf_type_iff reg inherits_from leaf).1.0 found in
          rw same (
            (nearest_leaf_type_iff next new_type leaf).1.1 (
              suc n,
              inherit {entry = entry} was_new.0
                  (rw (lookup-insert new_type new_type entry reg.parents, str_eq_self new_type)
                    refl)
                  (Chain-insert_parent reg new_type entry leaf was_new.1 c),
            )),
      λ t leaf found.
          let (n, c) = (nearest_leaf_type_iff reg t leaf).1.0 found in
          rw same (
            (nearest_leaf_type_iff next t leaf).1.1
              (n, Chain-insert_parent reg new_type entry leaf was_new.1 c)),
    )
