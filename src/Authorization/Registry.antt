-- ===== src/Authorization/Registry.antt =====
-- src/features/authorization/application/registry.py: `AuthorizationRegistry`.
pub mod Leaf
pub mod Register
use starter_template_fastapi.Base.{
  ℕ, zero, suc, ◌+◌, String, Bool, true, false, ◌||◌, Option, none, some, List, [], ◌∷◌, ◌++◌, map,
  length, if◌then◌else◌,
}
use starter_template_fastapi.Base.Dict.{Dict, lookup, insert, has, member}
use starter_template_fastapi.Authorization.Types.{
  Error, runtime_error, value_error, key_error, unknown_action_error, out_of_fuel, Result, ok, err,
  ◌>>=◌, ◌>>◌,
}

-- A frozenset of relations is a list of them, in any order.
pub record LeafEntry : Type 0 where
  pub actions : Dict (List String)
  pub hierarchy : Dict (List String)

-- `parent_of` is the callable of the feature, at the state that its storage has.
pub record ParentEntry : Type 0 where
  pub parent_of : String → Option (String × String)
  pub inherits_from : String

pub record Registry : Type 0 where
  pub leaves : Dict LeafEntry
  pub parents : Dict ParentEntry
  pub is_sealed : Bool

unfoldable pub guard_unsealed : Registry → Result (Unit {0})
guard_unsealed reg = if reg.is_sealed then err runtime_error else ok tt

unfoldable pub guard_unique : String → Registry → Result (Unit {0})
guard_unique resource_type reg =
    if has resource_type reg.leaves || has resource_type reg.parents then err value_error else ok tt

unfoldable pub register_resource_type :
    String → Dict (List String) → Dict (List String) → Registry → Result Registry
unfolding guard_unsealed guard_unique
register_resource_type resource_type actions hierarchy reg = do
  guard_unsealed reg
  guard_unique resource_type reg
  ok (record reg {
    leaves = insert resource_type (record { actions = actions; hierarchy = hierarchy }) reg.leaves;
  })

unfoldable pub register_parent :
    String → (String → Option (String × String)) → String → Registry → Result Registry
unfolding guard_unsealed guard_unique
register_parent resource_type parent_of inherits_from reg = do
  guard_unsealed reg
  guard_unique resource_type reg
  ok (record reg {
    parents =
        insert resource_type (record { parent_of = parent_of; inherits_from = inherits_from })
          reg.parents;
  })

unfoldable pub seal : Registry → Registry
seal reg = record reg { is_sealed = true }

unfoldable pub has_stored_relations : String → Registry → Bool
has_stored_relations resource_type reg = has resource_type reg.leaves

unfoldable pub parent_of : String → String → Registry → Option (String × String)
parent_of resource_type resource_id reg = elim (lookup resource_type reg.parents) [
  | none ↦ none
  | some entry ↦ entry.parent_of resource_id
]

-- The `while` of `nearest_leaf_type`, on fuel.
unfoldable pub find_leaf : ℕ → Registry → List String → String → Result String
find_leaf zero reg seen current = err out_of_fuel
find_leaf (suc fuel) reg seen current =
    if has current reg.leaves
    then ok current
    else if member current seen
    then err unknown_action_error
    else elim (lookup current reg.parents) [
      | none ↦ err unknown_action_error
      | some parent ↦ find_leaf fuel reg (current ∷ seen) parent.inherits_from
    ]

-- A round for each inherited type, one more to find the leaf or the cycle, and one to spare.
unfoldable pub nearest_leaf_type : String → Registry → Result String
nearest_leaf_type resource_type reg = find_leaf (length reg.parents + 2) reg [] resource_type

abbrev pub or_raise {ℓ} : {A : Type ℓ} → Option A → Error → Result A
or_raise none e = err e
or_raise (some a) e = ok a

unfoldable pub resolve_leaf : String → Registry → Result LeafEntry
resolve_leaf resource_type reg = do
  leaf_type ← nearest_leaf_type resource_type reg
  or_raise (lookup leaf_type reg.leaves) key_error

unfoldable pub relations_for : String → String → Registry → Result (List String)
relations_for resource_type action reg = do
  leaf ← resolve_leaf resource_type reg
  or_raise (lookup action leaf.actions) unknown_action_error

-- The loop over `relations`: `expanded.update(members)`.
unfoldable pub expand : Dict (List String) → List String → Result (List String)
expand hierarchy [] = ok []
expand hierarchy (relation ∷ relations) = do
  members ← or_raise (lookup relation hierarchy) unknown_action_error
  rest ← expand hierarchy relations
  ok (members ++ rest)

unfoldable pub expand_relations : String → List String → Registry → Result (List String)
expand_relations resource_type relations reg = do
  leaf ← resolve_leaf resource_type reg
  expand leaf.hierarchy relations

unfoldable pub registered_resource_types : Registry → List String
registered_resource_types reg = map (λ e. e.0) reg.leaves ++ map (λ e. e.0) reg.parents
