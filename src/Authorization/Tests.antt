-- ===== src/Authorization/Tests.antt =====
-- The theorems of the authorization engine at a board with columns and cards.
use starter_template_fastapi.Base.{
  ℕ, ◌+◌, ◌≤◌, ◌≡◌, ◌↔◌, ◌⊎◌, refl, String, Bool, true, false, ◌&&◌, Option, none, some, List, [],
  ◌∷◌, arith, str_eq, if◌then◌else◌, length, count, any,
}
use starter_template_fastapi.Base.Dict.{Dict, has, member, lookup, insert}
use starter_template_fastapi.Base.Sort.{sort}
use starter_template_fastapi.Authorization.Types.{Relationship, unknown_action_error, ok, err}
use starter_template_fastapi.Authorization.Registry.{
  LeafEntry, ParentEntry, Registry, nearest_leaf_type, resolve_leaf, relations_for, find_leaf,
  expand_relations, expand, has_stored_relations, parent_of, register_resource_type,
  register_parent,
}
use starter_template_fastapi.Authorization.Registry.Leaf.{Chain, nearest_leaf_type_iff}
use starter_template_fastapi.Authorization.Registry.Register.{
  register_resource_type_lem, register_parent_lem,
}
use starter_template_fastapi.Authorization.Engine.{Store, check, walk, check_at, grants}
use starter_template_fastapi.Authorization.Engine.Check.{
  stored, up, allows, covers, concerns, check_stored,
}
use starter_template_fastapi.Authorization.Engine.Lookup.{
  capped_limit, lookup_resources, select_resources, distinct_ids, user_holds,
}
use starter_template_fastapi.Authorization.Engine.Lookup.Found.{of_user, lookup_resources-check}

abbrev hierarchy : Dict (List String)
hierarchy = ("reader", "reader" ∷ "owner" ∷ []) ∷ ("owner", "owner" ∷ []) ∷ []

abbrev actions : Dict (List String)
actions = ("read", "reader" ∷ []) ∷ ("delete", "owner" ∷ []) ∷ []

abbrev board : LeafEntry
board = record { actions = actions; hierarchy = hierarchy }

abbrev place : String → String → String → Option (String × String)
place child parent_type i = if str_eq i child then some (parent_type, "p") else none

abbrev column : ParentEntry
column = record { parent_of = place "col" "board"; inherits_from = "board" }

abbrev registry : Registry
registry = record {
  leaves = ("board", board) ∷ [];
  parents = ("column", column) ∷ [];
  is_sealed = false;
}

abbrev tuple : String → String → String → Relationship
tuple resource_id relation subject_id = record {
  resource_type = "board";
  resource_id = resource_id;
  relation = relation;
  subject_type = "user";
  subject_id = subject_id;
}

abbrev store : Store
store = record {
  relationships = tuple "p" "owner" "7" ∷ tuple "q" "reader" "8" ∷ [];
  users =
      record { id = 7; authz_version = 1; updated_at = 0 }
      ∷ record { id = 8; authz_version = 4; updated_at = 0 }
      ∷ [];
}

abbrev parse : String → Option ℕ
parse s = if str_eq s "7" then some 7 else (if str_eq s "8" then some 8 else none)

nearest_leaf_type_iff_example :
    (((l : String) × (nearest_leaf_type "column" registry ≡ ok l))
      ⊎ (nearest_leaf_type "column" registry ≡ err unknown_action_error))
    × ((nearest_leaf_type "column" registry ≡ ok "board")
        ↔ ((n : ℕ) × Chain registry "board" n "column"))
nearest_leaf_type_iff_example = nearest_leaf_type_iff registry "column" "board"

abbrev with_card : Registry
with_card = record registry {
  parents =
      ("column", column)
      ∷ ("card", record { parent_of = place "card" "column"; inherits_from = "column" })
      ∷ [];
}

abbrev with_team : Registry
with_team = record registry { leaves = ("board", board) ∷ ("team", board) ∷ [] }

register_resource_type_lem_example :
    (registry.is_sealed ≡ false)
    × (has "team" registry.leaves ≡ false)
    × (has "team" registry.parents ≡ false)
    × (resolve_leaf "team" with_team ≡ ok (record { actions = actions; hierarchy = hierarchy }))
    × ((t leaf : String)
        → nearest_leaf_type t registry ≡ ok leaf
        → nearest_leaf_type t with_team ≡ ok leaf)
unfolding register_resource_type lookup insert
register_resource_type_lem_example =
    register_resource_type_lem registry "team" actions hierarchy {reg' = with_team} refl

register_parent_lem_example :
    (registry.is_sealed ≡ false)
    × (has "card" registry.leaves ≡ false)
    × (has "card" registry.parents ≡ false)
    × ((leaf : String)
        → nearest_leaf_type "column" registry ≡ ok leaf
        → nearest_leaf_type "card" with_card ≡ ok leaf)
    × ((t leaf : String)
        → nearest_leaf_type t registry ≡ ok leaf
        → nearest_leaf_type t with_card ≡ ok leaf)
unfolding register_parent lookup insert
register_parent_lem_example =
    register_parent_lem registry "card" (place "card" "column") "column" {reg' = with_card} refl

check_stored_example : check 5 registry "7" "read" "column" "col" store ≡ (
    if covers hierarchy ("reader" ∷ [])
    then ok (
        any
          (λ x. concerns "board" "p" "7" x && allows hierarchy ("reader" ∷ []) x.relation)
          store.relationships)
    else err unknown_action_error)
unfolding relations_for resolve_leaf nearest_leaf_type find_leaf has_stored_relations parent_of
    lookup
check_stored_example =
    check_stored registry 5 1 "7" "read" "column" "col" store {required = "reader" ∷ []} refl
      (omega arith) (up refl refl (stored refl refl)) refl

-- The owner of the board may read the column.
check_runs : check 5 registry "7" "read" "column" "col" store ≡ ok true
unfolding check walk check_at relations_for resolve_leaf nearest_leaf_type find_leaf
    has_stored_relations parent_of lookup expand_relations expand grants
check_runs = refl

abbrev clock : ℕ → ℕ
clock id = 10 + id

abbrev found : List String
found = "p" ∷ []

abbrev any_order : String → String → Bool
any_order a b = true

lookup_resources-check_example :
    (length found ≤ 1000)
    × ((id : String)
        → member id found ≡ true
        → check 1 registry "7" "read" "board" id store ≡ ok true)
    × (count (of_user "7") store.relationships ≤ capped_limit 100
        → (id : String) → check 1 registry "7" "read" "board" id store ≡ ok (member id found))
unfolding lookup_resources relations_for resolve_leaf nearest_leaf_type find_leaf expand_relations
    expand select_resources distinct_ids lookup user_holds sort
lookup_resources-check_example =
    lookup_resources-check any_order registry "7" "read" "column" 100 store {ids = found} refl refl
