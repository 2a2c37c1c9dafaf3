-- ===== src/Authorization/Engine/Lookup.antt =====
-- `lookup_resources` and `lookup_subjects` of
-- src/features/authorization/adapters/outbound/sqlmodel/adapter.py, with the caps of
-- src/features/authorization/application/ports/authorization_port.py.
pub mod Found
use starter_template_fastapi.Base.{
  ℕ, String, Bool, ◌&&◌, Option, none, some, List, [], ◌∷◌, map, str_eq, if◌then◌else◌, filter,
  take, elem, min, max,
}
use starter_template_fastapi.Base.Dict.{member}
use starter_template_fastapi.Base.Sort.{sort}
use starter_template_fastapi.Authorization.Types.{Relationship, Result, ok, ◌>>=◌}
use starter_template_fastapi.Authorization.Registry.{
  Registry, relations_for, nearest_leaf_type, expand_relations,
}
use starter_template_fastapi.Authorization.Engine.{Store}

abbrev pub lookup_max_limit : ℕ
lookup_max_limit = 1000

-- max(1, min(limit, LOOKUP_MAX_LIMIT))
abbrev pub capped_limit : ℕ → ℕ
capped_limit limit = max 1 (min limit lookup_max_limit)

-- The WHERE of `lookup_resources`; `user` is `str(user_id)`.
unfoldable pub user_holds : String → List String → String → Relationship → Bool
user_holds stored_type expanded user t =
    str_eq t.resource_type stored_type
    && (member t.relation expanded && (str_eq t.subject_type "user" && str_eq t.subject_id user))

-- The loop that leaves out what it has seen.
unfoldable pub distinct_ids : List String → List String → List String
distinct_ids seen [] = []
distinct_ids seen (resource_id ∷ rows) =
    let rest = distinct_ids (if member resource_id seen then seen else resource_id ∷ seen) rows in
    if member resource_id seen then rest else resource_id ∷ rest

-- `before` is the order of the database on text.
unfoldable pub select_resources :
    (String → String → Bool) → ℕ → String → List String → String → List Relationship → List String
unfolding user_holds sort
select_resources before limit stored_type expanded user rows =
    map (λ (t : Relationship). t.resource_id)
      (take limit (
        sort (λ (a : Relationship) (b : Relationship). before a.resource_id b.resource_id)
          (filter (user_holds stored_type expanded user) rows)))

unfoldable pub lookup_resources :
    (String → String → Bool)
    → Registry
    → String
    → String
    → String
    → ℕ
    → Store
    → Result (List String)
unfolding distinct_ids select_resources
lookup_resources before reg user action resource_type limit store = do
  required ← relations_for resource_type action reg
  stored_type ← nearest_leaf_type resource_type reg
  expanded ← expand_relations stored_type required reg
  ok (
      distinct_ids [] (
        select_resources before (capped_limit limit) stored_type expanded user store.relationships))

-- The WHERE of `lookup_subjects`.
unfoldable pub held_by_user : String → String → List String → Relationship → Bool
held_by_user resource_type resource_id expanded t =
    str_eq t.resource_type resource_type
    && (str_eq t.resource_id resource_id
        && (member t.relation expanded && str_eq t.subject_type "user"))

abbrev pub capped_option : Option ℕ → ℕ
capped_option none = lookup_max_limit
capped_option (some limit) = capped_limit limit

-- `parse_uuid` is `UUID(subject_id)`: a text that raises ValueError is passed over.
module _ (parse_uuid : String → Option ℕ) where
  unfoldable pub distinct_users : List ℕ → List String → List ℕ
  distinct_users seen [] = []
  distinct_users seen (subject_id ∷ rows) = elim (parse_uuid subject_id) [
    | none ↦ distinct_users seen rows
    | some user_id ↦
        let rest = distinct_users (if elem user_id seen then seen else user_id ∷ seen) rows in
        if elem user_id seen then rest else user_id ∷ rest
  ]

  -- `scan` is the order in which the database returns the rows, which no ORDER BY fixes.
  unfoldable pub lookup_subjects :
      (List Relationship → List Relationship)
      → Registry
      → String
      → String
      → String
      → Option ℕ
      → Store
      → Result (List ℕ)
  unfolding distinct_users held_by_user
  lookup_subjects scan reg resource_type resource_id relation limit store = do
    expanded ← expand_relations resource_type (relation ∷ []) reg
    ok (
        distinct_users [] (
          map (λ (t : Relationship). t.subject_id)
            (take (capped_option limit) (
              scan
                (filter (held_by_user resource_type resource_id expanded) store.relationships)))))
