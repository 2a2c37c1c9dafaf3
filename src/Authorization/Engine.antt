-- ===== src/Authorization/Engine.antt =====
-- src/features/authorization/adapters/outbound/sqlmodel/adapter.py: checks and writes of tuples, and
-- the bump of `authz_version` of src/features/users/adapters/outbound/authz_version/sqlmodel.py.
pub mod Check
pub mod Write
pub mod Lookup
use starter_template_fastapi.Base.{
  ℕ, zero, suc, ◌+◌, String, Bool, true, false, not, ◌&&◌, ◌||◌, Option, none, some, List, [], ◌∷◌,
  ◌++◌, map, str_eq, ◌==◌, if◌then◌else◌, filter, any, elem,
}
use starter_template_fastapi.Base.Dict.{member}
use starter_template_fastapi.Authorization.Types.{
  Relationship, Error, out_of_fuel, Result, ok, err, ◌>>=◌,
}
use starter_template_fastapi.Authorization.Registry.{
  Registry, relations_for, expand_relations, has_stored_relations, parent_of,
}

-- A row of the users table, in the columns that the engine reads and writes.
pub record UserVersion : Type 0 where
  pub id : ℕ
  pub authz_version : ℕ
  pub updated_at : ℕ

-- The tables that the engine reads and writes; `relationships` holds each tuple once.
pub record Store : Type 0 where
  pub relationships : List Relationship
  pub users : List UserVersion

-- The five columns agree.
unfoldable pub same_tuple : Relationship → Relationship → Bool
same_tuple a b =
    str_eq a.resource_type b.resource_type
    && (str_eq a.resource_id b.resource_id
        && (str_eq a.relation b.relation
            && (str_eq a.subject_type b.subject_type && str_eq a.subject_id b.subject_id)))

-- The WHERE of `_exists_relation`; `user` is `str(user_id)`.
unfoldable pub grants : String → String → List String → String → Relationship → Bool
grants resource_type resource_id relations user t =
    str_eq t.resource_type resource_type
    && (str_eq t.resource_id resource_id
        && (member t.relation relations
            && (str_eq t.subject_type "user" && str_eq t.subject_id user)))

-- The `while` of `check` on fuel: the stored resource that the walk reaches, or `none` for a child
-- without a parent. Python's loop has no bound of its own.
unfoldable pub walk : ℕ → Registry → String → String → Result (Option (String × String))
walk zero reg t i = err out_of_fuel
walk (suc fuel) reg t i =
    if has_stored_relations t reg
    then ok (some (t, i))
    else elim (parent_of t i reg) [ none ↦ ok none | some (t', i') ↦ walk fuel reg t' i' ]

unfoldable pub check_at :
    Registry → List String → String → Store → Option (String × String) → Result Bool
check_at reg required user store none = ok false
check_at reg required user store (some (t, i)) = do
  expanded ← expand_relations t required reg
  ok (any (grants t i expanded user) store.relationships)

unfoldable pub check : ℕ → Registry → String → String → String → String → Store → Result Bool
check fuel reg user action resource_type resource_id store = do
  required ← relations_for resource_type action reg
  stored ← walk fuel reg resource_type resource_id
  check_at reg required user store stored

-- The INSERTs of `write_relationships`: a tuple that is there is skipped.
unfoldable pub insert_all : List Relationship → List Relationship → List Relationship
insert_all [] table = table
insert_all (t ∷ tuples) table =
    insert_all tuples (if any (same_tuple t) table then table else table ++ t ∷ [])

-- The DELETEs of `delete_relationships`.
unfoldable pub delete_all : List Relationship → List Relationship → List Relationship
delete_all [] table = table
delete_all (t ∷ tuples) table = delete_all tuples (filter (λ x. not (same_tuple t x)) table)

-- `now id` is what `utc_now` returns when the user of the id is bumped.
abbrev pub bumped_row : (ℕ → ℕ) → UserVersion → UserVersion
bumped_row now u = record u { authz_version = u.authz_version + 1; updated_at = now u.id }

-- `_bump_one`: a user that is not there is passed over.
abbrev pub bump_one : (ℕ → ℕ) → ℕ → List UserVersion → List UserVersion
bump_one now id users = map (λ u. if u.id == id then bumped_row now u else u) users

unfoldable pub bump_all : (ℕ → ℕ) → List ℕ → List UserVersion → List UserVersion
bump_all now [] users = users
bump_all now (id ∷ ids) users = bump_all now ids (bump_one now id users)

-- `parse_uuid` is `UUID(subject_id)`: `none` for a text that raises ValueError.
module _ (parse_uuid : String → Option ℕ) where
  abbrev add_subject : Option ℕ → List ℕ → List ℕ
  add_subject none out = out
  add_subject (some id) out = if elem id out then out else out ++ id ∷ []

  -- `_user_subject_ids`: a set, listed without repetition
  unfoldable pub user_subject_ids : List Relationship → List ℕ → List ℕ
  user_subject_ids [] out = out
  user_subject_ids (t ∷ tuples) out =
      user_subject_ids tuples
        (if str_eq t.subject_type "user" then add_subject (parse_uuid t.subject_id) out else out)

  unfoldable pub write_relationships : (ℕ → ℕ) → List Relationship → Store → Store
  write_relationships now [] store = store
  write_relationships now (t ∷ tuples) store = record {
    relationships = insert_all (t ∷ tuples) store.relationships;
    users = bump_all now (user_subject_ids (t ∷ tuples) []) store.users;
  }

  unfoldable pub delete_relationships : (ℕ → ℕ) → List Relationship → Store → Store
  delete_relationships now [] store = store
  delete_relationships now (t ∷ tuples) store = record {
    relationships = delete_all (t ∷ tuples) store.relationships;
    users = bump_all now (user_subject_ids (t ∷ tuples) []) store.users;
  }
