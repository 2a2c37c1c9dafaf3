-- ===== src/Authorization/Engine/Write.antt =====
-- What the writes of tuples leave in the two tables.
use starter_template_fastapi.Base.{
  ℕ, ◌≡◌, refl, String, Bool, true, false, not, ◌&&◌, ◌||◌, Option, none, some, List, [], ◌∷◌, ◌++◌,
  map, arith, str_eq, str_eq_iff, ◌==◌, if◌then◌else◌, filter, any, any-append, All,
}
use starter_template_fastapi.Authorization.Types.{Relationship}
use starter_template_fastapi.Authorization.Engine.{
  UserVersion, same_tuple, insert_all, delete_all, bumped_row,
}

-- The tuple stands in a list.
abbrev pub holds : Relationship → List Relationship → Bool
holds x table = any (λ t. same_tuple t x) table

same_tuple_trans : (a b c : Relationship) → same_tuple a b ≡ true → same_tuple b c ≡ same_tuple a c
unfolding same_tuple
same_tuple_trans a b c h = ground (
  arith,
  str_eq_iff a.resource_type b.resource_type,
  str_eq_iff a.resource_id b.resource_id,
  str_eq_iff a.relation b.relation,
  str_eq_iff a.subject_type b.subject_type,
  str_eq_iff a.subject_id b.subject_id,
)

same_tuple-sym :
    (x t y : Relationship) → same_tuple y x ≡ true → same_tuple t x ≡ true → same_tuple t y ≡ true
unfolding same_tuple
same_tuple-sym x t y h k = ground (
  arith,
  str_eq_iff y.resource_type x.resource_type,
  str_eq_iff y.resource_id x.resource_id,
  str_eq_iff y.relation x.relation,
  str_eq_iff y.subject_type x.subject_type,
  str_eq_iff y.subject_id x.subject_id,
)

holds_of_same :
    (t x : Relationship) (table : List Relationship)
    → any (same_tuple t) table ≡ true
    → same_tuple t x ≡ true
    → holds x table ≡ true
holds_of_same t x [] h e = cc
holds_of_same t x (y ∷ table) h e = ground (arith, holds_of_same t x table, same_tuple_trans t y x)

pub holds-insert_all :
    (x : Relationship) (tuples table : List Relationship)
    → holds x (insert_all tuples table) ≡ (holds x table || holds x tuples)
unfolding insert_all
holds-insert_all x [] table = ground arith
holds-insert_all x (t ∷ tuples) table = ground (
  arith,
  holds-insert_all x tuples table,
  holds-insert_all x tuples (table ++ t ∷ []),
  any-append (λ y. same_tuple y x) table (t ∷ []),
  holds_of_same t x table,
)

holds-filter :
    (x t : Relationship) (table : List Relationship)
    → holds x (filter (λ y. not (same_tuple t y)) table) ≡ (holds x table && not (same_tuple t x))
holds-filter x t [] = refl
holds-filter x t (y ∷ table) =
    ground (arith, holds-filter x t table, same_tuple_trans t y x, same_tuple-sym x t y)

pub holds-delete_all :
    (x : Relationship) (tuples table : List Relationship)
    → holds x (delete_all tuples table) ≡ (holds x table && not (holds x tuples))
unfolding delete_all
holds-delete_all x [] table = ground arith
holds-delete_all x (t ∷ tuples) table = ground (
  arith,
  holds-delete_all x tuples (filter (λ y. not (same_tuple t y)) table),
  holds-filter x t table,
)

-- A write of tuples that the table holds changes nothing.
insert_all_held :
    (tuples table : List Relationship)
    → All (λ t. any (same_tuple t) table ≡ true) tuples
    → insert_all tuples table ≡ table
unfolding insert_all
insert_all_held [] table h = refl
insert_all_held (t ∷ tuples) table h = ground (arith, insert_all_held tuples table h.1)

abbrev is_id : Option ℕ → ℕ → Bool
is_id none k = false
is_id (some i) k = i == k

abbrev id_of : Option ℕ → ℕ
id_of none = 0
id_of (some i) = i

module _ (parse_uuid : String → Option ℕ) where
  -- A tuple makes a statement about the user of an id.
  abbrev pub concerns : ℕ → Relationship → Bool
  concerns k t = str_eq t.subject_type "user" && is_id (parse_uuid t.subject_id) k

  -- The users, with each one that the tuples are about bumped once.
  abbrev pub bumped : (ℕ → ℕ) → List Relationship → List UserVersion → List UserVersion
  bumped now tuples users =
      map (λ u. if any (concerns u.id) tuples then bumped_row now u else u) users
