-- ===== src/Authorization/Engine/Check.antt =====
-- What a check answers: the walk over parents, and the tuples that grant an action.
use starter_template_fastapi.Base.{
  ℕ, zero, suc, ◌+◌, ◌<◌, ◌≡◌, refl, ◌∙◌, ap, inl, inr, String, Bool, true, false, ◌&&◌, ◌||◌,
  Option, none, some, List, [], ◌∷◌, ◌++◌, arith, str_eq, if◌then◌else◌, length, any, any-append,
  Bool-cases, Option-cases,
}
use starter_template_fastapi.Base.Dict.{Dict, lookup, has, member}
use starter_template_fastapi.Authorization.Types.{Relationship, unknown_action_error, ok, err}
use starter_template_fastapi.Authorization.Registry.{
  LeafEntry, Registry, relations_for, expand, expand_relations, resolve_leaf, nearest_leaf_type,
  find_leaf, has_stored_relations, parent_of,
}
use starter_template_fastapi.Authorization.Engine.{Store, grants, walk, check_at, check}

-- The walk from a resource, with its number of steps: it stops at a stored resource, or at a child
-- that has no parent.
pub data Walks (reg : Registry) (dest : Option (String × String))
    : ℕ → String → String → Type 0 where
  stored :
      {t i : String}
      → has_stored_relations t reg ≡ true
      → dest ≡ some (t, i)
      → Walks reg dest zero t i
  orphan :
      {t i : String}
      → has_stored_relations t reg ≡ false
      → parent_of t i reg ≡ none
      → dest ≡ none
      → Walks reg dest zero t i
  up :
      {n : ℕ} {t i t' i' : String}
      → has_stored_relations t reg ≡ false
      → parent_of t i reg ≡ some (t', i')
      → Walks reg dest n t' i'
      → Walks reg dest (suc n) t i

walk-Walks :
    (reg : Registry) {dest : Option (String × String)} (fuel n : ℕ) {t i : String}
    → Walks reg dest n t i
    → n < fuel
    → walk fuel reg t i ≡ ok dest
unfolding walk
walk-Walks reg zero n w h = absurd (omega arith)
walk-Walks reg (suc fuel) zero (stored s e) h = rw (s, e)
walk-Walks reg (suc fuel) zero (orphan s p e) h = rw (s, p, e)
walk-Walks reg (suc fuel) (suc n) (up s p w) h = rw (s, p) (walk-Walks reg fuel n w (omega arith))

-- The relations that satisfy one of those required, by the hierarchy of the leaf.
abbrev pub members : Option (List String) → List String
members none = []
members (some xs) = xs

unfoldable pub allows : Dict (List String) → List String → String → Bool
allows hierarchy required relation =
    any (λ r. member relation (members (lookup r hierarchy))) required

-- The hierarchy lists every relation required.
abbrev pub covers : Dict (List String) → List String → Bool
covers hierarchy [] = true
covers hierarchy (r ∷ required) = has r hierarchy && covers hierarchy required

-- A tuple of the user on the resource.
abbrev pub concerns : String → String → String → Relationship → Bool
concerns t i user x =
    str_eq x.resource_type t
    && (str_eq x.resource_id i && (str_eq x.subject_type "user" && str_eq x.subject_id user))

expand-covers :
    (hierarchy : Dict (List String)) (required : List String)
    → covers hierarchy required ≡ true
    → (expanded : List String) × (expand hierarchy required ≡ ok expanded)
      × ((x : String) → member x expanded ≡ allows hierarchy required x)
unfolding expand allows
expand-covers hierarchy [] h = ([], refl, λ x. refl)
expand-covers hierarchy (r ∷ required) h = elim (Option-cases (lookup r hierarchy)) [
  | inl missing ↦ absurd (ground arith)
  | inr (xs, found) ↦
      let (rest, done, same) = expand-covers hierarchy required (ground arith) in
      (
        xs ++ rest,
        rw (found, done),
        λ x. rw found (any-append (λ y. str_eq y x) xs rest ∙ ap (λ b. member x xs || b) (same x)),
      )
]

expand_not_covers :
    (hierarchy : Dict (List String)) (required : List String)
    → covers hierarchy required ≡ false
    → expand hierarchy required ≡ err unknown_action_error
unfolding expand
expand_not_covers hierarchy [] h = cc
expand_not_covers hierarchy (r ∷ required) h = elim (Option-cases (lookup r hierarchy)) [
  | inl missing ↦ rw missing
  | inr (xs, found) ↦ rw (found, expand_not_covers hierarchy required (ground arith))
]

find_leaf_here :
    (fuel : ℕ) (reg : Registry) (seen : List String) (t : String) {leaf : LeafEntry}
    → lookup t reg.leaves ≡ some leaf
    → 0 < fuel
    → find_leaf fuel reg seen t ≡ ok t
unfolding find_leaf
find_leaf_here zero reg seen t e h = absurd (omega arith)
find_leaf_here (suc fuel) reg seen t e h = rw e

-- A stored type is its own leaf.
resolve_leaf_stored :
    (t : String) (reg : Registry) {leaf : LeafEntry}
    → lookup t reg.leaves ≡ some leaf
    → resolve_leaf t reg ≡ ok leaf
unfolding resolve_leaf nearest_leaf_type
resolve_leaf_stored t reg {leaf} e =
    let found : find_leaf (length reg.parents + 2) reg [] t ≡ ok t =
      find_leaf_here (length reg.parents + 2) reg [] t e (omega arith) in
    rw found (rw e)

grants-eq :
    (t i user : String) (expanded required : List String) (hierarchy : Dict (List String))
    → ((x : String) → member x expanded ≡ allows hierarchy required x)
    → (table : List Relationship)
    → any (grants t i expanded user) table
      ≡ any (λ x. concerns t i user x && allows hierarchy required x.relation) table
unfolding grants
grants-eq t i user expanded required hierarchy same [] = refl
grants-eq t i user expanded required hierarchy same (x ∷ table) =
    ground (arith, same x.relation, grants-eq t i user expanded required hierarchy same table)

module _ (reg : Registry) (fuel n : ℕ) (user action resource_type resource_id : String)
    (store : Store) {required : List String}
    (known : relations_for resource_type action reg ≡ ok required) (enough : n < fuel) where
  -- For a known action, and with fuel for the walk: a child whose walk ends without a parent is
  -- denied.
  check_orphan :
      Walks reg none n resource_type resource_id
      → check fuel reg user action resource_type resource_id store ≡ ok false
  unfolding check check_at
  check_orphan w = rw (known, walk-Walks reg fuel n w enough)

  -- For a known action, and with fuel for the walk: where it ends at a stored resource, the check is
  -- granted exactly if the user holds on that resource a relation which the hierarchy of its type
  -- lists under one that the action requires; and it raises UnknownActionError if that hierarchy
  -- does not list all of these.
  pub check_stored :
      {t i : String} {leaf : LeafEntry}
      → Walks reg (some (t, i)) n resource_type resource_id
      → lookup t reg.leaves ≡ some leaf
      → check fuel reg user action resource_type resource_id store ≡ (
          if covers leaf.hierarchy required
          then ok (
              any
                (λ x. concerns t i user x && allows leaf.hierarchy required x.relation)
                store.relationships)
          else err unknown_action_error)
  unfolding check check_at expand_relations
  check_stored {t} {i} {leaf} w e =
      rw (known, walk-Walks reg fuel n w enough, resolve_leaf_stored t reg e)
        (elim (Bool-cases (covers leaf.hierarchy required)) [
          | inl all ↦
              let (expanded, done, same) = expand-covers leaf.hierarchy required all in
              rw (all, done)
                (ap ok
                  (grants-eq t i user expanded required leaf.hierarchy same store.relationships))
          | inr some_missing ↦
              rw (some_missing, expand_not_covers leaf.hierarchy required some_missing)
        ])
