-- ===== src/Base/Keyset.antt =====
-- Keyset pagination: `WHERE key > :cursor ORDER BY key LIMIT :limit`, with the cursor of a page that
-- is full. `lt` is the strict order of the query on keys.
pub mod Client
pub mod Kept
pub mod Pages
use starter_template_fastapi.Base.{
  ℕ, zero, suc, Bool, true, not, Option, none, some, List, [], ◌∷◌, ◌++◌, ◌==◌, if◌then◌else◌,
  length, filter, take,
}
use starter_template_fastapi.Base.Sort.{sort}

module _ {A K : Type 0} (key : A → K) (lt : K → K → Bool) where
  abbrev pub in_order : A → A → Bool
  in_order a b = not (lt (key b) (key a))

  abbrev pub after : Option K → A → Bool
  after none x = true
  after (some k) x = lt k (key x)

  unfoldable pub page : ℕ → Option K → List A → List A
  unfolding sort
  page limit cursor rows = take limit (sort in_order (filter (after cursor) rows))

  unfoldable pub last_key : A → List A → K
  last_key x [] = key x
  last_key x (y ∷ ys) = last_key y ys

  -- The cursor that the response carries: a page that is not full is the last.
  unfoldable pub next_cursor : ℕ → List A → Option K
  unfolding last_key
  next_cursor limit [] = none
  next_cursor limit (x ∷ xs) = if length (x ∷ xs) == limit then some (last_key x xs) else none

  -- The rows of a page, and of the pages that its cursor leads to.
  abbrev pub followed : Option K → List A → (K → List A) → List A
  followed none shown rest = shown
  followed (some k) shown rest = shown ++ rest k

  -- What a client collects that follows the cursors, on fuel.
  unfoldable pub walk : ℕ → ℕ → Option K → List A → List A
  unfolding page next_cursor
  walk zero limit cursor rows = []
  walk (suc fuel) limit cursor rows =
      let shown = page limit cursor rows in
      followed (next_cursor limit shown) shown (λ k. walk fuel limit (some k) rows)
