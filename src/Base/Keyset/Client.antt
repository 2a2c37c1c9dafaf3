-- ===== src/Base/Keyset/Client.antt =====
-- A client of a listing that sends each cursor back: what it collects is the whole result.
use starter_template_fastapi.Base.{
  ℕ, zero, suc, ◌<◌, ◌≡◌, refl, sym, ap, ◌∙◌, inl, inr, Bool, Option, none, some, List, [], ◌∷◌,
  ◌++◌, map, ◌==◌, length, All, All-take, map-append, Bool-cases,
}
use starter_template_fastapi.Base.Sort.{sort, All-sort}
use starter_template_fastapi.Base.Keyset.{in_order, after, page, next_cursor, followed, walk}
use starter_template_fastapi.Base.Keyset.Kept.{All-filter_kept, filter_all}
use starter_template_fastapi.Base.Keyset.Pages.{IsStrict, IsAscending, of_last, walk-all}

abbrev pub joined : {I T : Type 0} → List I → Option T → (T → List I) → List I
joined items none rest = items
joined items (some token) rest = items ++ rest token

-- What a client collects, on fuel: `ask` answers a token with items and the next token.
unfoldable pub gather : {I T : Type 0} → (Option T → List I × Option T) → ℕ → Option T → List I
gather ask zero cursor = []
gather ask (suc fuel) cursor =
    joined (ask cursor).0 (ask cursor).1 (λ token. gather ask fuel (some token))

module _ {A K I T : Type 0} (key : A → K) (lt : K → K → Bool) (shape : A → I) (encode : K → T)
    (InRange : K → Type 0) where
  abbrev pub token_of : Option K → Option T
  token_of none = none
  token_of (some k) = some (encode k)

  abbrev pub InRange? : Option K → Type 0
  InRange? none = Unit
  InRange? (some k) = InRange k

  next_cursor-InRange :
      (limit : ℕ) (shown : List A)
      → All (λ x. InRange (key x)) shown
      → InRange? (next_cursor key lt limit shown)
  unfolding next_cursor
  next_cursor-InRange limit [] h = tt
  next_cursor-InRange limit (x ∷ xs) h = elim (Bool-cases (length (x ∷ xs) == limit)) [
    | inl e ↦ rw e (of_last key lt InRange x xs h)
    | inr e ↦ rw e tt
  ]

  -- The answer to a token: the page, and the token of its cursor.
  abbrev pub answer_of : ℕ → List A → List I × Option T
  answer_of limit shown = (map shape shown, token_of (next_cursor key lt limit shown))

  joined-followed :
      (cursor : Option K) (shown : List A) (later : T → List I) (rest : K → List A)
      → InRange? cursor
      → ((k : K) → InRange k → later (encode k) ≡ map shape (rest k))
      → joined (map shape shown) (token_of cursor) later
        ≡ map shape (followed key lt cursor shown rest)
  joined-followed none shown later rest r same = refl
  joined-followed (some k) shown later rest r same =
      rw (same k r) (sym (map-append shape shown (rest k)))

  module _ (limit : ℕ) (rows : List A) (range : All (λ x. InRange (key x)) rows)
      (ask : Option T → List I × Option T)
      (asks : (cursor : Option K)
        → InRange? cursor
        → ask (token_of cursor) ≡ answer_of limit (page key lt limit cursor rows)) where
    page-InRange : (cursor : Option K) → All (λ x. InRange (key x)) (page key lt limit cursor rows)
    unfolding page
    page-InRange cursor =
        let kept = All-filter_kept (λ x. InRange (key x)) (after key lt cursor) rows range in
        All-take _ limit _ (All-sort (in_order key lt) _ _ kept)

    gather-walk :
        (fuel : ℕ) (cursor : Option K)
        → InRange? cursor
        → gather ask fuel (token_of cursor) ≡ map shape (walk key lt fuel limit cursor rows)
    unfolding gather walk
    gather-walk zero cursor r = refl
    gather-walk (suc fuel) cursor r =
        let shown = page key lt limit cursor rows in
        ap (λ a. joined a.0 a.1 (λ token. gather ask fuel (some token))) (asks cursor r)
        ∙ joined-followed (next_cursor key lt limit shown) shown
            (λ token. gather ask fuel (some token)) (λ k. walk key lt fuel limit (some k) rows)
            (next_cursor-InRange limit shown (page-InRange cursor))
            (λ k in_range. gather-walk fuel (some k) in_range)

    -- With more requests than rows, a client collects every row once, in the order of the keys.
    pub gather-all :
        (fuel : ℕ)
        → IsStrict lt
        → 0 < limit
        → IsAscending key lt (sort (in_order key lt) rows)
        → length rows < fuel
        → gather ask fuel none ≡ map shape (sort (in_order key lt) rows)
    gather-all fuel strict positive ascending enough =
        gather-walk fuel none tt
        ∙ ap (map shape) (
            walk-all key lt strict limit rows positive ascending fuel none enough
            ∙ ap (sort (in_order key lt)) (filter_all rows))
