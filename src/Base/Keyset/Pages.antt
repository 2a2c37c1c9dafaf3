-- ===== src/Base/Keyset/Pages.antt =====
-- The pages that the cursors lead through, and the whole result in order.
use mathlib.Core.Path.{subst}
use starter_template_fastapi.Base.{
  ℕ, zero, suc, ◌<◌, ◌≡◌, refl, sym, ap, ◌∙◌, inl, inr, Bool, true, false, Option, none, some, List,
  [], ◌∷◌, ◌++◌, arith, ◌==◌, length, filter, take, drop, All, All-implies, All-take, All-filter,
  Bool-cases, length-take, length-append, count-le-length, length-filter, All-zip, take-append-drop,
}
use starter_template_fastapi.Base.Keys.{Distinct}
use starter_template_fastapi.Base.Keys.Kept.{Distinct-sort}
use starter_template_fastapi.Base.Sort.{sort, IsSorted, IsOrder, sort-IsSorted, length-sort}
use starter_template_fastapi.Base.Filters.{All-of_any-false}
use starter_template_fastapi.Base.Keyset.Kept.{
  All-filter_kept, All-prefix, sort-filter, filter_implied, filter-append_split, take_nothing,
  take_all,
}
use starter_template_fastapi.Base.Keyset.{
  in_order, after, page, last_key, next_cursor, followed, walk,
}

-- A strict order on the keys.
pub record IsStrict {K : Type 0} (lt : K → K → Bool) : Type 0 where
  pub irrefl : (k : K) → lt k k ≡ false
  pub trans : (i j k : K) → lt i j ≡ true → lt j k ≡ true → lt i k ≡ true
  -- What is less than a third key, or a third key is less than it: the order is a weak one.
  pub between : (i j k : K) → lt i k ≡ true → lt i j ≡ false → lt j k ≡ true

module _ {A K : Type 0} (key : A → K) (lt : K → K → Bool) where
  -- Each key is less than all that follow.
  abbrev pub IsAscending : List A → Type 0
  IsAscending [] = Unit
  IsAscending (x ∷ xs) = All (λ y. lt (key x) (key y) ≡ true) xs × IsAscending xs

  pub of_last :
      (P : K → Type 0) (x : A) (xs : List A)
      → All (λ y. P (key y)) (x ∷ xs)
      → P (last_key key lt x xs)
  unfolding last_key
  of_last P x [] h = h.0
  of_last P x (y ∷ ys) h = of_last P y ys h.1

  module _ (strict : IsStrict lt) where
    asym : (i j : K) → lt i j ≡ true → lt j i ≡ false
    asym i j h = elim (Bool-cases (lt j i)) [
      | inl e ↦ let loop = strict.trans i j i h e in let no = strict.irrefl i in cc
      | inr e ↦ e
    ]

    around_last :
        (x : A) (xs rest : List A)
        → IsAscending (x ∷ xs ++ rest)
        → All (λ y. after key lt (some (last_key key lt x xs)) y ≡ false) (x ∷ xs)
          × All (λ y. after key lt (some (last_key key lt x xs)) y ≡ true) rest
    unfolding last_key
    around_last x [] rest h = ((strict.irrefl (key x), tt), h.0)
    around_last x (y ∷ ys) rest h =
        let below = around_last y ys rest h.1 in
        (
          (
            asym _ _ (of_last (λ k. lt (key x) k ≡ true) y ys (All-prefix _ (y ∷ ys) rest h.0)),
            below.0,
          ),
          below.1,
        )

    after-after_last :
        (cursor : Option K) (rows : List A) (x : A) (xs : List A)
        → All (λ y. after key lt cursor y ≡ true) (x ∷ xs)
        → filter (after key lt (some (last_key key lt x xs))) (filter (after key lt cursor) rows)
          ≡ filter (after key lt (some (last_key key lt x xs))) rows
    after-after_last none rows x xs h = filter_implied _ (λ y. true) rows (λ y e. refl)
    after-after_last (some k) rows x xs h = filter_implied _ (after key lt (some k)) rows (λ y e.
        strict.trans k (last_key key lt x xs) (key y) (of_last (λ j. lt k j ≡ true) x xs h) e)

    pub in_order-IsOrder : IsOrder (in_order key lt)
    in_order-IsOrder = record {
      total = λ x y e. ground (arith, asym (key y) (key x));
      trans = λ x y z e f. ground (arith, strict.between (key z) (key y) (key x));
    }

    -- A page of a result, and what its cursor leads to, are the result.
    page-then_rest :
        (limit : ℕ) (result shown : List A) (rest : K → List A)
        → 0 < limit
        → take limit result ≡ shown
        → ((x : A) (xs : List A) → shown ≡ x ∷ xs → rest (last_key key lt x xs) ≡ drop limit result)
        → followed key lt (next_cursor key lt limit shown) shown rest ≡ result
    unfolding next_cursor
    page-then_rest limit result [] rest positive e goes = sym (take_nothing limit result positive e)
    page-then_rest limit result (x ∷ xs) rest positive e goes =
        elim (Bool-cases (length (x ∷ xs) == limit)) [
          | inl full ↦ rw full (
              rw (goes x xs refl)
                (ap (λ l. l ++ drop limit result) (sym e) ∙ take-append-drop limit result))
          | inr short ↦ rw short (
              sym e
              ∙ take_all limit result (
                  let shown_length : length (take limit result) ≡ length (x ∷ xs) = ap length e in
                  ground (arith, length-take limit result)))
        ]

    page-drop :
        (limit : ℕ) (shown later : List A) (x : A) (xs : List A)
        → shown ≡ x ∷ xs
        → IsAscending (shown ++ later)
        → filter (after key lt (some (last_key key lt x xs))) (shown ++ later) ≡ later
    page-drop limit shown later x xs e h =
        let from : IsAscending (x ∷ xs ++ later) = rw e at h in
        let around = around_last x xs later from in
        rw e (
          filter-append_split (after key lt (some (last_key key lt x xs))) (x ∷ xs) later around.0
            around.1)

    IsAscending-filter : (p : A → Bool) (xs : List A) → IsAscending xs → IsAscending (filter p xs)
    IsAscending-filter p [] h = tt
    IsAscending-filter p (x ∷ xs) h = elim (Bool-cases (p x)) [
      | inl e ↦ rw e (All-filter_kept _ p xs h.0, IsAscending-filter p xs h.1)
      | inr e ↦ rw e (IsAscending-filter p xs h.1)
    ]

    module _ (limit : ℕ) (rows : List A) (positive : 0 < limit)
        (ascending : IsAscending (sort (in_order key lt) rows)) where
      abbrev beyond : Option K → List A
      beyond cursor = filter (after key lt cursor) (sort (in_order key lt) rows)

      page-eq_take :
          (cursor : Option K) → page key lt limit cursor rows ≡ take limit (beyond cursor)
      unfolding page
      page-eq_take cursor =
          ap (take limit)
            (sort-filter (in_order key lt) in_order-IsOrder (after key lt cursor) rows)

      beyond-last :
          (cursor : Option K) (x : A) (xs : List A)
          → take limit (beyond cursor) ≡ x ∷ xs
          → beyond (some (last_key key lt x xs)) ≡ drop limit (beyond cursor)
      beyond-last cursor x xs e =
          let kept : All (λ y. after key lt cursor y ≡ true) (x ∷ xs) =
            subst (All (λ y. after key lt cursor y ≡ true)) e
              (All-take _ limit (beyond cursor) (All-filter (after key lt cursor) _)) in
          let whole = take-append-drop limit (beyond cursor) in
          sym (after-after_last cursor (sort (in_order key lt) rows) x xs kept)
          ∙ ap (filter (after key lt (some (last_key key lt x xs)))) (sym whole)
          ∙ page-drop limit (take limit (beyond cursor)) (drop limit (beyond cursor)) x xs e
              (subst IsAscending (sym whole) (IsAscending-filter (after key lt cursor) _ ascending))

      fewer :
          {fuel : ℕ} (items : List A) (x : A) (xs next : List A)
          → take limit items ≡ x ∷ xs
          → next ≡ drop limit items
          → length items < suc fuel
          → length next < fuel
      fewer items x xs next e f h =
          let shown : length (take limit items) ≡ suc (length xs) = ap length e in
          let later : length next ≡ length (drop limit items) = ap length f in
          let whole : length (take limit items ++ drop limit items) ≡ length items =
            ap length (take-append-drop limit items) in
          omega (arith, shown, later, whole, h, length-append (take limit items) (drop limit items))

      pub walk-beyond :
          (fuel : ℕ) (cursor : Option K)
          → length (beyond cursor) < fuel
          → walk key lt fuel limit cursor rows ≡ beyond cursor
      unfolding walk
      walk-beyond zero cursor h = ground arith
      walk-beyond (suc fuel) cursor h =
          rw (page-eq_take cursor, walk)
            (page-then_rest limit (beyond cursor) (take limit (beyond cursor))
              (λ k. walk key lt fuel limit (some k) rows) positive refl
              (λ x xs e.
                let next = beyond-last cursor x xs e in
                walk-beyond fuel (some (last_key key lt x xs))
                  (fewer (beyond cursor) x xs _ e next h)
                ∙ next))

      -- The pages that the cursors lead through are all of the result, in order and once.
      pub walk-all :
          (fuel : ℕ) (cursor : Option K)
          → length rows < fuel
          → walk key lt fuel limit cursor rows
            ≡ sort (in_order key lt) (filter (after key lt cursor) rows)
      walk-all fuel cursor h =
          walk-beyond fuel cursor (
            omega (
              arith,
              h,
              count-le-length (after key lt cursor) (sort (in_order key lt) rows),
              length-filter (after key lt cursor) (sort (in_order key lt) rows),
              length-sort (in_order key lt) rows,
            ))
          ∙ sym (sort-filter (in_order key lt) in_order-IsOrder (after key lt cursor) rows)

    -- Rows with distinct ids, of which the keys tell any two apart, are ascending once sorted.
    module _ (ident : A → ℕ)
        (apart : (x y : A)
          → (ident y == ident x) ≡ false
          → lt (key y) (key x) ≡ false
          → lt (key x) (key y) ≡ true) where
      IsSorted-IsAscending :
          (xs : List A) → Distinct ident xs → IsSorted (in_order key lt) xs → IsAscending xs
      IsSorted-IsAscending [] d h = tt
      IsSorted-IsAscending (x ∷ xs) d h = (
        All-implies _ _ xs (λ y e. apart x y e.0 (ground (arith, e)))
            (All-zip (λ y. (ident y == ident x) ≡ false) (λ y. in_order key lt x y ≡ true) xs
              (All-of_any-false (λ y. ident y == ident x) xs d.0) h.0),
        IsSorted-IsAscending xs d.1 h.1,
      )

      pub IsAscending-sort :
          (rows : List A) → Distinct ident rows → IsAscending (sort (in_order key lt) rows)
      IsAscending-sort rows d =
          IsSorted-IsAscending (sort (in_order key lt) rows)
            (Distinct-sort ident (in_order key lt) rows d) (sort-IsSorted in_order-IsOrder rows)
