-- ===== src/Authentication/RateLimit/Window.antt =====
-- The calls of a key that the limiter admits in a period as long as its window.
use starter_template_fastapi.Base.{
  ℕ, ◌+◌, ◌≤◌, ◌<◌, ◌≡◌, refl, sym, ◌∙◌, inl, inr, String, true, false, Option, none, some, List,
  [], ◌∷◌, ◌++◌, ◌⊎◌, arith, str_eq, str_eq_iff, leb, length, filter, count, All, All-implies,
  length-filter, Bool-cases, any,
}
use starter_template_fastapi.Base.Dict.{str_eq_self}
use starter_template_fastapi.Authentication.RateLimit.{
  Limiter, window, ttl, in_window, or_empty, check, admitted,
}
use starter_template_fastapi.Authentication.RateLimit.Counts.{
  within, count-filter, count-append_one, count_old, within-le,
}

-- What the limiter relies on of the cache. `written_only keys c` says that no key has been written to the
-- cache since it was made but those of `keys`. As long as these are at most `maxsize`, nothing is evicted: an
-- entry is found until its time to live is over, and a write to one key leaves the others. An entry is
-- not found after its time to live. Of a cache that more keys were written to nothing is said.
pub record IsCache {C : Type 0} (get : String → ℕ → C → Option (List ℕ))
    (set : String → List ℕ → ℕ → C → C) (made : C) (maxsize ttl : ℕ) : Type 1 where
  pub written_only : List String → C → Type 0
  pub made_empty : (k : String) (t : ℕ) → get k t made ≡ none
  pub made_only : (keys : List String) → written_only keys made
  pub set_only :
      (keys : List String) (k : String) (v : List ℕ) (now : ℕ) (c : C)
      → any (str_eq k) keys ≡ true
      → written_only keys c
      → written_only keys (set k v now c)
  pub hit :
      (keys : List String) (k : String) (v : List ℕ) (now t : ℕ) (c : C)
      → length keys ≤ maxsize
      → written_only keys (set k v now c)
      → now ≤ t
      → t < now + ttl
      → get k t (set k v now c) ≡ some v
  pub expired :
      (k : String) (v : List ℕ) (now t : ℕ) (c : C) → now + ttl ≤ t → get k t (set k v now c) ≡ none
  pub other :
      (keys : List String) (j k : String) (v : List ℕ) (now t : ℕ) (c : C)
      → length keys ≤ maxsize
      → written_only keys (set j v now c)
      → str_eq j k ≡ false
      → get k t (set j v now c) ≡ get k t c

-- The calls come in the order of time, from `start` on.
abbrev pub InOrder : ℕ → List (ℕ × String) → Type 0
InOrder start [] = Unit
InOrder start ((now, key) ∷ calls) = (start ≤ now) × InOrder now calls

module _ {C : Type 0} (get : String → ℕ → C → Option (List ℕ)) (set : String → List ℕ → ℕ → C → C)
    (made : C) (l : Limiter) (laws : IsCache get set made l.maxsize (ttl l)) (k : String)
    (keys : List String) (few : length keys ≤ l.maxsize) where
  -- The cache knows, of the times `past` at which the key was let through, those that still count.
  record Knows (past : List ℕ) (now : ℕ) (cache : C) : Type 0 where
    older : All (λ ts. ts ≤ now) past
    known :
        (at t : ℕ)
        → now ≤ at
        → at ≤ t
        → count (in_window (window l) t) (or_empty (get k at cache))
          ≡ count (in_window (window l) t) past
    only : laws.written_only keys cache
    bound : (t : ℕ) → count (within (window l) t) past ≤ l.max_attempts

  later :
      (past : List ℕ) (start now : ℕ)
      → start ≤ now
      → All (λ ts. ts ≤ start) past
      → All (λ ts. ts ≤ now) past
  later past start now h = All-implies _ _ past (λ ts e. omega arith)

  -- An entry that is written with the attempts that count is known.
  set-known :
      (past attempts : List ℕ) (now : ℕ) (cache : C)
      → laws.written_only keys (set k attempts now cache)
      → All (λ ts. ts ≤ now) past
      → ((t : ℕ)
          → now ≤ t
          → count (in_window (window l) t) attempts ≡ count (in_window (window l) t) past)
      → (at t : ℕ) → now ≤ at
      → at ≤ t
      → count (in_window (window l) t) (or_empty (get k at (set k attempts now cache)))
        ≡ count (in_window (window l) t) past
  set-known past attempts now cache only older same at t h h' =
      elim (Bool-cases (leb (now + ttl l) at)) [
        | inl gone ↦
            rw (laws.expired k attempts now at cache (ground arith))
              (sym (count_old (window l) now t past older (ground arith)))
        | inr there ↦
            rw (laws.hit keys k attempts now at cache few only h (ground arith))
              (same t (omega arith))
      ]

  module _ (past : List ℕ) (start now : ℕ) (cache : C) (before : start ≤ now)
      (knows : Knows past start cache) where
    -- The attempts that `check` counts.
    attempts : List ℕ
    attempts = filter (in_window (window l) now) (or_empty (get k now cache))

    attempts-count :
        (t : ℕ)
        → now ≤ t
        → count (in_window (window l) t) attempts ≡ count (in_window (window l) t) past
    unfolding attempts
    attempts-count t h =
        count-filter (window l) now t (or_empty (get k now cache)) h ∙ knows.known now t before h

    attempts-length : length attempts ≡ count (in_window (window l) now) past
    unfolding attempts
    attempts-length =
        length-filter (in_window (window l) now) (or_empty (get k now cache))
        ∙ knows.known now now before (omega arith)

    older_now : All (λ ts. ts ≤ now) past
    older_now = later past start now before knows.older

    only_now :
        (j : String) (v : List ℕ)
        → any (str_eq j) keys ≡ true
        → laws.written_only keys (set j v now cache)
    only_now j v mine = laws.set_only keys j v now cache mine knows.only

    Knows-refuse : any (str_eq k) keys ≡ true → Knows past now (set k attempts now cache)
    Knows-refuse mine = record {
      older = older_now;
      only = only_now k attempts mine;
      known = set-known past attempts now cache (only_now k attempts mine) older_now attempts-count;
      bound = knows.bound;
    }

    Knows-admit :
        any (str_eq k) keys ≡ true
        → length attempts < l.max_attempts
        → Knows (now ∷ past) now (set k (attempts ++ now ∷ []) now cache)
    Knows-admit mine room = record {
      older = (omega arith, older_now);
      only = only_now k (attempts ++ now ∷ []) mine;
      known =
          set-known (now ∷ past) (attempts ++ now ∷ []) now cache
            (only_now k (attempts ++ now ∷ []) mine) (omega arith, older_now)
            (λ t h. ground (arith, count-append_one (window l) t now attempts, attempts-count t h));
      bound = λ t. ground (arith, knows.bound t, attempts-length, within-le (window l) now t past);
    }

    Knows-other :
        (j : String) (v : List ℕ)
        → any (str_eq j) keys ≡ true
        → str_eq j k ≡ false
        → Knows past now (set j v now cache)
    Knows-other j v mine ne = record {
      older = older_now;
      only = only_now j v mine;
      known = λ at t h h'.
          rw (laws.other keys j k v now at cache few (only_now j v mine) ne)
            (knows.known at t (omega arith) h');
      bound = knows.bound;
    }

    -- How a call of the key ends, and what the cache then knows.
    check-Knows :
        any (str_eq k) keys ≡ true
        → ((check get set l now k cache).0 ≡ false) × Knows past now (check get set l now k cache).1
          ⊎ ((check get set l now k cache).0 ≡ true)
            × Knows (now ∷ past) now (check get set l now k cache).1
    unfolding check attempts
    check-Knows mine = elim (Bool-cases (leb l.max_attempts (length attempts))) [
      | inl full ↦ inl (rw full refl, rw full (Knows-refuse mine))
      | inr room ↦ inr (rw room refl, rw room (Knows-admit mine (ground arith)))
    ]

    check-Knows_other :
        (j : String)
        → any (str_eq j) keys ≡ true
        → str_eq j k ≡ false
        → Knows past now (check get set l now j cache).1
    unfolding check
    check-Knows_other j mine ne =
        elim (Bool-cases (
          leb l.max_attempts
            (length (filter (in_window (window l) now) (or_empty (get j now cache)))))) [
              | inl full ↦ rw full (Knows-other j _ mine ne)
              | inr room ↦ rw room (Knows-other j _ mine ne)
            ]

  admitted-Knows :
      (calls : List (ℕ × String)) (past : List ℕ) (start : ℕ) (cache : C) (t : ℕ)
      → Knows past start cache
      → InOrder start calls
      → All (λ c. any (str_eq c.1) keys ≡ true) calls
      → count (within (window l) t) past
          + count (within (window l) t) (admitted get set l k calls cache)
        ≤ l.max_attempts
  unfolding admitted
  admitted-Knows [] past start cache t knows order mine = omega (arith, knows.bound t)
  admitted-Knows ((now, key) ∷ calls) past start cache t knows order mine =
      elim (Bool-cases (str_eq key k)) [
        | inr miss ↦ rw miss (
            ground (
              arith,
              admitted-Knows calls past now (check get set l now key cache).1 t
                  (check-Knows_other past start now cache order.0 knows key mine.0 miss) order.1
                  mine.1,
            ))
        | inl hit ↦
            let same : key ≡ k = (str_eq_iff key k).0 hit in
            let listed : any (str_eq key) keys ≡ true = mine.0 in
            elim (check-Knows past start now cache order.0 knows (rw same at listed)) [
              | inl (refused, after) ↦
                  rw (same, refused)
                    (admitted-Knows calls past now (check get set l now k cache).1 t after order.1
                      mine.1)
              | inr (passed, after) ↦
                  rw (same, passed, str_eq_self k)
                    (ground (
                      arith,
                      admitted-Knows calls (now ∷ past) now (check get set l now k cache).1 t after
                          order.1 mine.1,
                    ))
            ]
      ]

  -- Of calls in the order of time, on a cache that was just made, and of no more keys in all than the
  -- cache's `maxsize`, the limiter admits at most `max_attempts` of a key in any period as long as its
  -- window, if the cache then keeps its entries for their time to live.
  pub admitted-window :
      (calls : List (ℕ × String)) (start t : ℕ)
      → All (λ c. any (str_eq c.1) keys ≡ true) calls
      → InOrder start calls
      → count (within (window l) t) (admitted get set l k calls made) ≤ l.max_attempts
  admitted-window calls start t mine order = omega (
    arith,
    admitted-Knows calls [] start made t
        (record {
          older = tt;
          known = λ at n h h'. rw (laws.made_empty k at) refl;
          only = laws.made_only keys;
          bound = λ n. omega arith;
        })
        order mine,
  )
