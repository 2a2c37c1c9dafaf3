-- ===== src/Authentication/RateLimit/Counts.antt =====
-- How many times fall in a window, of the attempts that a limiter keeps.
use starter_template_fastapi.Base.{
  ℕ, ◌+◌, ◌≤◌, ◌<◌, ◌≡◌, refl, Bool, ◌&&◌, List, [], ◌∷◌, ◌++◌, arith, leb, filter, count, All,
}
use starter_template_fastapi.Authentication.RateLimit.{in_window}

-- The times in the window that begins at `t`.
abbrev pub within : ℕ → ℕ → ℕ → Bool
within window t ts = leb t ts && leb ts (t + window)

module _ (w : ℕ) where
  pub count-filter :
      (now t : ℕ) (xs : List ℕ)
      → now ≤ t
      → count (in_window w t) (filter (in_window w now) xs) ≡ count (in_window w t) xs
  count-filter now t [] h = refl
  count-filter now t (x ∷ xs) h = ground (arith, count-filter now t xs h)

  pub count-append_one :
      (t x : ℕ) (xs : List ℕ)
      → count (in_window w t) (xs ++ x ∷ []) ≡ count (in_window w t) (x ∷ xs)
  count-append_one t x [] = refl
  count-append_one t x (y ∷ xs) = ground (arith, count-append_one t x xs)

  -- Attempts that are all older than the window do not count.
  pub count_old :
      (now t : ℕ) (xs : List ℕ)
      → All (λ ts. ts ≤ now) xs
      → now + w < t
      → count (in_window w t) xs ≡ 0
  count_old now t [] h k = refl
  count_old now t (x ∷ xs) h k = ground (arith, count_old now t xs h.1 k)

  -- What a window that reaches `now` holds is recent at `now`.
  pub within-le :
      (now t : ℕ) (xs : List ℕ) → now ≤ t + w → count (within w t) xs ≤ count (in_window w now) xs
  within-le now t [] h = omega arith
  within-le now t (x ∷ xs) h = ground (arith, within-le now t xs h)
