-- ===== src/Authentication/RateLimit/Tests.antt =====
-- The limiter's theorem at a cache of functions, with two tries in ten seconds.
use starter_template_fastapi.Base.{
  ℕ, ◌+◌, ◌≤◌, ◌≡◌, refl, String, Option, none, some, List, [], ◌∷◌, arith, str_eq, leb,
  if◌then◌else◌, count,
}
use starter_template_fastapi.Base.Clock.{seconds}
use starter_template_fastapi.Base.Dict.{str_eq_self}
use starter_template_fastapi.Authentication.RateLimit.{Limiter, window, ttl, check, admitted}
use starter_template_fastapi.Authentication.RateLimit.Counts.{within}
use starter_template_fastapi.Authentication.RateLimit.Window.{IsCache, admitted-window}

abbrev limiter : Limiter
limiter = record { max_attempts = 2; window_seconds = 10; maxsize = 2 }

abbrev Cache : Type 0
Cache = String → Option (List ℕ × ℕ)

abbrev fresh_entry : ℕ → Option (List ℕ × ℕ) → Option (List ℕ)
fresh_entry t none = none
fresh_entry t (some (v, at)) = if leb (at + ttl limiter) t then none else some v

abbrev get : String → ℕ → Cache → Option (List ℕ)
get k t c = fresh_entry t (c k)

abbrev set : String → List ℕ → ℕ → Cache → Cache
set k v at c = λ j. if str_eq k j then some (v, at) else c j

abbrev empty : Cache
empty k = none

get-set-IsCache : IsCache get set empty limiter.maxsize (ttl limiter)
get-set-IsCache = record {
  written_only = λ keys c. Unit;
  made_empty = λ k t. refl;
  made_only = λ keys. tt;
  set_only = λ keys k v now c mine only. tt;
  hit = λ keys k v now t c few only h h'. rw (str_eq_self k) (ground arith);
  expired = λ k v now t c h. rw (str_eq_self k) (ground arith);
  other = λ keys j k v now t c few only ne. rw ne refl;
}

abbrev calls : List (ℕ × String)
calls =
    (seconds 1, "a")
    ∷ (seconds 2, "a")
    ∷ (seconds 3, "b")
    ∷ (seconds 4, "a")
    ∷ (seconds 12, "a")
    ∷ []

-- The third call of the key is refused, and the fourth comes after the window of the first.
admitted_times : admitted get set limiter "a" calls empty ≡ seconds 1 ∷ seconds 2 ∷ seconds 12 ∷ []
unfolding admitted check
admitted_times = refl

admitted-window_example :
    count (within (window limiter) (seconds 1)) (admitted get set limiter "a" calls empty) ≤ 2
admitted-window_example =
    admitted-window get set empty limiter get-set-IsCache "a" ("a" ∷ "b" ∷ []) (omega arith) calls 0
      (seconds 1) (refl, (refl, (refl, (refl, (refl, tt)))))
      (omega arith, (omega arith, (omega arith, (omega arith, (omega arith, tt)))))
