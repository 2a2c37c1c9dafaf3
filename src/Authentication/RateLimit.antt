-- ===== src/Authentication/RateLimit.antt =====
-- `FixedWindowRateLimiter` of src/features/authentication/application/rate_limit.py. Times are in
-- microseconds of `time.monotonic`; one reading serves a call, also for the cache, whose timer is
-- the same clock.
pub mod Counts
pub mod Window
mod Tests
use starter_template_fastapi.Base.{
  ℕ, ◌+◌, String, Bool, true, false, ◌&&◌, Option, none, some, List, [], ◌∷◌, ◌++◌, str_eq, leb,
  if◌then◌else◌, length, filter,
}
use starter_template_fastapi.Base.Clock.{seconds}

pub record Limiter : Type 0 where
  pub max_attempts : ℕ
  pub window_seconds : ℕ
  pub maxsize : ℕ

abbrev pub window : Limiter → ℕ
window l = seconds l.window_seconds

-- The `ttl` of the cache: the window and _FIXED_WINDOW_TTL_SLACK_SECONDS.
abbrev pub ttl : Limiter → ℕ
ttl l = seconds (l.window_seconds + 60)

-- ts >= now - window
abbrev pub in_window : ℕ → ℕ → ℕ → Bool
in_window window now ts = leb now (ts + window)

-- self._attempts.get(key, [])
abbrev pub or_empty : Option (List ℕ) → List ℕ
or_empty none = []
or_empty (some attempts) = attempts

-- `get` and `set` are `cachetools.TTLCache`'s, of the limiter's `maxsize` and `ttl`, at the time of its
-- timer.
module _ {C : Type 0} (get : String → ℕ → C → Option (List ℕ)) (set : String → List ℕ → ℕ → C → C)
    (l : Limiter) where
  -- `false` is RateLimitExceededError.
  unfoldable pub check : ℕ → String → C → Bool × C
  check now key cache =
      let attempts = filter (in_window (window l) now) (or_empty (get key now cache)) in
      if leb l.max_attempts (length attempts)
      then (false, set key attempts now cache)
      else (true, set key (attempts ++ now ∷ []) now cache)

  -- The times at which calls for the key `k` are let through, of a sequence of calls.
  unfoldable pub admitted : String → List (ℕ × String) → C → List ℕ
  admitted k [] cache = []
  admitted k ((now, key) ∷ calls) cache =
      let (passes, cache') = check now key cache in
      let times = admitted k calls cache' in if passes && str_eq key k then now ∷ times else times
