-- ===== src/Base/Clock.antt =====
-- `datetime` and `timedelta` of the standard library, in microseconds: an instant counts from
-- `datetime.min`, and a duration is not negative. Arithmetic that leaves the range of the type
-- raises OverflowError, which is `none` here.
use starter_template_fastapi.Base.{ℕ, ◌+◌, ◌-◌, ◌*◌, Option, none, some, leb, if◌then◌else◌}

-- timedelta.max: 999999999 days, 23:59:59.999999
abbrev pub timedelta_max : ℕ
timedelta_max = 86399999999999999999

-- datetime.max: 9999-12-31 23:59:59.999999
abbrev pub datetime_max : ℕ
datetime_max = 315537897599999999

abbrev pub seconds : ℕ → ℕ
seconds n = n * 1000000

abbrev pub days : ℕ → ℕ
days n = n * 86400000000

-- delta * factor
unfoldable pub mul_delta : ℕ → ℕ → Option ℕ
mul_delta delta factor = if leb (delta * factor) timedelta_max then some (delta * factor) else none

-- instant + delta
unfoldable pub add_time : ℕ → ℕ → Option ℕ
add_time instant delta = if leb (instant + delta) datetime_max then some (instant + delta) else none

-- instant - delta
unfoldable pub sub_time : ℕ → ℕ → Option ℕ
sub_time instant delta = if leb delta instant then some (instant - delta) else none
