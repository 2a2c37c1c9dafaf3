-- ===== src/Outbox/Relay/Backoff.antt =====
-- The delay before a retry, and when computing it raises.
use native.Mathlib.Nat.{pow-succ', pow-le-pow_right, mul-le-mul_left, le_trans}
use starter_template_fastapi.Base.{
  ℕ, ◌+◌, ◌-◌, ◌*◌, ◌^◌, ◌≤◌, ◌<◌, ◌≡◌, ◌≢◌, refl, ap, ◌∙◌, inl, inr, Bool-cases, String, Bool,
  Option, none, some, List, [], ◌∷◌, arith, min, leb, length,
}
use starter_template_fastapi.Base.Clock.{timedelta_max, datetime_max}
use starter_template_fastapi.Base.Json.{Fields}
use starter_template_fastapi.Outbox.Message.{Message}
use starter_template_fastapi.Outbox.Repository.{claim_batch}
use starter_template_fastapi.Outbox.Relay.Steps.{dispatch_rows-cons, dispatch_rows_raise}
use starter_template_fastapi.Outbox.Relay.{
  RelayTickReport, Config, RowResult, overflow_error, TickResult, report, World, add_row, retry_at,
  dispatched_payload, handle_failure, after_enqueue, dispatch_row, dispatch_rows, execute,
}

base_pos : (base k : ℕ) → 0 < base → 0 < base * 2 ^ k
base_pos base k h =
    let p : 0 < 2 ^ k = pow-le-pow_right (omega arith) {i = 0} {j = k} (omega arith) in grind arith

-- With a positive base and cap, a retry that is representable is set later than now, by no more than
-- the cap and by no more than the doubled base.
pub retry_at_bounds :
    (cfg : Config) (now attempts : ℕ) {at : ℕ}
    → 0 < cfg.retry_base
    → 0 < cfg.retry_max
    → retry_at cfg now attempts ≡ some at
    → (now < at) × (at ≤ now + cfg.retry_max) × (at ≤ now + cfg.retry_base * 2 ^ (attempts - 1))
unfolding retry_at
retry_at_bounds cfg now attempts {at} b m e =
    let delay : 0 < cfg.retry_base * 2 ^ (attempts - 1) =
      base_pos cfg.retry_base (attempts - 1) b in
    ground arith

retry_at-eq :
    (cfg : Config) (now attempts n : ℕ) {at : ℕ}
    → attempts - 1 ≡ n
    → retry_at cfg now attempts ≡ some at
    → at ≡ now + min (cfg.retry_base * 2 ^ n) cfg.retry_max
unfolding retry_at
retry_at-eq cfg now attempts n {at} same e =
    let exact : at ≡ now + min (cfg.retry_base * 2 ^ (attempts - 1)) cfg.retry_max = ground arith in
    exact ∙ ap (λ k. now + min (cfg.retry_base * 2 ^ k) cfg.retry_max) same

two_pow-suc : (n : ℕ) → 2 ^ (n + 1) ≡ 2 ^ n * 2
two_pow-suc n = let same = pow-succ' 2 n in grind arith

double_capped :
    (base power cap delay : ℕ)
    → delay ≡ min (base * power) cap
    → min (base * (power * 2)) cap ≡ min (2 * delay) cap
double_capped base power cap delay e = grind arith

-- With a positive base and cap, and for retries that are representable, the delay doubles with each try
-- up to the cap: the first retry waits for the base, or the cap if that is less, each for no longer than the
-- cap, and the one after it for twice as long, or the cap; and it is set later than now.
pub retry_at-doubles :
    (cfg : Config) (now n : ℕ) {first at next : ℕ}
    → 0 < cfg.retry_base
    → 0 < cfg.retry_max
    → retry_at cfg now 1 ≡ some first
    → retry_at cfg now (n + 1) ≡ some at
    → retry_at cfg now (n + 2) ≡ some next
    → (first ≡ now + min cfg.retry_base cfg.retry_max)
      × (now < at)
      × (at ≤ now + cfg.retry_max)
      × (next ≡ now + min (2 * (at - now)) cfg.retry_max)
retry_at-doubles cfg now n {first} {at} {next} b m e f g =
    let (later, capped, _) = retry_at_bounds cfg now (n + 1) b m f in
    let waited : at - now ≡ min (cfg.retry_base * 2 ^ n) cfg.retry_max =
      omega (arith, retry_at-eq cfg now (n + 1) n (omega arith) f) in
    let base : cfg.retry_base * 2 ^ 0 ≡ cfg.retry_base = grind arith in
    (
      (let eq = retry_at-eq cfg now 1 0 (omega arith) e in rw base at eq),
      later,
      capped,
      retry_at-eq cfg now (n + 2) (n + 1) (omega arith) g
          ∙ ap (λ d. now + d)
              (ap (λ k. min (cfg.retry_base * k) cfg.retry_max) (two_pow-suc n)
                ∙ double_capped cfg.retry_base (2 ^ n) cfg.retry_max (at - now) waited),
    )

-- Up to `max_attempts` the power stays below the one that the condition bounds.
power_bound :
    (cfg : Config) (attempts : ℕ)
    → attempts < cfg.max_attempts
    → cfg.retry_base * 2 ^ (attempts - 1) ≤ cfg.retry_base * 2 ^ (cfg.max_attempts - 2)
power_bound cfg attempts h =
    mul-le-mul_left cfg.retry_base (pow-le-pow_right (omega arith) (omega arith))

module _ (cfg : Config) (now : ℕ)
    (fits : cfg.retry_base * 2 ^ (cfg.max_attempts - 2) ≤ timedelta_max)
    (late : now + cfg.retry_max ≤ datetime_max) where
  retry_at-some :
      (attempts : ℕ)
      → attempts < cfg.max_attempts
      → (at : ℕ) × (retry_at cfg now attempts ≡ some at)
  unfolding retry_at
  retry_at-some attempts h =
      let small : cfg.retry_base * 2 ^ (attempts - 1) ≤ timedelta_max =
        le_trans (power_bound cfg attempts h) fits in
      (now + min (cfg.retry_base * 2 ^ (attempts - 1)) cfg.retry_max, ground arith)

  module _ {Q : Type 0} (enqueue : String → Fields → Q → Q × Option String)
      (str_uuid : ℕ → String) where
    handle_failure-ne-overflow :
        (row : Message) (exc : String) (w : World Q)
        → (handle_failure enqueue str_uuid cfg now row exc w).0 ≢ overflow_error
    unfolding handle_failure
    handle_failure-ne-overflow row exc w =
        elim (Bool-cases (leb cfg.max_attempts (row.attempts + 1))) [
          | inl e ↦ rw e (λ p. cc)
          | inr e ↦
              let (at, p) = retry_at-some (row.attempts + 1) (ground arith) in rw (e, p) (λ q. cc)
        ]

    after_enqueue-ne-overflow :
        (row : Message) (answer : Q × Option String) (w : World Q)
        → (after_enqueue enqueue str_uuid cfg now row answer w).0 ≢ overflow_error
    after_enqueue-ne-overflow row (queue, none) w = λ p. cc
    after_enqueue-ne-overflow row (queue, some exc) w = handle_failure-ne-overflow row exc _

    dispatch_row-ne-overflow :
        (row : Message) (w : World Q)
        → (dispatch_row enqueue str_uuid cfg now row w).0 ≢ overflow_error
    unfolding dispatch_row
    dispatch_row-ne-overflow row w = after_enqueue-ne-overflow row _ w

    dispatch_rows-report :
        (rows : List Message) (tally : RelayTickReport) (w : World Q)
        → (t : RelayTickReport) × ((dispatch_rows enqueue str_uuid cfg now rows tally w).0
            ≡ report t)
    unfolding dispatch_rows
    dispatch_rows-report [] tally w = (tally, refl)
    dispatch_rows-report (row ∷ rows) tally w =
        let no_raise = dispatch_row-ne-overflow row w in
        let w' = (dispatch_row enqueue str_uuid cfg now row w).1 in
        let r = (dispatch_row enqueue str_uuid cfg now row w).0 in
        let (t, e) = dispatch_rows-report rows (add_row r tally) w' in
        (
          t,
          ap (λ (p : TickResult × World Q). p.0)
                (dispatch_rows-cons enqueue str_uuid cfg now row rows tally w no_raise)
              ∙ e,
        )

    -- If the doubled base fits a timedelta up to the last retry, and the latest retry a datetime, a
    -- tick always ends with its report, whatever the queue answers and whatever rows it claims.
    pub execute-report :
        (locked : ℕ → Bool) (w : World Q)
        → (t : RelayTickReport) × ((execute enqueue str_uuid cfg now locked w).0 ≡ report t)
    unfolding execute
    execute-report locked w =
        let (claimed, db) = claim_batch locked now cfg.batch_size cfg.worker_id w.db in
        dispatch_rows-report claimed
          (record { claimed = length claimed; dispatched = 0; retried = 0; failed = 0 })
          (record w { db = db })

retry_at-none :
    (cfg : Config) (now attempts : ℕ)
    → timedelta_max < cfg.retry_base * 2 ^ attempts
    → retry_at cfg now (attempts + 1) ≡ none
unfolding retry_at
retry_at-none cfg now attempts big =
    let same : attempts + 1 - 1 ≡ attempts = omega arith in rw (same, retry_at) (ground arith)

row_overflow :
    {Q : Type 0} (enqueue : String → Fields → Q → Q × Option String) (str_uuid : ℕ → String)
    (cfg : Config) (now : ℕ) (row : Message) (w : World Q) {queue : Q} {exc : String}
    → enqueue row.job_name (dispatched_payload enqueue str_uuid cfg now row) w.queue
      ≡ (queue, some exc)
    → row.attempts + 1 < cfg.max_attempts
    → timedelta_max < cfg.retry_base * 2 ^ row.attempts
    → dispatch_row enqueue str_uuid cfg now row w ≡ (overflow_error, record w { queue = queue })
unfolding dispatch_row handle_failure
row_overflow enqueue str_uuid cfg now row w e tries big =
    rw e (ground (arith, retry_at-none cfg now row.attempts big))

-- If the queue raises at a row that has tries left, and the doubled base exceeds a timedelta, the
-- exception handler itself raises: the loop stops, the row keeps its state, and the rows behind it
-- are not dispatched.
pub dispatch_rows-overflow :
    {Q : Type 0} (enqueue : String → Fields → Q → Q × Option String) (str_uuid : ℕ → String)
    (cfg : Config) (now : ℕ) (row : Message) (rows : List Message) (tally : RelayTickReport)
    (w : World Q) {queue : Q} {exc : String}
    → enqueue row.job_name (dispatched_payload enqueue str_uuid cfg now row) w.queue
      ≡ (queue, some exc)
    → row.attempts + 1 < cfg.max_attempts
    → timedelta_max < cfg.retry_base * 2 ^ row.attempts
    → dispatch_rows enqueue str_uuid cfg now (row ∷ rows) tally w
      ≡ (overflow_error, record w { queue = queue })
dispatch_rows-overflow {Q} enqueue str_uuid cfg now row rows tally w {queue} {exc} e tries big =
    let raised = row_overflow enqueue str_uuid cfg now row w e tries big in
    dispatch_rows_raise enqueue str_uuid cfg now row rows tally w
      (ap (λ (p : RowResult × World Q). p.0) raised)
    ∙ ap (λ (p : RowResult × World Q). (overflow_error, p.1)) raised
