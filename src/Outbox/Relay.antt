-- ===== src/Outbox/Relay.antt =====
-- src/features/outbox/application/use_cases/dispatch_pending.py: one tick of the relay.
pub mod Steps
pub mod AtId
pub mod Answer
pub mod Keeps
pub mod Outcome
pub mod Payload
pub mod Report
pub mod Backoff
use starter_template_fastapi.Base.{
  ℕ, ◌+◌, ◌-◌, ◌^◌, String, Bool, not, ◌&&◌, Option, none, some, List, [], ◌∷◌, leb, length, min,
  if◌then◌else◌,
}
use starter_template_fastapi.Base.Clock.{mul_delta, add_time}
use starter_template_fastapi.Base.Json.{
  Fields, text, object, has_key, put, set_default, is_nonempty,
}
use starter_template_fastapi.Outbox.Message.{Message, Db}
use starter_template_fastapi.Outbox.Repository.{
  claim_batch, mark_delivered, mark_retry, mark_failed,
}

abbrev pub message_id_key : String
message_id_key = "__outbox_message_id"

abbrev pub trace_key : String
trace_key = "__trace"

pub record RelayTickReport : Type 0 where
  pub claimed : ℕ
  pub dispatched : ℕ
  pub retried : ℕ
  pub failed : ℕ

-- The fields of `DispatchPending` that are values.
pub record Config : Type 0 where
  pub batch_size : ℕ
  pub max_attempts : ℕ
  pub worker_id : String
  pub retry_base : ℕ
  pub retry_max : ℕ

-- How one row ended, and what escapes from the loop.
pub data RowResult : Type 0 where
  dispatched retried failed overflow_error : RowResult

pub data TickResult : Type 0 where
  report : RelayTickReport → TickResult
  overflow_error : TickResult

-- The database, the job queue, and the counter OUTBOX_DISPATCHED_TOTAL by its attribute `result`.
pub record World (Q : Type 0) : Type 0 where
  pub db : Db
  pub queue : Q
  pub success_total : ℕ
  pub failure_total : ℕ

abbrev pub add_row : RowResult → RelayTickReport → RelayTickReport
add_row dispatched t = record t { dispatched = t.dispatched + 1 }
add_row retried t = record t { retried = t.retried + 1 }
add_row failed t = record t { failed = t.failed + 1 }
add_row overflow_error t = t

-- min(retry_base * 2 ** (next_attempts - 1), retry_max), then now + delay
unfoldable pub retry_at : Config → ℕ → ℕ → Option ℕ
unfolding mul_delta add_time
retry_at cfg now next_attempts = elim (mul_delta cfg.retry_base (2 ^ (next_attempts - 1))) [
  | none ↦ none
  | some delay ↦ add_time now (min delay cfg.retry_max)
]

-- `enqueue` is the job queue behind `JobQueuePort`: it returns the queue that it leaves, and the
-- `repr` of the exception if it raises. `str_uuid` is `str` of a UUID.
module _ {Q : Type 0} (enqueue : String → Fields → Q → Q × Option String) (str_uuid : ℕ → String)
    (cfg : Config) (now : ℕ) where
  unfoldable pub dispatched_payload : Message → Fields
  unfolding set_default has_key put is_nonempty
  dispatched_payload row =
      let payload = set_default message_id_key (text (str_uuid row.id)) row.payload in
      if is_nonempty row.trace_context && not (has_key trace_key payload)
      then put trace_key (object row.trace_context) payload
      else payload

  -- the `except` block
  unfoldable pub handle_failure : Message → String → World Q → RowResult × World Q
  handle_failure row exc w =
      let next_attempts = row.attempts + 1 in
      if leb cfg.max_attempts next_attempts
      then (
        failed,
        record w {
          db = mark_failed row.id next_attempts exc now w.db;
          failure_total = w.failure_total + 1;
        },
      )
      else elim (retry_at cfg now next_attempts) [
        | none ↦ (overflow_error, w)
        | some at ↦ (retried, record w { db = mark_retry row.id next_attempts exc at w.db })
      ]

  abbrev pub after_enqueue : Message → Q × Option String → World Q → RowResult × World Q
  after_enqueue row (queue, some exc) w = handle_failure row exc (record w { queue = queue })
  after_enqueue row (queue, none) w = (
    dispatched,
    record w {
      db = mark_delivered row.id now w.db;
      queue = queue;
      success_total = w.success_total + 1;
    },
  )

  -- the body of `for row in claimed`
  unfoldable pub dispatch_row : Message → World Q → RowResult × World Q
  dispatch_row row w = after_enqueue row (enqueue row.job_name (dispatched_payload row) w.queue) w

  unfoldable pub dispatch_rows : List Message → RelayTickReport → World Q → TickResult × World Q
  dispatch_rows [] tally w = (report tally, w)
  dispatch_rows (row ∷ rows) tally w =
      let (result, w') = dispatch_row row w in
      elim result [
        | overflow_error ↦ (overflow_error, w')
        | dispatched ↦ dispatch_rows rows (add_row dispatched tally) w'
        | retried ↦ dispatch_rows rows (add_row retried tally) w'
        | failed ↦ dispatch_rows rows (add_row failed tally) w'
      ]

  -- `execute`; `locked` tells the rows that other transactions hold while the claim runs.
  unfoldable pub execute : (ℕ → Bool) → World Q → TickResult × World Q
  execute locked w =
      let (claimed, db) = claim_batch locked now cfg.batch_size cfg.worker_id w.db in
      dispatch_rows claimed
        (record { claimed = length claimed; dispatched = 0; retried = 0; failed = 0 })
        (record w { db = db })
