-- ===== src/Outbox/Producer.antt =====
-- What writes to the outbox besides the relay: `SessionSQLModelOutboxAdapter.enqueue` and
-- `retry_failed` of src/features/outbox/management.py.
use starter_template_fastapi.Base.{
  ℕ, String, Bool, true, false, Option, none, some, [], ◌∷◌, ◌++◌, map, count, if◌then◌else◌,
}
use starter_template_fastapi.Base.Json.{Fields}
use starter_template_fastapi.Outbox.Message.{pending, Row, Db}
use starter_template_fastapi.Outbox.Repository.{is_failed}

-- A datetime with its `tzinfo`, by whether it has one.
pub record Instant : Type 0 where
  pub at : ℕ
  pub aware : Bool

pub data EnqueueResult : Type 0 where
  staged : Row → EnqueueResult
  value_error : EnqueueResult

abbrev available : ℕ → Option Instant → ℕ
available now none = now
available now (some t) = t.at

abbrev naive : Option Instant → Bool
naive none = false
naive (some t) = if t.aware then false else true

-- `enqueue`: `id` and `now` are what the column defaults `uuid4` and `_utc_now` return, and `carrier`
-- is what `propagator_inject_current` returns. The row is staged on the session of the caller.
unfoldable pub enqueue : ℕ → ℕ → Fields → String → Fields → Option Instant → EnqueueResult
enqueue id now carrier job_name payload available_at =
    if naive available_at
    then value_error
    else staged (record {
      id = id;
      job_name = job_name;
      payload = payload;
      trace_context = carrier;
      available_at = available now available_at;
      status = pending;
      attempts = 0;
      last_error = none;
      locked_at = none;
      locked_by = none;
      created_at = now;
      delivered_at = none;
      failed_at = none;
    })

-- The commit of the transaction that staged the row.
abbrev pub commit_row : Row → Db → Db
commit_row r db = record db { messages = db.messages ++ r ∷ [] }

abbrev pub rearmed_row : ℕ → Row → Row
rearmed_row now r = record r {
  status = pending;
  attempts = 0;
  last_error = none;
  available_at = now;
  locked_at = none;
  locked_by = none;
}

-- `retry_failed` returns the rowcount.
unfoldable pub retry_failed : ℕ → Db → ℕ × Db
retry_failed now db = (
  count (λ r. is_failed r.status) db.messages,
  record db {
    messages = map (λ r. if is_failed r.status then rearmed_row now r else r) db.messages;
  },
)
