-- ===== src/Outbox/Tests/Relay.antt =====
-- The relay's theorems at the example tables.
use starter_template_fastapi.Base.{
  ℕ, ◌+◌, ◌-◌, ◌*◌, ◌≤◌, ◌<◌, ◌≡◌, refl, String, none, some, List, [], ◌∷◌, arith, if◌then◌else◌,
  length, min,
}
use starter_template_fastapi.Base.Json.{end, field, text, get, has_key}
use starter_template_fastapi.Outbox.Message.{pending, Message}
use starter_template_fastapi.Outbox.Repository.{claim_batch}
use starter_template_fastapi.Outbox.Relay.{
  Config, RelayTickReport, report, World, retry_at, dispatched_payload, execute, dispatch_rows,
  overflow_error, dispatch_row, handle_failure,
}
use starter_template_fastapi.Outbox.Relay.Answer.{AllEnd, all_handed}
use starter_template_fastapi.Outbox.Relay.AtId.{at_id}
use starter_template_fastapi.Outbox.Relay.Outcome.{execute-resolves, execute-keeps}
use starter_template_fastapi.Outbox.Relay.Report.{execute-accounts}
use starter_template_fastapi.Outbox.Relay.Payload.{added, get-dispatched_payload}
use starter_template_fastapi.Outbox.Relay.Backoff.{
  execute-report, dispatch_rows-overflow, retry_at-doubles,
}
use starter_template_fastapi.Outbox.Tests.Data.{
  messages-Distinct, row, log_job, no_text, unlocked, settings, messages, tables, world,
}

abbrev tick : RelayTickReport
tick = record { claimed = 3; dispatched = 1; retried = 1; failed = 1 }

abbrev after : World (List String)
after = (execute log_job no_text settings 10 unlocked world).1

abbrev claimed : List Message
claimed = (claim_batch unlocked 10 3 "host:1" tables).0

tick_runs : execute log_job no_text settings 10 unlocked world ≡ (report tick, after)
unfolding execute dispatch_rows claim_batch dispatch_row handle_failure retry_at
tick_runs = refl

-- The log of the queue, and the status counters, after the tick.
after_queue : after.queue ≡ "mail" ∷ []
unfolding execute dispatch_rows claim_batch dispatch_row handle_failure retry_at
after_queue = refl

execute-resolves_example :
    AllEnd log_job no_text settings 10 claimed [] messages after.db.messages
    × (after.queue ≡ all_handed log_job no_text settings 10 claimed [])
execute-resolves_example =
    execute-resolves log_job no_text settings 10 (omega arith) (omega arith) unlocked world
      messages-Distinct tick_runs

execute-keeps_example : at_id 4 after.db.messages ≡ row 4 "mail" pending 0 99 ∷ []
unfolding claim_batch
execute-keeps_example = execute-keeps log_job no_text settings 10 unlocked world 4 refl

execute-accounts_example :
    (3 ≡ length claimed)
    × (3 ≡ 1 + 1 + 1)
    × (3 ≤ 3)
    × (after.success_total ≡ 0 + 1)
    × (after.failure_total ≡ 0 + 1)
execute-accounts_example =
    execute-accounts log_job no_text settings 10 unlocked world {t = tick} tick_runs

-- A queue that never raises, and rows that no tick has seen, still end in a report.
execute-report_example :
    (t : RelayTickReport) × ((execute log_job no_text settings 10 unlocked world).0 ≡ report t)
execute-report_example =
    execute-report settings 10 (omega arith) (omega arith) log_job no_text unlocked world

abbrev message : ℕ → Message
message attempts = record {
  id = 2;
  job_name = "bad";
  payload = field "to" (text "a") end;
  available_at = 3;
  status = pending;
  attempts = attempts;
  last_error = none;
  locked_at = some 10;
  locked_by = some "host:1";
  created_at = 3;
  delivered_at = none;
  trace_context = field "traceparent" (text "00") end;
}

get-dispatched_payload_example :
    get "to" (dispatched_payload log_job no_text settings 10 (message 0)) ≡ (
      if has_key "to" (message 0).payload
      then get "to" (message 0).payload
      else added (no_text 2) (message 0) "to")
get-dispatched_payload_example = get-dispatched_payload log_job no_text settings 10 (message 0) "to"

-- A budget of 100 tries with the base of 30 seconds: the 43rd failure overflows.
abbrev patient : Config
patient = record settings { max_attempts = 100 }

dispatch_rows-overflow_example :
    dispatch_rows log_job no_text patient 10 (message 42 ∷ message 0 ∷ []) tick world
    ≡ (overflow_error, record world { queue = [] })
dispatch_rows-overflow_example =
    dispatch_rows-overflow log_job no_text patient 10 (message 42) (message 0 ∷ []) tick world
      {exc = "RuntimeError()"} refl (omega arith) (omega arith)

-- The third delay of a base of 30 seconds, from the second.
retry_at-doubles_example :
    (30000010 ≡ 10 + min settings.retry_base settings.retry_max)
    × (10 < 60000010)
    × (60000010 ≤ 10 + settings.retry_max)
    × (120000010 ≡ 10 + min (2 * (60000010 - 10)) settings.retry_max)
unfolding retry_at
retry_at-doubles_example = retry_at-doubles settings 10 1 (omega arith) (omega arith) refl refl refl
