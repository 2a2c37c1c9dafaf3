-- ===== src/Outbox/Tests/Data.antt =====
-- The tables, the queue and the settings of the examples.
use starter_template_fastapi.Base.{
  ℕ, refl, String, Bool, false, Option, none, some, List, [], ◌∷◌, ◌++◌, str_eq, if◌then◌else◌,
}
use starter_template_fastapi.Base.Clock.{seconds}
use starter_template_fastapi.Base.Json.{Fields, end}
use starter_template_fastapi.Outbox.Repository.Delete.{Distinct}
use starter_template_fastapi.Outbox.Message.{
  OutboxStatus, pending, delivered, failed, Row, Mark, Db,
}
use starter_template_fastapi.Outbox.Relay.{Config, World}

abbrev pub row : ℕ → String → OutboxStatus → ℕ → ℕ → Row
row id job_name status attempts at = record {
  id = id;
  job_name = job_name;
  payload = end;
  trace_context = end;
  available_at = at;
  status = status;
  attempts = attempts;
  last_error = none;
  locked_at = none;
  locked_by = none;
  created_at = at;
  delivered_at = some at;
  failed_at = some at;
}

-- A queue that logs the names of its jobs and raises at one name.
abbrev pub log_job : String → Fields → List String → List String × Option String
log_job job_name payload queue =
    if str_eq job_name "bad" then (queue, some "RuntimeError()") else (queue ++ job_name ∷ [], none)

abbrev pub no_text : ℕ → String
no_text id = ""

abbrev pub unlocked : ℕ → Bool
unlocked id = false

abbrev pub settings : Config
settings = record {
  batch_size = 3;
  max_attempts = 3;
  worker_id = "host:1";
  retry_base = seconds 30;
  retry_max = seconds 900;
}

abbrev pub messages : List Row
messages =
    row 1 "mail" pending 0 5
    ∷ row 2 "bad" pending 0 3
    ∷ row 3 "bad" pending 2 4
    ∷ row 4 "mail" pending 0 99
    ∷ row 5 "mail" delivered 1 2
    ∷ row 6 "mail" failed 3 2
    ∷ []

abbrev pub marks : List Mark
marks = record { id = 1; processed_at = 2 } ∷ record { id = 2; processed_at = 50 } ∷ []

abbrev pub tables : Db
tables = record { messages = messages; processed = marks }

abbrev pub world : World (List String)
world = record { db = tables; queue = []; success_total = 0; failure_total = 0 }

pub messages-Distinct : Distinct (λ (x : Row). x.id) messages
messages-Distinct = (refl, (refl, (refl, (refl, (refl, (refl, tt))))))
