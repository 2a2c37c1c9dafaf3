-- ===== src/Outbox/Tests/Tables.antt =====
-- The theorems of the claim, the prune, the dedupe and the whole system at the example tables.
use starter_template_fastapi.Base.{
  ℕ, ◌≡◌, refl, String, not, ◌||◌, Option, none, some, List, [], ◌∷◌, ◌++◌, arith, map, filter,
  if◌then◌else◌, str_eq,
}
use starter_template_fastapi.Outbox.Message.{pending, Row, Message}
use starter_template_fastapi.Outbox.Repository.{claim_batch, processed_before, to_message}
use starter_template_fastapi.Outbox.Repository.Claim.{IsClaim, claim_batch-IsClaim}
use starter_template_fastapi.Outbox.Repository.Reclaim.{message_ids, claim_batch-claim_batch}
use starter_template_fastapi.Outbox.Relay.{after_enqueue}
use starter_template_fastapi.Outbox.Prune
use starter_template_fastapi.Outbox.Prune.{Retention, cutoffs}
use starter_template_fastapi.Outbox.Prune.Exact.{expired, summary_of, execute-exact}
use starter_template_fastapi.Outbox.Dedupe.{marked, deliver}
use starter_template_fastapi.Outbox.Dedupe.Once.{names, deliver-once}
use starter_template_fastapi.Outbox.System.{System, here, next, claim, hand_over, mark}
use starter_template_fastapi.Outbox.System.Valid.{IsValid, Reach-IsValid}
use starter_template_fastapi.Outbox.Tests.Data.{
  row, log_job, no_text, unlocked, settings, messages, messages-Distinct, marks, tables, world,
}

claim_batch-IsClaim_example :
    IsClaim unlocked 10 "host:1" 2 tables.messages (claim_batch unlocked 10 2 "host:1" tables).0
claim_batch-IsClaim_example = claim_batch-IsClaim unlocked 10 "host:1" 2 tables

claim_batch-claim_batch_example :
    message_ids (claim_batch unlocked 10 2 "host:2" (claim_batch unlocked 10 2 "host:1" tables).1).0
    ≡ message_ids (claim_batch unlocked 10 2 "host:1" tables).0
claim_batch-claim_batch_example = claim_batch-claim_batch unlocked 10 2 "host:1" "host:2" tables

-- The claim above takes the rows that are due first.
claimed_ids : message_ids (claim_batch unlocked 10 2 "host:1" tables).0 ≡ 2 ∷ 3 ∷ []
unfolding claim_batch
claimed_ids = refl

-- A retention of one day, and of two seconds for marks, one row a batch.
abbrev retention : Retention
retention = record {
  retention_delivered_days = 1;
  retention_failed_days = 1;
  dedup_retention = 2000000;
  batch_size = 1;
}

-- One day and five microseconds after the start of time.
abbrev tomorrow : ℕ
tomorrow = 86400000005

execute-exact_example :
    Prune.execute 7 retention tomorrow tables
    ≡ some (
      summary_of (5, 5, 86398000005) tables,
      record {
        messages = filter (λ m. not (expired (5, 5, 86398000005) m)) messages;
        processed = filter (λ m. not (processed_before 86398000005 m)) marks;
      },
    )
unfolding cutoffs
execute-exact_example =
    execute-exact 7 retention tomorrow tables refl (omega arith) messages-Distinct
      (refl, (refl, tt)) (omega arith) (omega arith)

-- It leaves the four rows that are still pending.
after_prune :
    map (λ (m : Row). m.id) (filter (λ m. not (expired (5, 5, 86398000005) m)) messages)
    ≡ 1 ∷ 2 ∷ 3 ∷ 4 ∷ []
after_prune = refl

abbrev parse : String → Option ℕ
parse s = if str_eq s "three" then some 3 else none

deliver-once_example :
    ((deliver parse 3 ((10, "three") ∷ (11, "x") ∷ (12, "three") ∷ []) marks).0 ≡ (
      if marked marks 3
      then 0
      else if names parse 3 ((10, "three") ∷ (11, "x") ∷ (12, "three") ∷ [])
      then 1
      else 0))
    × (marked (deliver parse 3 ((10, "three") ∷ (11, "x") ∷ (12, "three") ∷ []) marks).1 3
        ≡ (marked marks 3 || names parse 3 ((10, "three") ∷ (11, "x") ∷ (12, "three") ∷ [])))
deliver-once_example = deliver-once parse 3 ((10, "three") ∷ (11, "x") ∷ (12, "three") ∷ []) marks

abbrev start : System (List String)
start = record { world = world; in_flight = []; answered = [] }

start-IsValid : IsValid settings.max_attempts start
start-IsValid = record {
  rows = (
    omega arith,
    (omega arith, (omega arith, (omega arith, ((refl, omega arith), ((refl, omega arith), tt))))),
  );
  flying = tt;
  unmarked = tt;
}

abbrev claimed : System (List String)
claimed = record {
  world = record world { db = (claim_batch unlocked 10 3 "host:1" tables).1 };
  in_flight = (claim_batch unlocked 10 3 "host:1" tables).0;
  answered = [];
}

abbrev first_message : Message
first_message = to_message 10 "host:1" (row 2 "bad" pending 0 3)

abbrev other_messages : List Message
other_messages =
    map (to_message 10 "host:1") (row 3 "bad" pending 2 4 ∷ row 1 "mail" pending 0 5 ∷ [])

-- The job queue has raised at the first of them, and its row is not yet marked.
abbrev raised_once : System (List String)
raised_once = record {
  world = claimed.world;
  in_flight = other_messages;
  answered = (first_message, some "RuntimeError()") ∷ [];
}

-- A worker has claimed the rows, its first row has failed, and the others are in flight.
abbrev failed_once : System (List String)
failed_once = record {
  world =
      (after_enqueue log_job no_text settings 11 first_message ([], some "RuntimeError()")
        claimed.world).1;
  in_flight = other_messages;
  answered = [];
}

claimed-split : claimed.in_flight ≡ [] ++ first_message ∷ other_messages
unfolding claim_batch to_message
claimed-split = refl

Reach-IsValid_example : IsValid settings.max_attempts failed_once
unfolding to_message
Reach-IsValid_example =
    Reach-IsValid log_job no_text settings {s = start} {t = failed_once} (omega arith)
      (next
        (next {t = claimed} {u = raised_once} (next here (claim unlocked 10 "host:1"))
          (hand_over [] other_messages first_message 11 claimed-split))
        (mark [] [] first_message (some "RuntimeError()") 11 refl))
      start-IsValid
