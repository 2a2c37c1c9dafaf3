-- ===== src/Outbox/System.antt =====
-- The outbox as its processes see it: producers, workers that may run at the same time and may
-- crash, the prune, and an operator. A worker's claim, each of its hand-overs to the job queue and each
-- mark of a row are separate steps, so the steps of several workers interleave in every way, and a
-- worker may crash between a hand-over and the mark.
pub mod Rows
pub mod Valid
use starter_template_fastapi.Base.{
  ℕ, ◌≡◌, ◌≢◌, String, Bool, false, Option, some, List, [], ◌∷◌, ◌++◌,
}
use starter_template_fastapi.Base.Json.{Fields}
use starter_template_fastapi.Outbox.Message.{Row, Message, Db}
use starter_template_fastapi.Outbox.Repository.{claim_batch}
use starter_template_fastapi.Outbox.Relay.{Config, World, dispatched_payload, after_enqueue}
use starter_template_fastapi.Outbox.Prune
use starter_template_fastapi.Outbox.Prune.{Retention, PruneResult}
use starter_template_fastapi.Outbox.Producer.{Instant, staged, enqueue, commit_row, retry_failed}

-- `in_flight` holds the messages that workers have claimed and not yet handed to the job queue, and
-- `answered` those that were handed over, with the queue's answer, and are not yet marked.
pub record System (Q : Type 0) : Type 0 where
  pub world : World Q
  pub in_flight : List Message
  pub answered : List (Message × Option String)

abbrev pub set_db : {Q : Type 0} → Db → System Q → System Q
set_db db s = record s { world = record s.world { db = db } }

module _ {Q : Type 0} (job_queue : String → Fields → Q → Q × Option String) (str_uuid : ℕ → String)
    (cfg : Config) where
  abbrev pub handed : ℕ → Message → Q → Q × Option String
  handed now m queue = job_queue m.job_name (dispatched_payload job_queue str_uuid cfg now m) queue

  pub data Step (s : System Q) : System Q → Type 0 where
    produce :
        (id now : ℕ) (carrier payload : Fields) (job_name : String) (at : Option Instant) {r : Row}
        → enqueue id now carrier job_name payload at ≡ staged r
        → Step s (set_db (commit_row r s.world.db) s)
    claim :
        (locked : ℕ → Bool) (now : ℕ) (worker_id : String)
        → Step s (record {
          world = record s.world {
            db = (claim_batch locked now cfg.batch_size worker_id s.world.db).1;
          };
          in_flight = s.in_flight ++ (claim_batch locked now cfg.batch_size worker_id s.world.db).0;
          answered = s.answered;
        })
    hand_over :
        (before after : List Message) (m : Message) (now : ℕ)
        → s.in_flight ≡ before ++ m ∷ after
        → Step s (record {
          world = record s.world { queue = (handed now m s.world.queue).0 };
          in_flight = before ++ after;
          answered = s.answered ++ (m, (handed now m s.world.queue).1) ∷ [];
        })
    mark :
        (before after : List (Message × Option String)) (m : Message) (answer : Option String)
        (now : ℕ)
        → s.answered ≡ before ++ (m, answer) ∷ after
        → Step s (record {
          world = (after_enqueue job_queue str_uuid cfg now m (s.world.queue, answer) s.world).1;
          in_flight = s.in_flight;
          answered = before ++ after;
        })
    crash_unmarked :
        (before after : List (Message × Option String)) (m : Message) (answer : Option String)
        → s.answered ≡ before ++ (m, answer) ∷ after
        → Step s (record s { answered = before ++ after })
    crash :
        (before after : List Message) (m : Message)
        → s.in_flight ≡ before ++ m ∷ after
        → Step s (record s { in_flight = before ++ after })
    prune :
        (fuel now : ℕ) (r : Retention) {result : PruneResult} {db : Db}
        → Prune.execute fuel r now s.world.db ≡ some (result, db)
        → Step s (set_db db s)
    rearm : (now : ℕ) → Step s (set_db (retry_failed now s.world.db).1 s)

  pub data Reach (s : System Q) : System Q → Type 0 where
    here : Reach s s
    next : {t u : System Q} → Reach s t → Step t u → Reach s u
