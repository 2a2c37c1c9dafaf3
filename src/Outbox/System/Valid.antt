-- ===== src/Outbox/System/Valid.antt =====
-- The invariant of the rows and of the messages in flight.
use starter_template_fastapi.Base.{
  ℕ, ◌+◌, ◌<◌, ◌≡◌, refl, inl, inr, String, Option, none, some, List, map, arith, leb,
  if◌then◌else◌, All, All-append, Bool-cases,
}
use starter_template_fastapi.Base.Json.{Fields}
use starter_template_fastapi.Outbox.Message.{pending, Row, Message}
use starter_template_fastapi.Outbox.Repository.{
  is_failed, mark_delivered, mark_retry, mark_failed, delivered_row, retried_row, failed_row,
}
use starter_template_fastapi.Outbox.Relay
use starter_template_fastapi.Outbox.Relay.{
  Config, World, RowResult, retry_at, handle_failure, after_enqueue, dispatch_row,
}
use starter_template_fastapi.Outbox.Prune.Keeps.{execute-messages}
use starter_template_fastapi.Outbox.Producer.{Instant, enqueue, staged, rearmed_row, retry_failed}
use starter_template_fastapi.Outbox.System.{
  System, Step, handed, produce, claim, hand_over, mark, crash, crash_unmarked, prune, rearm, Reach,
  here, next,
}
use starter_template_fastapi.Outbox.System.Rows.{
  RowOk, RowsOk, MessagesOk, attempts_le, retried_ok, All-removed, RowsOk-map, claim-RowsOk,
  claim-MessagesOk, update-RowsOk,
}

pub record IsValid {Q : Type 0} (max_attempts : ℕ) (s : System Q) : Type 0 where
  pub rows : RowsOk max_attempts s.world.db.messages
  pub flying : MessagesOk max_attempts s.in_flight
  pub unmarked : All (λ a. a.0.attempts < max_attempts) s.answered

module _ {Q : Type 0} (job_queue : String → Fields → Q → Q × Option String) (str_uuid : ℕ → String)
    (cfg : Config) where
  handle_failure-RowsOk :
      (now : ℕ) (m : Message) (exc : String) (w : World Q)
      → m.attempts < cfg.max_attempts
      → RowsOk cfg.max_attempts w.db.messages
      → RowsOk cfg.max_attempts (handle_failure job_queue str_uuid cfg now m exc w).1.db.messages
  unfolding handle_failure mark_failed mark_retry
  handle_failure-RowsOk now m exc w lt h =
      elim (Bool-cases (leb cfg.max_attempts (m.attempts + 1))) [
        | inl e ↦ rw e (
            update-RowsOk cfg.max_attempts m.id (failed_row (m.attempts + 1) exc now) w.db.messages
              (λ r ok. (refl, omega arith)) h)
        | inr e ↦ rw e (retry (ground arith) (retry_at cfg now (m.attempts + 1)))
      ]
    where
      retry :
          m.attempts + 1 < cfg.max_attempts
          → (o : Option ℕ)
          → RowsOk cfg.max_attempts
              (elim o as (λ x. RowResult × World Q) [
                | none ↦ (Relay.overflow_error, w)
                | some at ↦
                    (Relay.retried, record w { db = mark_retry m.id (m.attempts + 1) exc at w.db })
              ]).1.db.messages
      retry left none = h
      retry left (some at) =
          update-RowsOk cfg.max_attempts m.id (retried_row (m.attempts + 1) exc at) w.db.messages
            (λ r ok. retried_ok cfg.max_attempts r.status r.attempts (m.attempts + 1) _ _ left ok) h

  after_enqueue-RowsOk :
      (now : ℕ) (m : Message) (answer : Q × Option String) (w : World Q)
      → m.attempts < cfg.max_attempts
      → RowsOk cfg.max_attempts w.db.messages
      → RowsOk cfg.max_attempts (after_enqueue job_queue str_uuid cfg now m answer w).1.db.messages
  unfolding mark_delivered
  after_enqueue-RowsOk now m (queue, none) w lt h =
      update-RowsOk cfg.max_attempts m.id (delivered_row now) w.db.messages
        (λ r ok. (refl, attempts_le cfg.max_attempts r.status r.attempts _ _ ok)) h
  after_enqueue-RowsOk now m (queue, some exc) w lt h = handle_failure-RowsOk now m exc _ lt h

  retry_failed-RowsOk :
      (n now : ℕ) (rows : List Row)
      → 0 < n
      → RowsOk n rows
      → RowsOk n (map (λ r. if is_failed r.status then rearmed_row now r else r) rows)
  retry_failed-RowsOk n now rows pos h =
      RowsOk-map n _ rows
        (λ r ok. elim (Bool-cases (is_failed r.status)) [ inl e ↦ rw e pos | inr e ↦ rw e ok ]) h

  enqueue-RowOk :
      (n id now : ℕ) (carrier payload : Fields) (job_name : String) (at : Option Instant) {r : Row}
      → 0 < n
      → enqueue id now carrier job_name payload at ≡ staged r
      → RowOk n r
  unfolding enqueue
  enqueue-RowOk n id now carrier payload job_name at {r} pos e =
      let new : r.status ≡ pending = ground arith in
      let none_used : r.attempts ≡ 0 = ground arith in rw (new, none_used) pos

  mark_same :
      (now : ℕ) (m : Message) (answer : Q × Option String) (w : World Q)
      → after_enqueue job_queue str_uuid cfg now m answer w
        ≡ after_enqueue job_queue str_uuid cfg now m answer (record w { queue = answer.0 })
  mark_same now m (queue, none) w = refl
  mark_same now m (queue, some exc) w = refl

  -- A round of a worker's loop is the two steps `hand_over` and `mark`, one right after the other.
  dispatch_row-mark :
      (now : ℕ) (m : Message) (w : World Q)
      → dispatch_row job_queue str_uuid cfg now m w
        ≡ after_enqueue job_queue str_uuid cfg now m
            (handed job_queue str_uuid cfg now m w.queue)
            (record w { queue = (handed job_queue str_uuid cfg now m w.queue).0 })
  unfolding dispatch_row
  dispatch_row-mark now m w = mark_same now m (handed job_queue str_uuid cfg now m w.queue) w

  -- Each step of the outbox keeps the invariant, if at least one try is configured.
  pub Step-IsValid :
      {s t : System Q}
      → 0 < cfg.max_attempts
      → Step job_queue str_uuid cfg s t
      → IsValid cfg.max_attempts s
      → IsValid cfg.max_attempts t
  Step-IsValid {s} pos (produce id now carrier payload job_name at e) v = record {
    rows =
        All-append (RowOk cfg.max_attempts) s.world.db.messages _ v.rows
          (enqueue-RowOk cfg.max_attempts id now carrier payload job_name at pos e, tt);
    flying = v.flying;
    unmarked = v.unmarked;
  }
  Step-IsValid {s} pos (claim locked now worker_id) v = record {
    rows = claim-RowsOk cfg.max_attempts locked now cfg.batch_size worker_id s.world.db v.rows;
    flying =
        All-append _ s.in_flight _ v.flying
          (claim-MessagesOk cfg.max_attempts locked now cfg.batch_size worker_id s.world.db v.rows);
    unmarked = v.unmarked;
  }
  Step-IsValid {s} pos (hand_over before after m now e) v =
      let (rest, mine) =
        All-removed (λ x. x.attempts < cfg.max_attempts) before after m e v.flying in
      record {
        rows = v.rows;
        flying = rest;
        unmarked =
            All-append (λ a. a.0.attempts < cfg.max_attempts) s.answered _ v.unmarked (mine, tt);
      }
  Step-IsValid {s} pos (mark before after m answer now e) v =
      let (rest, mine) =
        All-removed (λ a. a.0.attempts < cfg.max_attempts) before after (m, answer) e v.unmarked in
      record {
        rows = after_enqueue-RowsOk now m (s.world.queue, answer) s.world mine v.rows;
        flying = v.flying;
        unmarked = rest;
      }
  Step-IsValid {s} pos (crash_unmarked before after m answer e) v = record {
    rows = v.rows;
    flying = v.flying;
    unmarked =
        (All-removed (λ a. a.0.attempts < cfg.max_attempts) before after (m, answer) e
          v.unmarked).0;
  }
  Step-IsValid {s} pos (crash before after m e) v = record {
    rows = v.rows;
    flying = (All-removed (λ x. x.attempts < cfg.max_attempts) before after m e v.flying).0;
    unmarked = v.unmarked;
  }
  Step-IsValid {s} pos (prune fuel now r e) v = record {
    rows = execute-messages (RowOk cfg.max_attempts) fuel r now s.world.db e v.rows;
    flying = v.flying;
    unmarked = v.unmarked;
  }
  Step-IsValid {s} pos (rearm now) v = record {
    rows = unfold retry_failed in retry_failed-RowsOk cfg.max_attempts now _ pos v.rows;
    flying = v.flying;
    unmarked = v.unmarked;
  }

  -- With at least one try allowed, and from a valid state, whatever producers, workers, prunes,
  -- operators and crashes do and in whatever order, a pending row has tries left, a delivered or
  -- failed row has the time of that, no row has used more than `max_attempts` tries, and no message
  -- in flight, or handed over and not yet marked, has used them up.
  pub Reach-IsValid :
      {s t : System Q}
      → 0 < cfg.max_attempts
      → Reach job_queue str_uuid cfg s t
      → IsValid cfg.max_attempts s
      → IsValid cfg.max_attempts t
  Reach-IsValid pos here v = v
  Reach-IsValid pos (next r st) v = Step-IsValid pos st (Reach-IsValid pos r v)
