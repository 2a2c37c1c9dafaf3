-- ===== src/Outbox/Relay/Answer.antt =====
-- How the row of a message ends in a tick, by the answer of the queue.
use starter_template_fastapi.Base.{
  ℕ, ap, ◌+◌, ◌≤◌, ◌<◌, ◌≡◌, ◌≢◌, refl, ◌∙◌, ◌⊎◌, inl, inr, String, false, Option, none, some, List,
  [], ◌∷◌, map, if◌then◌else◌, arith, leb, ◌==◌, Bool-cases,
}
use starter_template_fastapi.Base.Json.{Fields}
use starter_template_fastapi.Outbox.Message.{pending, delivered, failed, Row, Message}
use starter_template_fastapi.Outbox.Repository.{
  stamp, delivered_row, retried_row, failed_row, mark_delivered, mark_retry, mark_failed,
}
use starter_template_fastapi.Outbox.Relay
use starter_template_fastapi.Outbox.Relay.{
  RelayTickReport, Config, RowResult, overflow_error, TickResult, report, World, add_row, retry_at,
  dispatched_payload, handle_failure, after_enqueue, dispatch_row, dispatch_rows, execute,
}
use starter_template_fastapi.Outbox.Relay.AtId.{at_id, at_id-update_where}
use starter_template_fastapi.Outbox.Relay.Backoff.{retry_at_bounds}

-- What becomes of a row `r` of a message, by what the job queue answered to it: handed over at `now`; or,
-- if the queue raised, with the error and one try more, given up with all tries used, or waiting for
-- a later instant with tries left.
abbrev pub Answered : Config → ℕ → Option String → Row → Row → Type 0
Answered cfg now none r r' =
    (r'.status ≡ delivered) × (r'.delivered_at ≡ some now) × (r'.attempts ≡ r.attempts)
Answered cfg now (some exc) r r' =
    (r'.last_error ≡ some exc)
    × (r'.attempts ≡ r.attempts + 1)
    × (((r'.status ≡ failed) × (r'.failed_at ≡ some now) × (cfg.max_attempts ≤ r'.attempts))
        ⊎ ((r'.status ≡ pending) × (r'.attempts < cfg.max_attempts) × (now < r'.available_at)))

-- The row afterwards: unlocked, with its job, and answered.
abbrev pub Resolved : Config → ℕ → Option String → Row → Row → Type 0
Resolved cfg now answer r r' =
    (r'.id ≡ r.id)
    × (r'.job_name ≡ r.job_name)
    × (r'.payload ≡ r.payload)
    × (r'.locked_at ≡ none)
    × (r'.locked_by ≡ none)
    × Answered cfg now answer r r'

-- The one row of a message before a tick and the one row after it.
abbrev pub Ends : Config → ℕ → Message → Option String → List Row → List Row → Type 0
Ends cfg now m answer before after =
    (r : Row) × (r' : Row) × (at_id m.id before ≡ r ∷ [])
    × (at_id m.id after ≡ r' ∷ [])
    × Resolved cfg now answer r r'

module _ {Q : Type 0} (enqueue : String → Fields → Q → Q × Option String) (str_uuid : ℕ → String)
    (cfg : Config) (now : ℕ) where
  -- What the queue answers to a message.
  abbrev pub handed : Message → Q → Q × Option String
  handed m queue = enqueue m.job_name (dispatched_payload enqueue str_uuid cfg now m) queue

  -- Every message is handed to the queue in its turn, and its row ends by the answer.
  abbrev pub AllEnd : List Message → Q → List Row → List Row → Type 0
  AllEnd [] queue before after = Unit
  AllEnd (m ∷ ms) queue before after =
      Ends cfg now m (handed m queue).1 before after × AllEnd ms (handed m queue).0 before after

  -- The queue after all of them.
  abbrev pub all_handed : List Message → Q → Q
  all_handed [] queue = queue
  all_handed (m ∷ ms) queue = all_handed ms (handed m queue).0

  -- The row of a claimed message that no round has come to.
  abbrev pub Waits : Message → List Row → List Row → Type 0
  Waits m before mid =
      (r : Row) × (at_id m.id before ≡ r ∷ [])
      × (at_id m.id mid ≡ stamp now cfg.worker_id r ∷ [])
      × (r.status ≡ pending)
      × (r.attempts ≡ m.attempts)

  -- The tables and the queue after one row, if no exception escapes.
  abbrev pub Leaves : Message → List Row → Option String → Q → RowResult × World Q → Type 0
  Leaves m before answer queue (Relay.overflow_error, w') = Unit
  Leaves m before answer queue (Relay.dispatched, w') =
      Ends cfg now m answer before w'.db.messages × (w'.queue ≡ queue)
  Leaves m before answer queue (Relay.retried, w') =
      Ends cfg now m answer before w'.db.messages × (w'.queue ≡ queue)
  Leaves m before answer queue (Relay.failed, w') =
      Ends cfg now m answer before w'.db.messages × (w'.queue ≡ queue)

  module _ (b : 0 < cfg.retry_base) (c : 0 < cfg.retry_max) where
    -- A waiting row that an update resolves.
    update-Ends :
        (m : Message) (answer : Option String) (set : Row → Row) (before mid : List Row)
        → ((r : Row) → (set r).id ≡ r.id)
        → ((r : Row)
            → r.status ≡ pending
            → r.attempts ≡ m.attempts
            → Resolved cfg now answer r (set (stamp now cfg.worker_id r)))
        → Waits m before mid
        → Ends cfg now m answer before (map (λ r. if r.id == m.id then set r else r) mid)
    update-Ends m answer set before mid same resolves (r, was, waits, fresh, tries) = (
      r,
      set (stamp now cfg.worker_id r),
      was,
      at_id-update_where m.id set same mid ∙ ap (map set) waits,
      resolves r fresh tries,
    )

    retry-Leaves :
        (m : Message) (exc : String) (before : List Row) (w : World Q) (o : Option ℕ)
        → retry_at cfg now (m.attempts + 1) ≡ o
        → leb cfg.max_attempts (m.attempts + 1) ≡ false
        → Waits m before w.db.messages
        → Leaves m before (some exc) w.queue (handle_failure enqueue str_uuid cfg now m exc w)
    unfolding handle_failure mark_retry
    retry-Leaves m exc before w none e f h = rw (f, e) tt
    retry-Leaves m exc before w (some at) e f h =
        let later = (retry_at_bounds cfg now (m.attempts + 1) b c e).0 in
        rw (f, e)
          (
            update-Ends m (some exc) (retried_row (m.attempts + 1) exc at) before w.db.messages
                (λ r. refl)
                (λ r fresh tries. (
                  refl,
                  refl,
                  refl,
                  refl,
                  refl,
                  (refl, omega (arith, tries), inr (fresh, ground arith, later)),
                ))
                h,
            refl,
          )

    handle_failure-Leaves :
        (m : Message) (exc : String) (before : List Row) (w : World Q)
        → Waits m before w.db.messages
        → Leaves m before (some exc) w.queue (handle_failure enqueue str_uuid cfg now m exc w)
    unfolding handle_failure mark_failed
    handle_failure-Leaves m exc before w h =
        elim (Bool-cases (leb cfg.max_attempts (m.attempts + 1))) [
          | inl e ↦ rw e (
            update-Ends m (some exc) (failed_row (m.attempts + 1) exc now) before w.db.messages
                (λ r. refl)
                (λ r fresh tries. (
                  refl,
                  refl,
                  refl,
                  refl,
                  refl,
                  (refl, omega (arith, tries), inl (refl, refl, ground arith)),
                ))
                h,
            refl,
          )
          | inr e ↦ retry-Leaves m exc before w _ refl e h
        ]

    after_enqueue-Leaves :
        (m : Message) (answer : Q × Option String) (before : List Row) (w : World Q)
        → Waits m before w.db.messages
        → Leaves m before answer.1 answer.0 (after_enqueue enqueue str_uuid cfg now m answer w)
    unfolding mark_delivered
    after_enqueue-Leaves m (queue, none) before w h = (
      update-Ends m none (delivered_row now) before w.db.messages (λ r. refl)
          (λ r fresh tries. (refl, refl, refl, refl, refl, (refl, refl, refl))) h,
      refl,
    )
    after_enqueue-Leaves m (queue, some exc) before w h =
        handle_failure-Leaves m exc before (record w { queue = queue }) h

    pub of_Leaves :
        (m : Message) (before : List Row) (answer : Option String) (queue : Q)
        (x : RowResult × World Q)
        → Leaves m before answer queue x
        → x.0 ≢ overflow_error
        → Ends cfg now m answer before x.1.db.messages × (x.1.queue ≡ queue)
    of_Leaves m before answer queue (Relay.overflow_error, w') l ne = absurd (ne refl)
    of_Leaves m before answer queue (Relay.dispatched, w') l ne = l
    of_Leaves m before answer queue (Relay.retried, w') l ne = l
    of_Leaves m before answer queue (Relay.failed, w') l ne = l

    pub dispatch_row-Leaves :
        (m : Message) (before : List Row) (w : World Q)
        → Waits m before w.db.messages
        → Leaves m before
            (handed m w.queue).1
            (handed m w.queue).0
            (dispatch_row enqueue str_uuid cfg now m w)
    unfolding dispatch_row
    dispatch_row-Leaves m before w h = after_enqueue-Leaves m _ before w h
