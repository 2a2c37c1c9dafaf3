-- ===== src/Outbox/Relay/Keeps.antt =====
-- A row that is dispatched leaves the rows of other ids as they are.
use starter_template_fastapi.Base.{
  ℕ, ◌+◌, ◌≡◌, refl, ◌∙◌, inl, inr, String, false, Option, none, some, List, [], ◌∷◌, arith, leb,
  ◌==◌, Bool-cases,
}
use starter_template_fastapi.Base.Json.{Fields}
use starter_template_fastapi.Outbox.Message.{Message}
use starter_template_fastapi.Outbox.Repository.{
  delivered_row, retried_row, failed_row, mark_delivered, mark_retry, mark_failed,
}
use starter_template_fastapi.Outbox.Repository.Claim.{claims}
use starter_template_fastapi.Outbox.Relay
use starter_template_fastapi.Outbox.Relay.{
  RelayTickReport, Config, RowResult, overflow_error, TickResult, report, World, add_row, retry_at,
  dispatched_payload, handle_failure, after_enqueue, dispatch_row, dispatch_rows, execute,
}
use starter_template_fastapi.Outbox.Relay.AtId.{at_id, at_id-update_where_ne}
use starter_template_fastapi.Outbox.Relay.Steps.{
  raise-cases, dispatch_rows_raise, dispatch_rows-cons,
}

module _ {Q : Type 0} (enqueue : String → Fields → Q → Q × Option String) (str_uuid : ℕ → String)
    (cfg : Config) (now : ℕ) where
  module _ (j : ℕ) where
    handle_failure-keeps :
        (row : Message) (exc : String) (w : World Q)
        → (row.id == j) ≡ false
        → at_id j (handle_failure enqueue str_uuid cfg now row exc w).1.db.messages
          ≡ at_id j w.db.messages
    unfolding handle_failure mark_failed mark_retry
    handle_failure-keeps row exc w ne =
        elim (Bool-cases (leb cfg.max_attempts (row.attempts + 1))) [
          | inl e ↦ rw e (
              at_id-update_where_ne row.id (failed_row (row.attempts + 1) exc now) (λ r. refl) j
                w.db.messages ne)
          | inr e ↦ rw e (retry (retry_at cfg now (row.attempts + 1)))
        ]
      where
        retry :
            (o : Option ℕ)
            → at_id j
                (elim o as (λ x. RowResult × World Q) [
                  | none ↦ (overflow_error, w)
                  | some at ↦ (
                    Relay.retried,
                    record w { db = mark_retry row.id (row.attempts + 1) exc at w.db },
                  )
                ]).1.db.messages
              ≡ at_id j w.db.messages
        retry none = refl
        retry (some at) =
            at_id-update_where_ne row.id (retried_row (row.attempts + 1) exc at) (λ r. refl) j
              w.db.messages ne

    after_enqueue-keeps :
        (row : Message) (answer : Q × Option String) (w : World Q)
        → (row.id == j) ≡ false
        → at_id j (after_enqueue enqueue str_uuid cfg now row answer w).1.db.messages
          ≡ at_id j w.db.messages
    unfolding mark_delivered
    after_enqueue-keeps row (queue, none) w ne =
        at_id-update_where_ne row.id (delivered_row now) (λ r. refl) j w.db.messages ne
    after_enqueue-keeps row (queue, some exc) w ne =
        handle_failure-keeps row exc (record w { queue = queue }) ne

    pub dispatch_row-keeps :
        (row : Message) (w : World Q)
        → (row.id == j) ≡ false
        → at_id j (dispatch_row enqueue str_uuid cfg now row w).1.db.messages
          ≡ at_id j w.db.messages
    unfolding dispatch_row
    dispatch_row-keeps row w ne = after_enqueue-keeps row _ w ne

    pub dispatch_rows-keeps :
        (rows : List Message) (tally : RelayTickReport) (w : World Q)
        → claims rows j ≡ false
        → at_id j (dispatch_rows enqueue str_uuid cfg now rows tally w).1.db.messages
          ≡ at_id j w.db.messages
    unfolding dispatch_rows
    dispatch_rows-keeps [] tally w ne = refl
    dispatch_rows-keeps (row ∷ rows) tally w ne =
        let r = (dispatch_row enqueue str_uuid cfg now row w).0 in
        let w' = (dispatch_row enqueue str_uuid cfg now row w).1 in
        let kept = dispatch_row-keeps row w (ground arith) in
        elim (raise-cases r) [
          | inl e ↦ rw (dispatch_rows_raise enqueue str_uuid cfg now row rows tally w e) kept
          | inr e ↦
              rw (dispatch_rows-cons enqueue str_uuid cfg now row rows tally w e)
                (dispatch_rows-keeps rows (add_row r tally) w' (ground arith) ∙ kept)
        ]
