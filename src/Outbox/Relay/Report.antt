-- ===== src/Outbox/Relay/Report.antt =====
-- What the report of a tick says of the rows that were claimed, and of the counter.
use starter_template_fastapi.Base.{
  ℕ, ◌+◌, ◌≤◌, ◌≡◌, String, Bool, Option, none, some, List, [], ◌∷◌, arith, length,
}
use starter_template_fastapi.Base.Json.{Fields}
use starter_template_fastapi.Outbox.Message.{Message}
use starter_template_fastapi.Outbox.Repository.{claim_batch}
use starter_template_fastapi.Outbox.Repository.Claim.{claim_batch-IsClaim}
use starter_template_fastapi.Outbox.Relay.{
  RelayTickReport, Config, RowResult, dispatched, retried, failed, overflow_error, report, World,
  add_row, handle_failure, after_enqueue, dispatch_row, dispatch_rows, execute,
}

-- What the counter and the tally say of the same rows.
pub record Accounts {Q : Type 0} (before after : RelayTickReport) (rows : ℕ) (w w' : World Q)
    : Type 0 where
  pub same_claimed : after.claimed ≡ before.claimed
  pub rows_counted :
      after.dispatched + after.retried + after.failed
      ≡ before.dispatched + before.retried + before.failed + rows
  pub successes : w'.success_total + before.dispatched ≡ w.success_total + after.dispatched
  pub failures : w'.failure_total + before.failed ≡ w.failure_total + after.failed

module _ {Q : Type 0} (enqueue : String → Fields → Q → Q × Option String) (str_uuid : ℕ → String)
    (cfg : Config) (now : ℕ) where
  -- The counter after one row.
  abbrev Counted : World Q → RowResult × World Q → Type 0
  Counted w (dispatched, w') =
      (w'.success_total ≡ w.success_total + 1) × (w'.failure_total ≡ w.failure_total)
  Counted w (retried, w') =
      (w'.success_total ≡ w.success_total) × (w'.failure_total ≡ w.failure_total)
  Counted w (failed, w') =
      (w'.success_total ≡ w.success_total) × (w'.failure_total ≡ w.failure_total + 1)
  Counted w (overflow_error, w') = Unit

  after_enqueue-Counted :
      (row : Message) (answer : Q × Option String) (w : World Q)
      → Counted w (after_enqueue enqueue str_uuid cfg now row answer w)
  unfolding handle_failure
  after_enqueue-Counted row (queue, none) w = ground arith
  after_enqueue-Counted row (queue, some exc) w = ground arith

  dispatch_row-Counted :
      (row : Message) (w : World Q) → Counted w (dispatch_row enqueue str_uuid cfg now row w)
  unfolding dispatch_row
  dispatch_row-Counted row w = after_enqueue-Counted row _ w

  dispatch_rows-Accounts :
      (rows : List Message) (before : RelayTickReport) (w : World Q) {after : RelayTickReport}
      {w' : World Q}
      → dispatch_rows enqueue str_uuid cfg now rows before w ≡ (report after, w')
      → Accounts before after (length rows) w w'
  unfolding dispatch_rows
  dispatch_rows-Accounts [] before w {after} {w'} e = ground arith
  dispatch_rows-Accounts (row ∷ rows) before w {after} {w'} e =
      let w₁ = (dispatch_row enqueue str_uuid cfg now row w).1 in
      ground (
        arith,
        dispatch_row-Counted row w,
        dispatch_rows-Accounts rows (add_row dispatched before) w₁ {after = after} {w' = w'},
        dispatch_rows-Accounts rows (add_row retried before) w₁ {after = after} {w' = w'},
        dispatch_rows-Accounts rows (add_row failed before) w₁ {after = after} {w' = w'},
      )

  -- A tick that returns a report counts in it every row that its claim took, no more than the batch
  -- allows, each as dispatched, retried or failed, and has moved the counter by just what the report
  -- says.
  pub execute-accounts :
      (locked : ℕ → Bool) (w : World Q) {t : RelayTickReport} {w' : World Q}
      → execute enqueue str_uuid cfg now locked w ≡ (report t, w')
      → (t.claimed ≡ length (claim_batch locked now cfg.batch_size cfg.worker_id w.db).0)
        × (t.claimed ≡ t.dispatched + t.retried + t.failed)
        × (t.claimed ≤ cfg.batch_size)
        × (w'.success_total ≡ w.success_total + t.dispatched)
        × (w'.failure_total ≡ w.failure_total + t.failed)
  unfolding execute
  execute-accounts locked w e =
      let (claimed, db) = claim_batch locked now cfg.batch_size cfg.worker_id w.db in
      let accounts =
        dispatch_rows-Accounts claimed
          (record { claimed = length claimed; dispatched = 0; retried = 0; failed = 0 })
          (record w { db = db }) e in
      ground
        (arith, accounts, (claim_batch-IsClaim locked now cfg.worker_id cfg.batch_size w.db).size)
