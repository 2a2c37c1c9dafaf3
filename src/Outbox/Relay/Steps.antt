-- ===== src/Outbox/Relay/Steps.antt =====
-- One round of the loop over the claimed rows.
use starter_template_fastapi.Base.{
  ℕ, ◌≡◌, ◌≢◌, ◌⊎◌, inl, inr, refl, String, Option, List, ◌∷◌, arith,
}
use starter_template_fastapi.Base.Json.{Fields}
use starter_template_fastapi.Outbox.Message.{Message}
use starter_template_fastapi.Outbox.Relay.{
  RelayTickReport, Config, RowResult, dispatched, retried, failed, overflow_error, report, World,
  add_row, dispatch_row, dispatch_rows,
}

pub raise-cases : (r : RowResult) → (r ≡ overflow_error) ⊎ (r ≢ overflow_error)
raise-cases dispatched = inr (λ p. cc)
raise-cases retried = inr (λ p. cc)
raise-cases failed = inr (λ p. cc)
raise-cases overflow_error = inl refl

module _ {Q : Type 0} (enqueue : String → Fields → Q → Q × Option String) (str_uuid : ℕ → String)
    (cfg : Config) (now : ℕ) (row : Message) (rows : List Message) (tally : RelayTickReport)
    (w : World Q) where
  pub dispatch_rows-cons :
      (dispatch_row enqueue str_uuid cfg now row w).0 ≢ overflow_error
      → dispatch_rows enqueue str_uuid cfg now (row ∷ rows) tally w
        ≡ dispatch_rows enqueue str_uuid cfg now rows
            (add_row (dispatch_row enqueue str_uuid cfg now row w).0 tally)
            (dispatch_row enqueue str_uuid cfg now row w).1
  unfolding dispatch_rows
  dispatch_rows-cons h = ground arith

  -- A loop that reports has not raised at its first row.
  pub dispatch_row_of_report :
      {t : RelayTickReport} {w' : World Q}
      → dispatch_rows enqueue str_uuid cfg now (row ∷ rows) tally w ≡ (report t, w')
      → (dispatch_row enqueue str_uuid cfg now row w).0 ≢ overflow_error
  unfolding dispatch_rows
  dispatch_row_of_report e = ground arith

  -- A loop whose first row raises stops there.
  pub dispatch_rows_raise :
      (dispatch_row enqueue str_uuid cfg now row w).0 ≡ overflow_error
      → dispatch_rows enqueue str_uuid cfg now (row ∷ rows) tally w
        ≡ (overflow_error, (dispatch_row enqueue str_uuid cfg now row w).1)
  unfolding dispatch_rows
  dispatch_rows_raise h = ground arith
