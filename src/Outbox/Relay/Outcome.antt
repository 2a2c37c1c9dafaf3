-- ===== src/Outbox/Relay/Outcome.antt =====
-- What a tick leaves of the rows that it claimed, and of the others.
use starter_template_fastapi.Base.{
  ℕ, ap, ◌<◌, ◌≡◌, ◌∙◌, sym, String, Bool, true, false, Option, List, [], ◌∷◌, map, arith, ◌==◌,
  All, All-zip, All-implies, length,
}
use mathlib.Core.Path.{subst}
use starter_template_fastapi.Base.Json.{Fields}
use starter_template_fastapi.Outbox.Message.{pending, Row, Message, Db}
use starter_template_fastapi.Outbox.Repository.{stamp, claim_batch}
use starter_template_fastapi.Outbox.Repository.Claim.{claims}
use starter_template_fastapi.Outbox.Repository.Reclaim.{Distinct-claimed, claim_batch-stamps}
use starter_template_fastapi.Outbox.Repository.Delete.{Distinct}
use starter_template_fastapi.Outbox.Relay.{
  RelayTickReport, Config, TickResult, report, World, add_row, dispatch_row, dispatch_rows, execute,
}
use starter_template_fastapi.Outbox.Relay.AtId.{at_id, at_id-stamped, stamped, at_id-stamped_ne}
use starter_template_fastapi.Outbox.Relay.Steps.{dispatch_rows-cons, dispatch_row_of_report}
use starter_template_fastapi.Outbox.Relay.Answer.{
  Waits, AllEnd, all_handed, of_Leaves, dispatch_row-Leaves,
}
use starter_template_fastapi.Outbox.Relay.Keeps.{dispatch_row-keeps, dispatch_rows-keeps}
use starter_template_fastapi.Base.Keys.Among.{Among, All-Among, has_id-Among, at_key-Among}
use starter_template_fastapi.Outbox.Repository.Claim.{Carries, claim_batch-IsClaim}

module _ {Q : Type 0} (enqueue : String → Fields → Q → Q × Option String) (str_uuid : ℕ → String)
    (cfg : Config) (now : ℕ) where
  module _ (b : 0 < cfg.retry_base) (c : 0 < cfg.retry_max) where
    -- The rows that wait go on waiting while another is dispatched.
    Waits-kept :
        (m : Message) (rows : List Message) (before mid mid' : List Row)
        → ((j : ℕ) → (m.id == j) ≡ false → at_id j mid' ≡ at_id j mid)
        → claims rows m.id ≡ false
        → All (λ x. Waits enqueue str_uuid cfg now x before mid) rows
        → All (λ x. Waits enqueue str_uuid cfg now x before mid') rows
    Waits-kept m [] before mid mid' keeps new h = tt
    Waits-kept m (x ∷ rows) before mid mid' keeps new h =
        let (r, was, waits, fresh, tries) = h.0 in
        let other : (m.id == x.id) ≡ false = ground arith in
        (
          (r, was, keeps x.id other ∙ waits, fresh, tries),
          Waits-kept m rows before mid mid' keeps (ground arith) h.1,
        )

    dispatch_rows-resolves :
        (rows : List Message) (tally : RelayTickReport) (before : List Row) (w : World Q)
        → Distinct (λ (x : Message). x.id) rows
        → All (λ x. Waits enqueue str_uuid cfg now x before w.db.messages) rows
        → {t : RelayTickReport} {w' : World Q}
        → dispatch_rows enqueue str_uuid cfg now rows tally w ≡ (report t, w')
        → AllEnd enqueue str_uuid cfg now rows w.queue before w'.db.messages
          × (w'.queue ≡ all_handed enqueue str_uuid cfg now rows w.queue)
    unfolding dispatch_rows
    dispatch_rows-resolves [] tally before w d h {t} {w'} e =
        (tt, sym (ap (λ (x : TickResult × World Q). x.1.queue) e))
    dispatch_rows-resolves (row ∷ rows) tally before w d h {t} {w'} e =
        let ne = dispatch_row_of_report enqueue str_uuid cfg now row rows tally w e in
        let r = (dispatch_row enqueue str_uuid cfg now row w).0 in
        let w₁ = (dispatch_row enqueue str_uuid cfg now row w).1 in
        let e' = sym (dispatch_rows-cons enqueue str_uuid cfg now row rows tally w ne) ∙ e in
        let ((x, x', was, is, resolved), queue) =
          of_Leaves enqueue str_uuid cfg now b c row before _ _ _
            (dispatch_row-Leaves enqueue str_uuid cfg now b c row before w h.0) ne in
        let kept : at_id row.id w'.db.messages ≡ at_id row.id w₁.db.messages =
          ap (λ (y : TickResult × World Q). at_id row.id y.1.db.messages) (sym e')
          ∙ dispatch_rows-keeps enqueue str_uuid cfg now row.id rows (add_row r tally) w₁ d.0 in
        let waiting =
          Waits-kept row rows before w.db.messages w₁.db.messages
            (λ j other. dispatch_row-keeps enqueue str_uuid cfg now j row w other) d.0 h.1 in
        let (rest, last) =
          dispatch_rows-resolves rows (add_row r tally) before w₁ d.1 waiting {t = t} {w' = w'}
            e' in
        (
          (
            (x, x', was, kept ∙ is, resolved),
            subst (λ q. AllEnd enqueue str_uuid cfg now rows q before w'.db.messages) queue rest,
          ),
          last ∙ ap (all_handed enqueue str_uuid cfg now rows) queue,
        )

    claim-Waits :
        (claimed : List Message) (db : Db) (mid : List Row) (m : Message)
        → Distinct (λ (x : Row). x.id) db.messages
        → mid ≡ stamped now cfg.worker_id claimed m.id db.messages
        → claims claimed m.id ≡ true
        → m.status ≡ pending
        → (r : Row) × Among r db.messages × Carries now cfg.worker_id r m
        → Waits enqueue str_uuid cfg now m db.messages mid
    claim-Waits claimed db mid m d after taken fresh (r, there, carries) =
        let one : at_id m.id db.messages ≡ r ∷ [] =
          ap (λ k. at_id k db.messages) carries.id
          ∙ at_key-Among (λ (x : Row). x.id) r db.messages d there in
        (
          r,
          one,
          ap (at_id m.id) after
              ∙ at_id-stamped now cfg.worker_id claimed m.id db.messages taken
              ∙ ap (map (stamp now cfg.worker_id)) one,
          sym carries.status ∙ fresh,
          sym carries.attempts,
        )

    claimed-Waits :
        (locked : ℕ → Bool) (db : Db)
        → Distinct (λ (x : Row). x.id) db.messages
        → let (claimed, db') = claim_batch locked now cfg.batch_size cfg.worker_id db in
          All (λ m. Waits enqueue str_uuid cfg now m db.messages db'.messages) claimed
    claimed-Waits locked db d =
        let (claimed, db') = claim_batch locked now cfg.batch_size cfg.worker_id db in
        let promise = claim_batch-IsClaim locked now cfg.worker_id cfg.batch_size db in
        All-implies _ _ claimed
          (λ m h.
            claim-Waits claimed db db'.messages m d
              (claim_batch-stamps locked now cfg.batch_size cfg.worker_id db).0
              (has_id-Among (λ (x : Message). x.id) m claimed h.0) h.1.0.0 h.1.1)
          (All-zip (λ m. Among m claimed) _ claimed (All-Among claimed)
            (All-zip _ _ claimed promise.due promise.source))

    -- With distinct ids, and a positive base and cap of the delay, a tick that returns a report has
    -- handed every message that its claim took to the queue, one after the other, and has resolved
    -- its row: the one row with the id before the tick and the one row with it after are of the
    -- same job, the latter is unlocked, and it is delivered at `now` if the queue took the job; if
    -- the queue raised, it has the error and one try more, and it is failed at `now` with the tries
    -- used up, or pending until after `now` with tries left.
    pub execute-resolves :
        (locked : ℕ → Bool) (w : World Q)
        → Distinct (λ (x : Row). x.id) w.db.messages
        → {t : RelayTickReport} {w' : World Q}
        → execute enqueue str_uuid cfg now locked w ≡ (report t, w')
        → let claimed = (claim_batch locked now cfg.batch_size cfg.worker_id w.db).0 in
          AllEnd enqueue str_uuid cfg now claimed w.queue w.db.messages w'.db.messages
          × (w'.queue ≡ all_handed enqueue str_uuid cfg now claimed w.queue)
    unfolding execute
    execute-resolves locked w d e =
        dispatch_rows-resolves _ _ w.db.messages _
          (Distinct-claimed locked now cfg.worker_id cfg.batch_size w.db d)
          (claimed-Waits locked w.db d) e

  -- A tick, also one that raises, leaves the rows of every id that it did not claim as they were.
  pub execute-keeps :
      (locked : ℕ → Bool) (w : World Q) (j : ℕ)
      → claims (claim_batch locked now cfg.batch_size cfg.worker_id w.db).0 j ≡ false
      → at_id j (execute enqueue str_uuid cfg now locked w).1.db.messages ≡ at_id j w.db.messages
  unfolding execute
  execute-keeps locked w j ne =
      let (claimed, db') = claim_batch locked now cfg.batch_size cfg.worker_id w.db in
      dispatch_rows-keeps enqueue str_uuid cfg now j claimed
        (record { claimed = length claimed; dispatched = 0; retried = 0; failed = 0 })
        (record w { db = db' }) ne
      ∙ ap (at_id j) (claim_batch-stamps locked now cfg.batch_size cfg.worker_id w.db).0
      ∙ at_id-stamped_ne now cfg.worker_id claimed j w.db.messages ne
