-- ===== src/Outbox/System/Rows.antt =====
-- The rows and the messages of the outbox over the statements of a claim and of the marks.
use mathlib.Core.Path.{subst}
use starter_template_fastapi.Base.{
  ℕ, ◌≤◌, ◌<◌, ◌≡◌, inl, inr, String, Bool, true, false, is_some, Option, List, [], ◌∷◌, ◌++◌, map,
  arith, ◌==◌, if◌then◌else◌, filter, All, All-map, All-take, Bool-cases,
}
use starter_template_fastapi.Base.Sort.{All-sort}
use starter_template_fastapi.Outbox.Message.{
  OutboxStatus, pending, delivered, failed, Row, Message, Db,
}
use starter_template_fastapi.Outbox.Repository.{
  ready, claims_first, select_ready, stamp, to_message, claim_batch,
}
use starter_template_fastapi.Outbox.Repository.Claim.{claimable, claimed-eq-selected}
use starter_template_fastapi.Outbox.Repository.Reclaim.{claim_batch-stamps}

-- A row that waits has tries left; a row that was handed over or given up has the time of that; and
-- no row has used more tries than there are.
abbrev pub StatusOk : ℕ → OutboxStatus → ℕ → Option ℕ → Option ℕ → Type 0
StatusOk max_attempts pending attempts delivered_at failed_at = attempts < max_attempts
StatusOk max_attempts delivered attempts delivered_at failed_at =
    (is_some delivered_at ≡ true) × (attempts ≤ max_attempts)
StatusOk max_attempts failed attempts delivered_at failed_at =
    (is_some failed_at ≡ true) × (attempts ≤ max_attempts)

abbrev pub RowOk : ℕ → Row → Type 0
RowOk max_attempts r = StatusOk max_attempts r.status r.attempts r.delivered_at r.failed_at

abbrev pub RowsOk : ℕ → List Row → Type 0
RowsOk max_attempts rows = All (λ r. RowOk max_attempts r) rows

abbrev pub MessagesOk : ℕ → List Message → Type 0
MessagesOk max_attempts messages = All (λ m. m.attempts < max_attempts) messages

pub attempts_le :
    (n : ℕ) (status : OutboxStatus) (attempts : ℕ) (d f : Option ℕ)
    → StatusOk n status attempts d f
    → attempts ≤ n
attempts_le n pending attempts d f h = omega arith
attempts_le n delivered attempts d f h = h.1
attempts_le n failed attempts d f h = h.1

-- A row keeps its status over a retry.
pub retried_ok :
    (n : ℕ) (status : OutboxStatus) (old attempts : ℕ) (d f : Option ℕ)
    → attempts < n
    → StatusOk n status old d f
    → StatusOk n status attempts d f
retried_ok n pending old attempts d f lt h = lt
retried_ok n delivered old attempts d f lt h = (h.0, omega arith)
retried_ok n failed old attempts d f lt h = (h.0, omega arith)

-- An item that is taken out of a list, and those that stay.
All-taken :
    {A : Type 0} (P : A → Type 0) (before after : List A) (m : A)
    → All P (before ++ m ∷ after)
    → All P (before ++ after) × P m
All-taken P [] after m h = (h.1, h.0)
All-taken P (x ∷ before) after m h =
    let (rest, mine) = All-taken P before after m h.1 in ((h.0, rest), mine)

pub All-removed :
    {A : Type 0} (P : A → Type 0) (before after : List A) (m : A) {l : List A}
    → l ≡ before ++ m ∷ after
    → All P l
    → All P (before ++ after) × P m
All-removed P before after m e h = All-taken P before after m (subst (All P) e h)

pub RowsOk-map :
    (n : ℕ) (set : Row → Row) (rows : List Row)
    → ((r : Row) → RowOk n r → RowOk n (set r))
    → RowsOk n rows
    → RowsOk n (map set rows)
RowsOk-map n set [] keep h = tt
RowsOk-map n set (r ∷ rows) keep h = (keep r h.0, RowsOk-map n set rows keep h.1)

stamp-RowOk :
    (n now : ℕ) (worker_id : String) (b : Bool) (r : Row)
    → RowOk n r
    → RowOk n (if b then stamp now worker_id r else r)
stamp-RowOk n now worker_id true r h = h
stamp-RowOk n now worker_id false r h = h

pub claim-RowsOk :
    (n : ℕ) (locked : ℕ → Bool) (now batch_size : ℕ) (worker_id : String) (db : Db)
    → RowsOk n db.messages
    → RowsOk n (claim_batch locked now batch_size worker_id db).1.messages
claim-RowsOk n locked now batch_size worker_id db h =
    rw ((claim_batch-stamps locked now batch_size worker_id db).0)
      (RowsOk-map n _ db.messages (λ r. stamp-RowOk n now worker_id _ r) h)

pending_attempts :
    (n : ℕ) (locked : ℕ → Bool) (now : ℕ) (r : Row)
    → claimable locked now r ≡ true
    → RowOk n r
    → r.attempts < n
unfolding ready
pending_attempts n locked now r e h = ground arith

-- A row that a claim may take has tries left.
claimable_attempts :
    (n : ℕ) (locked : ℕ → Bool) (now : ℕ) (rows : List Row)
    → RowsOk n rows
    → All (λ r. r.attempts < n) (filter (claimable locked now) rows)
claimable_attempts n locked now [] h = tt
claimable_attempts n locked now (r ∷ rows) h = elim (Bool-cases (claimable locked now r)) [
  | inl e ↦ rw e (pending_attempts n locked now r e h.0, claimable_attempts n locked now rows h.1)
  | inr e ↦ rw e (claimable_attempts n locked now rows h.1)
]

selected_attempts :
    (n : ℕ) (locked : ℕ → Bool) (now batch_size : ℕ) (rows : List Row)
    → RowsOk n rows
    → All (λ r. r.attempts < n) (select_ready locked now batch_size rows)
unfolding select_ready
selected_attempts n locked now batch_size rows h =
    All-take (λ r. r.attempts < n) batch_size _
      (All-sort claims_first (λ r. r.attempts < n) _ (claimable_attempts n locked now rows h))

pub claim-MessagesOk :
    (n : ℕ) (locked : ℕ → Bool) (now batch_size : ℕ) (worker_id : String) (db : Db)
    → RowsOk n db.messages
    → MessagesOk n (claim_batch locked now batch_size worker_id db).0
unfolding to_message
claim-MessagesOk n locked now batch_size worker_id db h =
    rw (claimed-eq-selected locked now worker_id batch_size db) (
      All-map (to_message now worker_id) (λ m. m.attempts < n)
        (select_ready locked now batch_size db.messages)
        (selected_attempts n locked now batch_size db.messages h))

pub update-RowsOk :
    (n k : ℕ) (set : Row → Row) (rows : List Row)
    → ((r : Row) → RowOk n r → RowOk n (set r))
    → RowsOk n rows
    → RowsOk n (map (λ r. if r.id == k then set r else r) rows)
update-RowsOk n k set rows keep h =
    RowsOk-map n _ rows
      (λ r ok. elim (Bool-cases (r.id == k)) [ inl e ↦ rw e (keep r ok) | inr e ↦ rw e ok ]) h
