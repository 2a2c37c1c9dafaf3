-- ===== src/Outbox/Repository.antt =====
-- src/features/outbox/adapters/outbound/sqlmodel/repository.py: each method is one transaction.
-- The statements are read as SQL defines them; that a statement can fail on a lost connection is
-- not modelled.
pub mod Claim
pub mod Reclaim
pub mod Delete
use starter_template_fastapi.Base.{
  ℕ, String, Bool, true, false, not, ◌&&◌, ◌||◌, Option, none, some, List, [], map, ltb, leb, ◌==◌,
  if◌then◌else◌, filter, count, any, take,
}
pub use starter_template_fastapi.Base.Keys.{has_id}
use starter_template_fastapi.Base.Sort.{sort}
use starter_template_fastapi.Outbox.Message.{
  OutboxStatus, pending, delivered, failed, Row, Message, Mark, Db,
}

abbrev pub is_pending : OutboxStatus → Bool
is_pending pending = true
is_pending delivered = false
is_pending failed = false

abbrev pub is_delivered : OutboxStatus → Bool
is_delivered pending = false
is_delivered delivered = true
is_delivered failed = false

abbrev pub is_failed : OutboxStatus → Bool
is_failed pending = false
is_failed delivered = false
is_failed failed = true

-- status = 'pending' AND available_at <= :now
unfoldable pub ready : ℕ → Row → Bool
ready now r = is_pending r.status && leb r.available_at now

-- ORDER BY available_at, id
unfoldable pub claims_first : Row → Row → Bool
claims_first a b =
    ltb a.available_at b.available_at || a.available_at == b.available_at && leb a.id b.id

-- The SELECT of `claim_batch`. `locked` tells the rows that a transaction still running has
-- locked: SKIP LOCKED passes over these.
unfoldable pub select_ready : (ℕ → Bool) → ℕ → ℕ → List Row → List Row
unfolding ready claims_first sort
select_ready locked now batch_size rows =
    take batch_size (sort claims_first (filter (λ r. ready now r && not (locked r.id)) rows))

-- SET locked_at = :now, locked_by = :worker_id
abbrev pub stamp : ℕ → String → Row → Row
stamp now worker_id r = record r { locked_at = some now; locked_by = some worker_id }

-- The message that `claim_batch` builds from a row; `_coerce_status` changes no status.
unfoldable pub to_message : ℕ → String → Row → Message
to_message now worker_id r = record {
  id = r.id;
  job_name = r.job_name;
  payload = r.payload;
  available_at = r.available_at;
  status = r.status;
  attempts = r.attempts;
  last_error = r.last_error;
  locked_at = some now;
  locked_by = some worker_id;
  created_at = r.created_at;
  delivered_at = r.delivered_at;
  trace_context = r.trace_context;
}

abbrev pub stamp_rows : ℕ → String → List Row → List Row → List Row
stamp_rows now worker_id selected rows =
    map (λ r. if has_id (λ (s : Row). s.id) selected r.id then stamp now worker_id r else r) rows

unfoldable pub claim_batch : (ℕ → Bool) → ℕ → ℕ → String → Db → List Message × Db
unfolding select_ready to_message
claim_batch locked now batch_size worker_id db =
    if batch_size == 0
    then ([], db)
    else (let selected = select_ready locked now batch_size db.messages in
        (
          map (to_message now worker_id) selected,
          record db { messages = stamp_rows now worker_id selected db.messages },
        ))

-- UPDATE outbox_messages SET … WHERE id = :id
abbrev pub update_where : ℕ → (Row → Row) → Db → Db
update_where k set db = record db {
  messages = map (λ r. if r.id == k then set r else r) db.messages;
}

abbrev pub delivered_row : ℕ → Row → Row
delivered_row now r = record r {
  status = delivered;
  delivered_at = some now;
  locked_at = none;
  locked_by = none;
}

unfoldable pub mark_delivered : ℕ → ℕ → Db → Db
mark_delivered k delivered_at = update_where k (delivered_row delivered_at)

abbrev pub retried_row : ℕ → String → ℕ → Row → Row
retried_row attempts last_error available_at r = record r {
  attempts = attempts;
  last_error = some last_error;
  available_at = available_at;
  locked_at = none;
  locked_by = none;
}

unfoldable pub mark_retry : ℕ → ℕ → String → ℕ → Db → Db
mark_retry k attempts last_error available_at =
    update_where k (retried_row attempts last_error available_at)

abbrev pub failed_row : ℕ → String → ℕ → Row → Row
failed_row attempts last_error failed_at r = record r {
  status = failed;
  attempts = attempts;
  last_error = some last_error;
  failed_at = some failed_at;
  locked_at = none;
  locked_by = none;
}

unfoldable pub mark_failed : ℕ → ℕ → String → ℕ → Db → Db
mark_failed k attempts last_error failed_at =
    update_where k (failed_row attempts last_error failed_at)

-- x IS NOT NULL AND x < :cutoff
abbrev pub before_cutoff : ℕ → Option ℕ → Bool
before_cutoff cutoff none = false
before_cutoff cutoff (some t) = ltb t cutoff

-- ORDER BY x, for values that are not null
abbrev pub oldest_first : Option ℕ → Option ℕ → Bool
oldest_first none b = true
oldest_first (some a) none = false
oldest_first (some a) (some b) = leb a b

-- DELETE … WHERE id IN (SELECT id … WHERE eligible ORDER BY at LIMIT :limit), with the rowcount.
module _ {ℓ} {A : Type ℓ} (ident : A → ℕ) (eligible : A → Bool) (at : A → Option ℕ) where
  unfoldable pub select_oldest : ℕ → List A → List A
  unfolding sort
  select_oldest limit rows =
      take limit (sort (λ a b. oldest_first (at a) (at b)) (filter eligible rows))

  unfoldable pub delete_oldest : ℕ → List A → ℕ × List A
  unfolding select_oldest
  delete_oldest limit rows =
      if limit == 0
      then (0, rows)
      else (let doomed = has_id ident (select_oldest limit rows) in
          (count (λ r. doomed (ident r)) rows, filter (λ r. not (doomed (ident r))) rows))

abbrev pub delivered_before : ℕ → Row → Bool
delivered_before cutoff r = is_delivered r.status && before_cutoff cutoff r.delivered_at

abbrev pub failed_before : ℕ → Row → Bool
failed_before cutoff r = is_failed r.status && before_cutoff cutoff r.failed_at

abbrev pub processed_before : ℕ → Mark → Bool
processed_before cutoff m = ltb m.processed_at cutoff

unfoldable pub delete_delivered_before : ℕ → ℕ → List Row → ℕ × List Row
unfolding delete_oldest
delete_delivered_before cutoff =
    delete_oldest (λ r. r.id) (delivered_before cutoff) (λ r. r.delivered_at)

unfoldable pub delete_failed_before : ℕ → ℕ → List Row → ℕ × List Row
unfolding delete_oldest
delete_failed_before cutoff = delete_oldest (λ r. r.id) (failed_before cutoff) (λ r. r.failed_at)

unfoldable pub delete_processed_marks_before : ℕ → ℕ → List Mark → ℕ × List Mark
unfolding delete_oldest
delete_processed_marks_before cutoff =
    delete_oldest (λ m. m.id) (processed_before cutoff) (λ m. some m.processed_at)
