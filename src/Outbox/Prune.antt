-- ===== src/Outbox/Prune.antt =====
-- src/features/outbox/application/use_cases/maintenance/prune_outbox.py
pub mod Exact
pub mod Keeps
use starter_template_fastapi.Base.{ℕ, zero, suc, ◌+◌, Option, none, some, List, ◌==◌, if◌then◌else◌}
use starter_template_fastapi.Base.Maybe.{◌>>=◌}
use starter_template_fastapi.Base.Clock.{days, sub_time}
use starter_template_fastapi.Outbox.Message.{Row, Mark, Db}
use starter_template_fastapi.Outbox.Repository.{
  delete_delivered_before, delete_failed_before, delete_processed_marks_before,
}

pub record PruneSummary : Type 0 where
  pub delivered_deleted : ℕ
  pub failed_deleted : ℕ
  pub processed_marks_deleted : ℕ

-- OverflowError comes from `now - timedelta(…)`.
pub data PruneResult : Type 0 where
  summary : PruneSummary → PruneResult
  overflow_error : PruneResult

-- The arguments of `execute`; the retention of marks is given in microseconds.
pub record Retention : Type 0 where
  pub retention_delivered_days : ℕ
  pub retention_failed_days : ℕ
  pub dedup_retention : ℕ
  pub batch_size : ℕ

-- The `while True` of `_drain` on fuel: `none` means that the fuel ran out.
unfoldable pub drain {ℓ} : {S : Type ℓ} → ℕ → (S → ℕ × S) → ℕ → S → Option (ℕ × S)
drain zero delete_one_batch total s = none
drain (suc fuel) delete_one_batch total s =
    let (deleted, s') = delete_one_batch s in
    let rest = drain fuel delete_one_batch (total + deleted) s' in
    if deleted == 0 then some (total, s') else rest

-- The three cutoffs, computed before anything is deleted.
unfoldable pub cutoffs : Retention → ℕ → Option (ℕ × ℕ × ℕ)
unfolding sub_time
cutoffs r now = do
  delivered_cutoff ← sub_time now (days r.retention_delivered_days)
  failed_cutoff ← sub_time now (days r.retention_failed_days)
  processed_cutoff ← sub_time now r.dedup_retention
  some (delivered_cutoff, failed_cutoff, processed_cutoff)

unfoldable pub sweep : ℕ → ℕ → ℕ × ℕ × ℕ → Db → Option (PruneResult × Db)
sweep fuel limit (delivered_cutoff, failed_cutoff, processed_cutoff) db = do
  (delivered_deleted, live) ←
      drain fuel (delete_delivered_before delivered_cutoff limit) 0 db.messages
  (failed_deleted, kept) ← drain fuel (delete_failed_before failed_cutoff limit) 0 live
  (marks_deleted, marks) ←
      drain fuel (delete_processed_marks_before processed_cutoff limit) 0 db.processed
  some (
    summary (record {
      delivered_deleted = delivered_deleted;
      failed_deleted = failed_deleted;
      processed_marks_deleted = marks_deleted;
    }),
    record { messages = kept; processed = marks },
  )

-- `execute` at the instant `now`
unfoldable pub execute : ℕ → Retention → ℕ → Db → Option (PruneResult × Db)
execute fuel r now db = elim (cutoffs r now) [
  | none ↦ some (overflow_error, db)
  | some cuts ↦ sweep fuel r.batch_size cuts db
]
