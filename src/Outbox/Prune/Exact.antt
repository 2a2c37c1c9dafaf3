-- ===== src/Outbox/Prune/Exact.antt =====
-- The loops of the prune, and what it leaves of the two tables.
use starter_template_fastapi.Base.{
  ℕ, zero, suc, ◌+◌, ◌<◌, ◌≡◌, ap, refl, ◌∙◌, inl, inr, Bool, not, ◌||◌, Option, some, List, [],
  ◌∷◌, arith, ◌==◌, length, filter, count, Bool-cases,
}
use starter_template_fastapi.Outbox.Message.{Row, Mark, Db}
use starter_template_fastapi.Outbox.Repository.{
  delete_oldest, delete_delivered_before, delete_failed_before, delete_processed_marks_before,
  delivered_before, failed_before, processed_before,
}
use starter_template_fastapi.Outbox.Repository.Delete.{
  Distinct, Distinct-filter, delete_oldest-keeps, delete_oldest-count, delete_oldest-pos,
  delete_oldest_nothing, Distinct-delete_oldest,
}
use starter_template_fastapi.Base.Filters.{count-add-filter-not, filter-not_of_none}
use starter_template_fastapi.Outbox.Prune.{
  Retention, PruneResult, summary, drain, cutoffs, sweep, execute,
}

module _ {ℓ} {A : Type ℓ} (ident : A → ℕ) (eligible : A → Bool) (at : A → Option ℕ)
    (limit : ℕ) where
  abbrev kept : List A → List A
  kept = filter (λ r. not (eligible r))

  abbrev ended : ℕ → List A → Option (ℕ × List A)
  ended total rows = some (total, rows)

  stop_exact :
      (total : ℕ) (rows : List A)
      → 0 < limit
      → (delete_oldest ident eligible at limit rows).0 ≡ 0
      → ended total (delete_oldest ident eligible at limit rows).1
        ≡ ended (total + count eligible rows) (kept rows)
  stop_exact total rows l e =
      let z : count eligible rows ≡ 0 =
        ground (arith, delete_oldest-pos ident eligible at limit rows) in
      rw
        (
          z,
          filter-not_of_none eligible rows z,
          delete_oldest_nothing ident eligible at limit rows e,
        )
        (ground arith)

  go_exact :
      (total : ℕ) (rows : List A)
      → Distinct ident rows
      → ended
          (total
            + (delete_oldest ident eligible at limit rows).0
            + count eligible (delete_oldest ident eligible at limit rows).1)
          (kept (delete_oldest ident eligible at limit rows).1)
        ≡ ended (total + count eligible rows) (kept rows)
  go_exact total rows d =
      let rest = (delete_oldest ident eligible at limit rows).1 in
      let same = delete_oldest-keeps ident eligible at limit rows d in
      rw same (
        ap (λ (n : ℕ). ended n (kept rows))
          (omega (
            arith,
            ap length same,
            delete_oldest-count ident eligible at limit rows,
            count-add-filter-not eligible rows,
            count-add-filter-not eligible rest,
          )))

  -- With more fuel than rows, the loop has removed the eligible rows when it ends, and no other.
  pub drain-exact :
      (fuel total : ℕ) (rows : List A)
      → 0 < limit
      → Distinct ident rows
      → length rows < fuel
      → drain fuel (delete_oldest ident eligible at limit) total rows
        ≡ ended (total + count eligible rows) (kept rows)
  unfolding drain
  drain-exact zero total rows l d f = absurd (omega arith)
  drain-exact (suc fuel) total rows l d f =
      let deleted = (delete_oldest ident eligible at limit rows).0 in
      let rest = (delete_oldest ident eligible at limit rows).1 in
      elim (Bool-cases (deleted == 0)) [
        | inl e ↦ rw e (stop_exact total rows l (ground arith))
        | inr e ↦ rw e (
            drain-exact fuel (total + deleted) rest l
              (Distinct-delete_oldest ident eligible at limit rows d)
              (ground (arith, delete_oldest-count ident eligible at limit rows))
            ∙ go_exact total rows d)
      ]

-- The rows that the sweep may remove.
abbrev pub expired : ℕ × ℕ × ℕ → Row → Bool
expired (delivered_cutoff, failed_cutoff, _) r =
    delivered_before delivered_cutoff r || failed_before failed_cutoff r

abbrev pub summary_of : ℕ × ℕ × ℕ → Db → PruneResult
summary_of (delivered_cutoff, failed_cutoff, processed_cutoff) db = summary (record {
  delivered_deleted = count (delivered_before delivered_cutoff) db.messages;
  failed_deleted = count (failed_before failed_cutoff) db.messages;
  processed_marks_deleted = count (processed_before processed_cutoff) db.processed;
})

-- A failed row is never counted as delivered, so the first sweep hides none from the second.
count-failed :
    (d f : ℕ) (rows : List Row)
    → count (failed_before f) (filter (λ r. not (delivered_before d r)) rows)
      ≡ count (failed_before f) rows
count-failed d f [] = refl
count-failed d f (r ∷ rows) = ground (arith, count-failed d f rows)

filter-expired :
    (d f p : ℕ) (rows : List Row)
    → filter (λ r. not (failed_before f r)) (filter (λ r. not (delivered_before d r)) rows)
      ≡ filter (λ r. not (expired (d, f, p) r)) rows
filter-expired d f p [] = refl
filter-expired d f p (r ∷ rows) = ground (arith, filter-expired d f p rows)

module _ (fuel : ℕ) (r : Retention) (now : ℕ) (db : Db) where
  sweep-exact :
      (d f p : ℕ)
      → 0 < r.batch_size
      → Distinct (λ (m : Row). m.id) db.messages
      → Distinct (λ (m : Mark). m.id) db.processed
      → length db.messages < fuel
      → length db.processed < fuel
      → sweep fuel r.batch_size (d, f, p) db
        ≡ some (
          summary_of (d, f, p) db,
          record {
            messages = filter (λ m. not (expired (d, f, p) m)) db.messages;
            processed = filter (λ m. not (processed_before p m)) db.processed;
          },
        )
  unfolding sweep delete_delivered_before delete_failed_before delete_processed_marks_before
  sweep-exact d f p l um up fm fp =
      let live = filter (λ m. not (delivered_before d m)) db.messages in
      let shorter : length live < fuel =
        omega (arith, count-add-filter-not (delivered_before d) db.messages) in
      rw
        (
          drain-exact _ (delivered_before d) (λ m. m.delivered_at) r.batch_size fuel 0 db.messages l
              um fm,
          sweep,
        )
        (rw
          (drain-exact _ (failed_before f) (λ m. m.failed_at) r.batch_size fuel 0 live l
            (Distinct-filter _ (λ m. not (delivered_before d m)) db.messages um) shorter)
          (rw
            (drain-exact _ (processed_before p) (λ m. some m.processed_at) r.batch_size fuel 0
              db.processed l up fp)
            (rw (count-failed d f db.messages, filter-expired d f p db.messages) (ground arith))))

module _ (fuel : ℕ) (r : Retention) (now : ℕ) (db : Db) where
  -- If the three cutoffs are representable, the batch size is positive, the ids of both tables are
  -- distinct, and the fuel is above the size of each table, the prune ends with the rows and marks
  -- past their retention removed, all others kept in order, and their numbers reported.
  pub execute-exact :
      {d f p : ℕ}
      → cutoffs r now ≡ some (d, f, p)
      → 0 < r.batch_size
      → Distinct (λ (m : Row). m.id) db.messages
      → Distinct (λ (m : Mark). m.id) db.processed
      → length db.messages < fuel
      → length db.processed < fuel
      → execute fuel r now db
        ≡ some (
          summary_of (d, f, p) db,
          record {
            messages = filter (λ m. not (expired (d, f, p) m)) db.messages;
            processed = filter (λ m. not (processed_before p m)) db.processed;
          },
        )
  unfolding execute
  execute-exact {d} {f} {p} e l um up fm fp =
      rw (e, execute) (sweep-exact fuel r now db d f p l um up fm fp)
