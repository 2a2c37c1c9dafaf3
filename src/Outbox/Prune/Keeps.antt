-- ===== src/Outbox/Prune/Keeps.antt =====
-- Predicates on the rows of the table over a prune.
use starter_template_fastapi.Base.{
  ℕ, zero, suc, ◌+◌, ◌≡◌, Bool, not, Option, some, List, [], ◌∷◌, arith, ◌==◌, filter, All,
  Bool-cases, Option-cases, inl, inr,
}
use mathlib.Core.Path.{subst}
use starter_template_fastapi.Base.Maybe.{>>=-eq-some}
use starter_template_fastapi.Outbox.Message.{Row, Db}
use starter_template_fastapi.Outbox.Repository.{
  select_oldest, has_id, delete_oldest, delete_delivered_before, delete_failed_before,
  delete_processed_marks_before, delivered_before, failed_before,
}
use starter_template_fastapi.Outbox.Prune.{Retention, PruneResult, drain, cutoffs, sweep, execute}

module _ {ℓ} {A : Type ℓ} (P : A → Type 0) where
  All-filter_keep : (p : A → Bool) (xs : List A) → All P xs → All P (filter p xs)
  All-filter_keep p [] h = tt
  All-filter_keep p (x ∷ xs) h = elim (Bool-cases (p x)) [
    | inl e ↦ rw e (h.0, All-filter_keep p xs h.1)
    | inr e ↦ rw e (All-filter_keep p xs h.1)
  ]

  All-delete_oldest :
      (ident : A → ℕ) (e : A → Bool) (at : A → Option ℕ) (limit : ℕ) (xs : List A)
      → All P xs
      → All P (delete_oldest ident e at limit xs).1
  unfolding delete_oldest
  All-delete_oldest ident e at limit xs h = elim (Bool-cases (limit == 0)) [
    | inl z ↦ rw z h
    | inr z ↦ rw z (
        All-filter_keep (λ r. not (has_id ident (select_oldest ident e at limit xs) (ident r))) xs
          h)
  ]

ended_eq {ℓ} :
    {S : Type ℓ} {n m : ℕ} {s t : S} → ◌≡◌ {A = Option (ℕ × S)} (some (n, s)) (some (m, t)) → s ≡ t
ended_eq e = cc

pub drain-keeps {ℓ} :
    {S : Type ℓ} (I : S → Type 0) (step : S → ℕ × S)
    → ((s : S) → I s → I (step s).1)
    → (fuel total : ℕ) (s : S) {n : ℕ} {s' : S} → drain fuel step total s ≡ some (n, s')
    → I s
    → I s'
unfolding drain
drain-keeps {S} I step keep zero total s e h = cc
drain-keeps {S} I step keep (suc fuel) total s {n} {s'} e h = elim (Bool-cases ((step s).0 == 0)) [
  | inl z ↦
      let e' : ◌≡◌ {A = Option (ℕ × S)} (some (total, (step s).1)) (some (n, s')) = rw z at e in
      subst I (ended_eq e') (keep s h)
  | inr z ↦ drain-keeps I step keep fuel (total + (step s).0) (step s).1 (rw z at e) (keep s h)
]

-- The messages and the marks that a sweep leaves.
sweep-keeps :
    (P : Row → Type 0) (fuel limit d f p : ℕ) (db : Db) {result : PruneResult} {db' : Db}
    → sweep fuel limit (d, f, p) db ≡ some (result, db')
    → All P db.messages
    → All P db'.messages
unfolding sweep delete_delivered_before delete_failed_before
sweep-keeps P fuel limit d f p db {result} {db'} e h =
    let (first, e₁, r₁) =
      >>=-eq-some (drain fuel (delete_delivered_before d limit) 0 db.messages) _ e in
    let (second, e₂, r₂) = >>=-eq-some (drain fuel (delete_failed_before f limit) 0 first.1) _ r₁ in
    let (third, e₃, r₃) =
      >>=-eq-some (drain fuel (delete_processed_marks_before p limit) 0 db.processed) _ r₂ in
    let live =
      drain-keeps (All P) _
        (All-delete_oldest P (λ r. r.id) (delivered_before d) (λ r. r.delivered_at) limit) fuel 0
        db.messages e₁ h in
    let kept =
      drain-keeps (All P) _
        (All-delete_oldest P (λ r. r.id) (failed_before f) (λ r. r.failed_at) limit) fuel 0 first.1
        e₂ live in
    let same : second.1 ≡ db'.messages = ground arith in subst (All P) same kept

pub execute-messages :
    (P : Row → Type 0) (fuel : ℕ) (r : Retention) (now : ℕ) (db : Db) {result : PruneResult}
    {db' : Db}
    → execute fuel r now db ≡ some (result, db')
    → All P db.messages
    → All P db'.messages
unfolding execute
execute-messages P fuel r now db {result} {db'} e h = elim (Option-cases (cutoffs r now)) [
  | inl none_left ↦
      let same : db ≡ db' = ground arith in subst (λ (x : Db). All P x.messages) same h
  | inr ((d, f, p), some_left) ↦
      sweep-keeps P fuel r.batch_size d f p db (rw (some_left, execute) at e) h
]
