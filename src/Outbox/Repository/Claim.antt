-- ===== src/Outbox/Repository/Claim.antt =====
-- What `claim_batch` promises of the rows that it returns and of the table that it leaves.
use starter_template_fastapi.Base.{
  ℕ, zero, suc, ◌≡◌, refl, ◌∙◌, ◌≤◌, ◌⊎◌, inl, inr, String, Bool, true, false, not, ◌&&◌, ◌||◌,
  List, [], ◌∷◌, map, arith, ltb, leb, ◌==◌, min, length, filter, count, All, length-take,
  length-filter, count-take_le, count-filter_le, some, length-map, All-map, All-take, All-filter,
  All-implies, All-of_filter, any-map, ==-refl,
}
use starter_template_fastapi.Base.Keys.Among.{Among, All-Among}
use starter_template_fastapi.Base.Keyset.Kept.{All-filter_kept}
use starter_template_fastapi.Base.Sort.{
  count-sort, sort, IsSorted, IsOrder, sort-IsSorted, length-sort, All-sort, All-of_sort,
  IsSorted-take, IsSorted-map, prefix_or_after,
}
use starter_template_fastapi.Outbox.Message.{pending, Row, Message, Db}
use starter_template_fastapi.Outbox.Repository.{
  ready, claims_first, select_ready, has_id, to_message, claim_batch,
}

-- Rows that a claim may take: ready, and locked by no running transaction.
abbrev pub claimable : (ℕ → Bool) → ℕ → Row → Bool
claimable locked now r = ready now r && not (locked r.id)

-- (available_at, id) in lexicographic order
abbrev pub due_before : Message → Row → Bool
due_before m r =
    ltb m.available_at r.available_at || m.available_at == r.available_at && leb m.id r.id

abbrev pub message_before : Message → Message → Bool
message_before a b =
    ltb a.available_at b.available_at || a.available_at == b.available_at && leb a.id b.id

abbrev pub claims : List Message → ℕ → Bool
claims = has_id (λ (m : Message). m.id)

claims_first-IsOrder : IsOrder claims_first
unfolding claims_first
claims_first-IsOrder = record { total = λ x y h. ground arith; trans = λ x y z h k. ground arith }

module _ (locked : ℕ → Bool) (now batch_size : ℕ) (rows : List Row) where
  abbrev candidates : List Row
  candidates = sort claims_first (filter (claimable locked now) rows)

  candidates-IsSorted : IsSorted claims_first candidates
  candidates-IsSorted = sort-IsSorted claims_first-IsOrder (filter (claimable locked now) rows)

  length-select_ready :
      length (select_ready locked now batch_size rows)
      ≡ min batch_size (count (claimable locked now) rows)
  unfolding select_ready
  length-select_ready = simp (length-take, length-sort, length-filter)

  select_ready-claimable :
      All (λ r. claimable locked now r ≡ true) (select_ready locked now batch_size rows)
  unfolding select_ready
  select_ready-claimable =
      All-take (λ r. claimable locked now r ≡ true) batch_size candidates
        (All-sort claims_first (λ r. claimable locked now r ≡ true) _
          (All-filter (claimable locked now) rows))

  candidates_earliest :
      All
        (λ r.
          (has_id (λ (s : Row). s.id) (select_ready locked now batch_size rows) r.id ≡ true)
          ⊎ All (λ s. claims_first s r ≡ true) (select_ready locked now batch_size rows))
        (filter (claimable locked now) rows)
  unfolding select_ready
  candidates_earliest = All-of_sort claims_first _ (filter (claimable locked now) rows) (
      prefix_or_after claims_first (λ r s. s.id == r.id) batch_size candidates (λ r. ==-refl r.id)
        candidates-IsSorted)

-- A message with the data of a row, and the claim's own lock.
pub record Carries (now : ℕ) (worker_id : String) (r : Row) (m : Message) : Type 0 where
  pub id : m.id ≡ r.id
  pub job_name : m.job_name ≡ r.job_name
  pub payload : m.payload ≡ r.payload
  pub trace_context : m.trace_context ≡ r.trace_context
  pub available_at : m.available_at ≡ r.available_at
  pub status : m.status ≡ r.status
  pub attempts : m.attempts ≡ r.attempts
  pub last_error : m.last_error ≡ r.last_error
  pub created_at : m.created_at ≡ r.created_at
  pub delivered_at : m.delivered_at ≡ r.delivered_at
  pub locked_at : m.locked_at ≡ some now
  pub locked_by : m.locked_by ≡ some worker_id

-- What the caller of `claim_batch` may rely on.
pub record IsClaim (locked : ℕ → Bool) (now : ℕ) (worker_id : String) (batch_size : ℕ)
    (rows : List Row) (claimed : List Message) : Type 0 where
  pub source : All (λ m. (r : Row) × Among r rows × Carries now worker_id r m) claimed
  pub once : (k : ℕ) → count (λ m. m.id == k) claimed ≤ count (λ (r : Row). r.id == k) rows
  pub size : length claimed ≡ min batch_size (count (claimable locked now) rows)
  pub order : IsSorted message_before claimed
  pub due : All (λ m. (m.status ≡ pending) × (m.available_at ≤ now) × (locked m.id ≡ false)) claimed
  pub earliest :
      All
        (λ r.
          (claimable locked now r ≡ false)
          ⊎ ((claims claimed r.id ≡ true) ⊎ All (λ m. due_before m r ≡ true) claimed))
        rows

module _ (locked : ℕ → Bool) (now : ℕ) (worker_id : String) where
  claimable_due :
      (r : Row)
      → claimable locked now r ≡ true
      → ((to_message now worker_id r).status ≡ pending)
        × ((to_message now worker_id r).available_at ≤ now)
        × (locked (to_message now worker_id r).id ≡ false)
  unfolding ready to_message
  claimable_due r h = ground arith

  same_order :
      (x y : Row)
      → message_before (to_message now worker_id x) (to_message now worker_id y) ≡ claims_first x y
  unfolding to_message claims_first
  same_order x y = refl

  to_message-Carries : (r : Row) → Carries now worker_id r (to_message now worker_id r)
  unfolding to_message
  to_message-Carries r = record {
    id = refl;
    job_name = refl;
    payload = refl;
    trace_context = refl;
    available_at = refl;
    status = refl;
    attempts = refl;
    last_error = refl;
    created_at = refl;
    delivered_at = refl;
    locked_at = refl;
    locked_by = refl;
  }

  count-messages :
      (k : ℕ) (rows : List Row)
      → count (λ m. m.id == k) (map (to_message now worker_id) rows)
        ≡ count (λ (r : Row). r.id == k) rows
  unfolding to_message
  count-messages k [] = refl
  count-messages k (r ∷ rows) = ground (arith, count-messages k rows)

  module _ (n : ℕ) (rows : List Row) where
    abbrev selected : List Row
    selected = select_ready locked now n rows

    pub claims-selected :
        (k : ℕ)
        → claims (map (to_message now worker_id) (select_ready locked now n rows)) k
          ≡ has_id (λ (s : Row). s.id) (select_ready locked now n rows) k
    unfolding to_message
    claims-selected k = any-map (to_message now worker_id) (λ m. m.id == k) selected

    split_earliest :
        (r : Row)
        → (claimable locked now r ≡ false)
          ⊎ ((has_id (λ (s : Row). s.id) selected r.id ≡ true)
              ⊎ All (λ s. claims_first s r ≡ true) selected)
        → (claimable locked now r ≡ false)
          ⊎ ((claims (map (to_message now worker_id) selected) r.id ≡ true)
              ⊎ All (λ m. due_before m r ≡ true) (map (to_message now worker_id) selected))
    unfolding to_message claims_first
    split_earliest r (inl e) = inl e
    split_earliest r (inr (inl e)) = inr (inl (claims-selected r.id ∙ e))
    split_earliest r (inr (inr h)) =
        inr (inr (All-map (to_message now worker_id) (λ m. due_before m r ≡ true) selected h))

    selected-Among : All (λ r. Among r rows) selected
    unfolding select_ready
    selected-Among =
        All-take (λ r. Among r rows) n _
          (All-sort claims_first (λ r. Among r rows) _
            (All-filter_kept (λ r. Among r rows) (claimable locked now) rows (All-Among rows)))

    selected_once :
        (k : ℕ) → count (λ (r : Row). r.id == k) selected ≤ count (λ (r : Row). r.id == k) rows
    unfolding select_ready
    selected_once k =
        let kept = filter (claimable locked now) rows in
        omega (
          arith,
          count-take_le (λ (r : Row). r.id == k) n (sort claims_first kept),
          count-sort claims_first (λ (r : Row). r.id == k) kept,
          count-filter_le (λ (r : Row). r.id == k) (claimable locked now) rows,
        )

    selected-IsClaim : IsClaim locked now worker_id n rows (map (to_message now worker_id) selected)
    unfolding to_message
    selected-IsClaim = record {
      source =
          All-map (to_message now worker_id)
            (λ m. (r : Row) × Among r rows × Carries now worker_id r m) selected
            (All-implies _ _ selected (λ r h. (r, h, to_message-Carries r)) selected-Among);
      once = λ k. rw (count-messages k selected) (selected_once k);
      size = rw length-map (length-select_ready locked now n rows);
      order =
          IsSorted-map claims_first message_before (to_message now worker_id)
            (λ x y. same_order x y) selected
            (unfold select_ready in
              IsSorted-take claims_first n _ (candidates-IsSorted locked now n rows));
      due = All-map (to_message now worker_id) _ selected (
          All-implies (λ r. claimable locked now r ≡ true) _ selected claimable_due
            (select_ready-claimable locked now n rows));
      earliest =
          All-implies _ _ rows (λ r h. split_earliest r h)
            (All-of_filter _ (claimable locked now) rows (candidates_earliest locked now n rows));
    }

  pub claimed-eq-selected :
      (n : ℕ) (db : Db)
      → (claim_batch locked now n worker_id db).0
        ≡ map (to_message now worker_id) (select_ready locked now n db.messages)
  unfolding claim_batch select_ready
  claimed-eq-selected zero db = refl
  claimed-eq-selected (suc n) db = ground arith

  -- The messages that a claim returns carry the data of rows of the table, each row at most once, and
  -- the claim's lock. They are as many as the batch allows and the table offers, in the order
  -- of `(available_at, id)`, each pending, due and not locked; and every other row that could have
  -- been taken is due no earlier than all of those.
  pub claim_batch-IsClaim :
      (n : ℕ) (db : Db)
      → IsClaim locked now worker_id n db.messages (claim_batch locked now n worker_id db).0
  claim_batch-IsClaim n db = rw claimed-eq-selected (selected-IsClaim n db.messages)
