-- ===== src/Outbox/Repository/Reclaim.antt =====
-- The table that `claim_batch` leaves, and a second claim on it. The statement of the claim does not
-- look at `locked_at`, and its row locks end with its transaction.
use starter_template_fastapi.Base.{
  ℕ, ◌≡◌, refl, String, Bool, ◌∙◌, List, map, arith, if◌then◌else◌, filter, take-map, filter-map,
  map-map_eq, map_self, any-map, [], ◌∷◌, map_congr, Bool-cases, inl, inr, ◌==◌, sym,
}
use starter_template_fastapi.Base.Sort.{sort-map}
use starter_template_fastapi.Outbox.Message.{Row, Message, Db}
use starter_template_fastapi.Outbox.Repository.{
  ready, claims_first, select_ready, has_id, stamp, stamp_rows, to_message, claim_batch,
}
use starter_template_fastapi.Outbox.Repository.Delete.{Distinct, Distinct-select}
use starter_template_fastapi.Outbox.Repository.Claim.{
  claims, claimable, claims-selected, claimed-eq-selected,
}

abbrev row_ids : List Row → List ℕ
row_ids rows = map (λ r. r.id) rows

abbrev pub message_ids : List Message → List ℕ
message_ids messages = map (λ m. m.id) messages

module _ (locked : ℕ → Bool) (now : ℕ) (n : ℕ) (worker_id : String) (db : Db) where
  -- The selected rows by their ids among the messages that the claim returns.
  stamp_rows-eq_claims :
      stamp_rows now worker_id (select_ready locked now n db.messages) db.messages
      ≡ map
          (λ r.
            if claims (claim_batch locked now n worker_id db).0 r.id
            then stamp now worker_id r
            else r)
          db.messages
  stamp_rows-eq_claims = map_congr _ _ db.messages λ r.
      rw (claimed-eq-selected locked now worker_id n db)
        (rw (claims-selected locked now worker_id n db.messages r.id))

  messages-claim_batch :
      (claim_batch locked now n worker_id db).1.messages
      ≡ stamp_rows now worker_id (select_ready locked now n db.messages) db.messages
  unfolding claim_batch select_ready
  messages-claim_batch = elim (Bool-cases (n == 0)) [
    | inl e ↦ let z : n ≡ 0 = ground arith in rw z (sym (map_self _ db.messages (λ r. refl)))
    | inr e ↦ rw e
  ]

  -- A claim stamps the rows that it returns with its time and its worker, and changes nothing else
  -- of the two tables.
  pub claim_batch-stamps :
      let (claimed, db') = claim_batch locked now n worker_id db in
      (db'.messages
        ≡ map (λ r. if claims claimed r.id then stamp now worker_id r else r) db.messages)
      × (db'.processed ≡ db.processed)
  claim_batch-stamps =
      (messages-claim_batch ∙ stamp_rows-eq_claims, unfold claim_batch in ground arith)

module _ (locked : ℕ → Bool) (now : ℕ) (n : ℕ) (worker_id : String) (selected rows : List Row) where
  abbrev restamp : Row → Row
  restamp r = if has_id (λ (s : Row). s.id) selected r.id then stamp now worker_id r else r

  claimable-restamp : (r : Row) → claimable locked now (restamp r) ≡ claimable locked now r
  unfolding ready
  claimable-restamp r = ground arith

  claims_first-restamp : (x y : Row) → claims_first (restamp x) (restamp y) ≡ claims_first x y
  unfolding claims_first
  claims_first-restamp x y = ground arith

  -- Stamps do not change what a claim selects.
  pub select_ready-stamp_rows :
      select_ready locked now n (stamp_rows now worker_id selected rows)
      ≡ map restamp (select_ready locked now n rows)
  unfolding select_ready
  select_ready-stamp_rows =
      rw (filter-map restamp (claimable locked now) (claimable locked now) rows claimable-restamp) (
        rw
          (sort-map claims_first claims_first restamp claims_first-restamp
            (filter (claimable locked now) rows))
          (take-map restamp n _))

module _ (locked : ℕ → Bool) (now : ℕ) (n : ℕ) (first second : String) (db : Db) where
  message_ids-claim_batch :
      (w : String) (d : Db)
      → message_ids (claim_batch locked now n w d).0
        ≡ row_ids (select_ready locked now n d.messages)
  unfolding to_message
  message_ids-claim_batch w d =
      rw (claimed-eq-selected locked now w n d) (map-map_eq _ _ _ _ (λ r. refl))

  -- The claim does not exclude a second worker: once its transaction has ended, and before a row is
  -- marked, another worker that claims at the same instant, with the same rows locked by others, is
  -- handed the very same rows.
  pub claim_batch-claim_batch :
      let (claimed, db') = claim_batch locked now n first db in
      message_ids (claim_batch locked now n second db').0 ≡ message_ids claimed
  claim_batch-claim_batch =
      let selected = select_ready locked now n db.messages in
      rw (message_ids-claim_batch first db) (
        message_ids-claim_batch second (claim_batch locked now n first db).1
        ∙ rw (messages-claim_batch locked now n first db) (
            rw (select_ready-stamp_rows locked now n first selected db.messages)
              (map-map_eq _ _ _ selected (λ r. ground arith))))

Distinct-map :
    (now : ℕ) (worker_id : String) (rows : List Row)
    → Distinct (λ (r : Row). r.id) rows
    → Distinct (λ (m : Message). m.id) (map (to_message now worker_id) rows)
unfolding to_message
Distinct-map now worker_id [] d = tt
Distinct-map now worker_id (r ∷ rows) d = (
  any-map (to_message now worker_id) (λ m. m.id == r.id) rows ∙ d.0,
  Distinct-map now worker_id rows d.1,
)

-- Where the table has distinct ids, so has what a claim returns.
pub Distinct-claimed :
    (locked : ℕ → Bool) (now : ℕ) (worker_id : String) (n : ℕ) (db : Db)
    → Distinct (λ (r : Row). r.id) db.messages
    → Distinct (λ (m : Message). m.id) (claim_batch locked now n worker_id db).0
unfolding select_ready
Distinct-claimed locked now worker_id n db d = rw (claimed-eq-selected locked now worker_id n db) (
    Distinct-map now worker_id _
      (Distinct-select (λ (r : Row). r.id) claims_first n (claimable locked now) db.messages d))
