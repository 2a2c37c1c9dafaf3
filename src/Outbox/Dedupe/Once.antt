-- ===== src/Outbox/Dedupe/Once.antt =====
-- How often a handler runs for an outbox message, of deliveries between two prunes.
use starter_template_fastapi.Base.{
  ℕ, ◌≡◌, String, Bool, true, not, ◌||◌, Option, none, some, List, [], ◌∷◌, arith, ◌==◌,
  if◌then◌else◌, any, any-append,
}
use starter_template_fastapi.Outbox.Message.{Mark}
use starter_template_fastapi.Outbox.Dedupe.{marked, of_id, dedupe, deliver}

abbrev row_id : Option ℕ → ℕ
row_id none = 0
row_id (some id) = id

marked_same : (marks : List Mark) (i k : ℕ) → (i == k) ≡ true → marked marks i ≡ marked marks k
marked_same marks i k e = let same : i ≡ k = ground arith in rw same

module _ (parse_uuid : String → Option ℕ) where
  -- Some delivery of the list names the id.
  abbrev pub names : ℕ → List (ℕ × String) → Bool
  names k deliveries = any (λ d. of_id (parse_uuid d.1) k) deliveries

  dedupe-marked :
      (now : ℕ) (id : String) (k : ℕ) (marks : List Mark)
      → marked (dedupe parse_uuid now id marks).1 k ≡ (marked marks k || of_id (parse_uuid id) k)
  unfolding dedupe
  dedupe-marked now id k marks = ground (
    arith,
    any-append (λ (m : Mark). m.id == k) marks
        (record { id = row_id (parse_uuid id); processed_at = now } ∷ []),
    marked_same marks (row_id (parse_uuid id)) k,
  )

  dedupe-runs :
      (now : ℕ) (id : String) (k : ℕ) (marks : List Mark)
      → of_id (parse_uuid id) k ≡ true
      → (dedupe parse_uuid now id marks).0 ≡ not (marked marks k)
  unfolding dedupe
  dedupe-runs now id k marks h = ground (arith, marked_same marks (row_id (parse_uuid id)) k)

  -- Of deliveries one after the other, the handler of an id runs once if a delivery names it and it
  -- was not marked before, and never otherwise, also where that run raised; afterwards it is marked if it was,
  -- or if a delivery named it.
  pub deliver-once :
      (k : ℕ) (deliveries : List (ℕ × String)) (marks : List Mark)
      → ((deliver parse_uuid k deliveries marks).0
          ≡ (if marked marks k then 0 else if names k deliveries then 1 else 0))
        × (marked (deliver parse_uuid k deliveries marks).1 k
            ≡ (marked marks k || names k deliveries))
  unfolding deliver
  deliver-once k [] marks = ground arith
  deliver-once k ((now, id) ∷ rest) marks =
      let next = (dedupe parse_uuid now id marks).1 in
      ground
        (arith, dedupe-marked now id k marks, dedupe-runs now id k marks, deliver-once k rest next)
