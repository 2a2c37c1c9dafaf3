-- ===== src/Outbox/Relay/AtId.antt =====
-- The rows with a given id, over the updates of the relay.
use starter_template_fastapi.Base.{
  ℕ, ◌≡◌, refl, inl, inr, String, true, false, List, [], ◌∷◌, map, arith, ◌==◌, if◌then◌else◌,
  filter, Bool-cases,
}
use starter_template_fastapi.Outbox.Message.{Row, Message}
use starter_template_fastapi.Outbox.Repository.{stamp}
use starter_template_fastapi.Outbox.Repository.Claim.{claims}

-- WHERE id = :id
abbrev pub at_id : ℕ → List Row → List Row
at_id k rows = filter (λ r. r.id == k) rows

module _ (k : ℕ) (set : Row → Row) (same : (r : Row) → (set r).id ≡ r.id) where
  pub at_id-update_where :
      (rows : List Row)
      → at_id k (map (λ r. if r.id == k then set r else r) rows) ≡ map set (at_id k rows)
  at_id-update_where [] = refl
  at_id-update_where (r ∷ rows) = elim (Bool-cases (r.id == k)) [
    | inl e ↦
        let here : ((set r).id == k) ≡ true = rw (same r) e in
        rw (e, here, at_id-update_where rows) refl
    | inr e ↦ rw (e, e) (at_id-update_where rows)
  ]

  pub at_id-update_where_ne :
      (j : ℕ) (rows : List Row)
      → (k == j) ≡ false
      → at_id j (map (λ r. if r.id == k then set r else r) rows) ≡ at_id j rows
  at_id-update_where_ne j [] ne = refl
  at_id-update_where_ne j (r ∷ rows) ne = elim (Bool-cases (r.id == k)) [
    | inl e ↦
        let other : (r.id == j) ≡ false = ground arith in
        let moved : ((set r).id == j) ≡ false = rw (same r) other in
        rw (e, moved, other) (at_id-update_where_ne j rows ne)
    | inr e ↦ let rest = at_id-update_where_ne j rows ne in rw (e, rest) refl
  ]

module _ (now : ℕ) (worker_id : String) (claimed : List Message) (j : ℕ) where
  abbrev pub stamped : List Row → List Row
  stamped rows = map (λ r. if claims claimed r.id then stamp now worker_id r else r) rows

  pub at_id-stamped :
      (rows : List Row)
      → claims claimed j ≡ true
      → at_id j (stamped rows) ≡ map (stamp now worker_id) (at_id j rows)
  at_id-stamped [] h = refl
  at_id-stamped (r ∷ rows) h =
      let rest = at_id-stamped rows h in
      elim (Bool-cases (r.id == j)) [
        | inl e ↦
            let same : r.id ≡ j = ground arith in
            let taken : claims claimed r.id ≡ true = rw same h in rw (taken, e, rest) refl
        | inr e ↦ elim (Bool-cases (claims claimed r.id)) [
          | inl taken ↦ rw (taken, e) rest
          | inr left ↦ rw (left, e) rest
        ]
      ]

  pub at_id-stamped_ne :
      (rows : List Row) → claims claimed j ≡ false → at_id j (stamped rows) ≡ at_id j rows
  at_id-stamped_ne [] h = refl
  at_id-stamped_ne (r ∷ rows) h =
      let rest = at_id-stamped_ne rows h in
      elim (Bool-cases (r.id == j)) [
        | inl e ↦
            let same : r.id ≡ j = ground arith in
            let left : claims claimed r.id ≡ false = rw same h in rw (left, e, rest) refl
        | inr e ↦ elim (Bool-cases (claims claimed r.id)) [
          | inl taken ↦ rw (taken, e) rest
          | inr left ↦ rw (left, e) rest
        ]
      ]
