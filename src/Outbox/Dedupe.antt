-- ===== src/Outbox/Dedupe.antt =====
-- src/features/outbox/composition/handler_dedupe.py: `_dedupe`, which a handler asks whether to run.
pub mod Once
use starter_template_fastapi.Base.{
  ℕ, suc, String, Bool, true, false, ◌&&◌, Option, none, some, List, [], ◌∷◌, ◌++◌, ◌==◌,
  if◌then◌else◌,
}
use starter_template_fastapi.Outbox.Message.{Mark}
use starter_template_fastapi.Outbox.Repository.{has_id}

abbrev pub marked : List Mark → ℕ → Bool
marked = has_id (λ (m : Mark). m.id)

-- The INSERT commits, or raises IntegrityError on a primary key that is there.
unfoldable pub insert_mark : ℕ → ℕ → List Mark → Bool × List Mark
insert_mark now id marks =
    if marked marks id
    then (false, marks)
    else (true, marks ++ record { id = id; processed_at = now } ∷ [])

abbrev pub of_id : Option ℕ → ℕ → Bool
of_id none k = false
of_id (some id) k = id == k

-- `parse_uuid` is `UUID(message_id)`: `none` for a text that raises ValueError.
module _ (parse_uuid : String → Option ℕ) where
  unfoldable pub dedupe : ℕ → String → List Mark → Bool × List Mark
  unfolding insert_mark
  dedupe now message_id marks = elim (parse_uuid message_id) [
    | none ↦ (true, marks)
    | some row_id ↦ insert_mark now row_id marks
  ]

  -- Deliveries one after the other, each with its time: how often the handler of an id has run.
  unfoldable pub deliver : ℕ → List (ℕ × String) → List Mark → ℕ × List Mark
  deliver k [] marks = (0, marks)
  deliver k ((now, message_id) ∷ rest) marks =
      let (run, marks') = dedupe now message_id marks in
      let (n, marks'') = deliver k rest marks' in
      (if run && of_id (parse_uuid message_id) k then suc n else n, marks'')
