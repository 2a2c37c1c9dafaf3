-- ===== src/Outbox/Relay/Payload.antt =====
-- What the relay adds to the payload of a row.
use starter_template_fastapi.Base.{
  ℕ, ◌≡◌, refl, String, true, false, ◌&&◌, Option, none, some, arith, str_eq, str_eq_iff,
  if◌then◌else◌,
}
use starter_template_fastapi.Base.Json.{
  Json, Fields, end, field, text, object, get, has_key, put, set_default, is_nonempty,
}
use starter_template_fastapi.Outbox.Message.{Message}
use starter_template_fastapi.Outbox.Relay.{Config, message_id_key, trace_key, dispatched_payload}

get-put :
    (k j : String) (v : Json) (d : Fields)
    → get j (put k v d) ≡ (if str_eq k j then some v else get j d)
unfolding get put
get-put k j v end = refl
get-put k j v (field i w d) =
    ground (arith, str_eq_iff k j, str_eq_iff i k, str_eq_iff i j, get-put k j v d)

get-has_key : (k : String) (d : Fields) → has_key k d ≡ false → get k d ≡ none
unfolding get has_key
get-has_key k end h = refl
get-has_key k (field i w d) h = ground (arith, get-has_key k d)

has_key-put :
    (k j : String) (v : Json) (d : Fields)
    → has_key j (put k v d) ≡ (if str_eq k j then true else has_key j d)
unfolding has_key put
has_key-put k j v end = refl
has_key-put k j v (field i w d) =
    ground (arith, str_eq_iff k j, str_eq_iff i k, str_eq_iff i j, has_key-put k j v d)

-- The entries that a payload gets, where the row's own payload has none.
abbrev pub added : String → Message → String → Option Json
added id_text row k =
    if str_eq message_id_key k
    then some (text id_text)
    else if str_eq trace_key k && is_nonempty row.trace_context
    then some (object row.trace_context)
    else none

-- A handler finds every entry of the row's payload as the producer wrote it; under the two reserved
-- keys, where the producer wrote none, it finds the id of the row, and the trace context if there is
-- one; and under any other key nothing.
pub get-dispatched_payload :
    {Q : Type 0} (enqueue : String → Fields → Q → Q × Option String) (str_uuid : ℕ → String)
    (cfg : Config) (now : ℕ) (row : Message) (k : String)
    → get k (dispatched_payload enqueue str_uuid cfg now row)
      ≡ (if has_key k row.payload then get k row.payload else added (str_uuid row.id) row k)
unfolding dispatched_payload set_default
get-dispatched_payload enqueue str_uuid cfg now row k =
    let id_value = text (str_uuid row.id) in
    let with_id = put message_id_key id_value row.payload in
    ground (
      arith,
      get-has_key k row.payload,
      get-put message_id_key k id_value row.payload,
      get-put trace_key k (object row.trace_context) with_id,
      get-put trace_key k (object row.trace_context) row.payload,
      has_key-put message_id_key k id_value row.payload,
      has_key-put message_id_key trace_key id_value row.payload,
      str_eq_iff message_id_key k,
      str_eq_iff trace_key k,
      str_eq_iff message_id_key trace_key,
    )
