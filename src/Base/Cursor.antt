-- ===== src/Base/Cursor.antt =====
-- The cursors of src/features/users/adapters/inbound/http/cursor.py, and of
-- src/features/authentication/adapters/inbound/http/cursor.py, which has the same text.
pub mod RoundTrip
pub mod Strokes
use starter_template_fastapi.Base.{ℕ, String, Bool, ◌∷◌, Option, none, some, if◌then◌else◌}
use starter_template_fastapi.Base.Json.{
  Json, null, boolean, number, text, array, object, Fields, end, field, get,
}

-- What the codec calls of Python's library: `isoformat` and `fromisoformat` of datetimes, `str` and
-- `UUID` of UUIDs, `json` with the UTF-8 coding, and `base64`. A token is a value of `T`, its
-- bytes are of `B`; a failure raises what the codec catches.
pub record CursorLib (T B : Type 0) : Type 0 where
  pub isoformat : ℕ → String
  pub fromisoformat : String → Option ℕ
  pub str_uuid : ℕ → String
  pub parse_uuid : String → Option ℕ
  pub dumps : Json → B
  pub loads : B → Option Json
  pub b64encode : B → T
  pub b64decode : T → Option B
  pub is_empty : T → Bool

-- The messages of `InvalidCursorError`
pub data CursorError : Type 0 where
  empty not_base64 not_json not_object missing_fields bad_datetime bad_uuid : CursorError

pub data Decoded : Type 0 where
  decoded : ℕ → ℕ → Decoded
  invalid : CursorError → Decoded

module _ {T B : Type 0} (lib : CursorLib T B) where
  unfoldable pub encode_cursor : ℕ → ℕ → T
  encode_cursor created_at id = lib.b64encode (
      lib.dumps (
        object (
          field "created_at" (text (lib.isoformat created_at))
            (field "id" (text (lib.str_uuid id)) end))))

  abbrev pub decoded_id : ℕ → Option ℕ → Decoded
  decoded_id created_at none = invalid bad_uuid
  decoded_id created_at (some id) = decoded created_at id

  abbrev pub decoded_time : Option ℕ → String → Decoded
  decoded_time none id_raw = invalid bad_datetime
  decoded_time (some created_at) id_raw = decoded_id created_at (lib.parse_uuid id_raw)

  -- The isinstance tests of the two fields
  abbrev pub decoded_fields : Option Json → Option Json → Decoded
  decoded_fields (some (text created_raw)) (some (text id_raw)) =
      decoded_time (lib.fromisoformat created_raw) id_raw
  decoded_fields _ _ = invalid missing_fields

  abbrev pub decoded_json : Option Json → Decoded
  decoded_json none = invalid not_json
  decoded_json (some (object payload)) =
      decoded_fields (get "created_at" payload) (get "id" payload)
  decoded_json (some _) = invalid not_object

  abbrev pub decoded_bytes : Option B → Decoded
  decoded_bytes none = invalid not_base64
  decoded_bytes (some raw) = decoded_json (lib.loads raw)

  unfoldable pub decode_cursor : T → Decoded
  unfolding get
  decode_cursor token =
      if lib.is_empty token then invalid empty else decoded_bytes (lib.b64decode token)
