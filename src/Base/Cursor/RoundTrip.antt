-- ===== src/Base/Cursor/RoundTrip.antt =====
-- A cursor decodes to the position that it encodes.
use starter_template_fastapi.Base.{ℕ, ◌≤◌, ◌<◌, ◌^◌, ◌≡◌, refl, false, some}
use starter_template_fastapi.Base.Json.{get, Json}
use starter_template_fastapi.Base.Clock.{datetime_max}
use starter_template_fastapi.Base.Cursor.{CursorLib, decoded, encode_cursor, decode_cursor}

-- What Python documents: `fromisoformat` reads what `isoformat` writes, `UUID` what `str` writes,
-- `loads` what `dumps` writes, and base64 decoding what encoding writes, which is not empty for the
-- bytes of a JSON text.
pub record RoundTrips {T B : Type 0} (lib : CursorLib T B) : Type 0 where
  pub isoformat : (t : ℕ) → t ≤ datetime_max → lib.fromisoformat (lib.isoformat t) ≡ some t
  pub str_uuid : (i : ℕ) → i < 2 ^ 128 → lib.parse_uuid (lib.str_uuid i) ≡ some i
  pub dumps : (j : Json) → lib.loads (lib.dumps j) ≡ some j
  pub b64encode : (j : Json) → lib.b64decode (lib.b64encode (lib.dumps j)) ≡ some (lib.dumps j)
  pub nonempty : (j : Json) → lib.is_empty (lib.b64encode (lib.dumps j)) ≡ false

-- The time fits a datetime, and the id a UUID.
abbrev pub InRange : ℕ × ℕ → Type 0
InRange (created_at, id) = (created_at ≤ datetime_max) × (id < 2 ^ 128)

module _ {T B : Type 0} (lib : CursorLib T B) (laws : RoundTrips lib) where
  -- The cursor that `encode_cursor` writes for a datetime that the type can hold and an id of 128
  -- bits, `decode_cursor` reads back as these, given that the library's formats read back what they
  -- write.
  pub decode_cursor-encode_cursor :
      (created_at id : ℕ)
      → created_at ≤ datetime_max
      → id < 2 ^ 128
      → decode_cursor lib (encode_cursor lib created_at id) ≡ decoded created_at id
  unfolding decode_cursor encode_cursor get
  decode_cursor-encode_cursor created_at id h k =
      rw (laws.nonempty _, laws.b64encode _, laws.dumps _)
        (rw (laws.isoformat created_at h, laws.str_uuid id k) refl)
