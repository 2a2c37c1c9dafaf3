-- ===== src/Base/Cursor/Strokes.antt =====
-- Test data: a library for the cursors that writes a number as so many strokes.
use Prim.Native.String as Text
use package.text.Mathlib.TextLemmas.{length-append}
use starter_template_fastapi.Base.{
  ℕ, zero, suc, ◌≡◌, refl, ap, String, false, some, arith, str_append,
}
use starter_template_fastapi.Base.Json.{Json}
use starter_template_fastapi.Base.Cursor.{CursorLib}
use starter_template_fastapi.Base.Cursor.RoundTrip.{RoundTrips}

abbrev pub stroke : ℕ → String
stroke zero = ""
stroke (suc n) = str_append "x" (stroke n)

abbrev pub lib : CursorLib Json Json
lib = record {
  isoformat = stroke;
  fromisoformat = λ s. some (Text.count s);
  str_uuid = stroke;
  parse_uuid = λ s. some (Text.count s);
  dumps = λ j. j;
  loads = some;
  b64encode = λ j. j;
  b64decode = some;
  is_empty = λ j. false;
}

count-stroke : (n : ℕ) → Text.count (stroke n) ≡ n
count-stroke zero = refl
count-stroke (suc n) = omega (arith, length-append "x" (stroke n), count-stroke n)

pub lib-RoundTrips : RoundTrips lib
lib-RoundTrips = record {
  isoformat = λ t h. ap some (count-stroke t);
  str_uuid = λ i h. ap some (count-stroke i);
  dumps = λ j. refl;
  b64encode = λ j. refl;
  nonempty = λ j. refl;
}
