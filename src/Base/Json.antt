-- ===== src/Base/Json.antt =====
-- JSON values, and Python's `dict` of them: string keys in insertion order.
use starter_template_fastapi.Base.{
  String, Bool, true, false, Option, none, some, str_eq, if◌then◌else◌,
}

mutual
  pub data Json : Type 0 where
    null : Json
    boolean : Bool → Json
    number : String → Json
    text : String → Json
    array : Items → Json
    object : Fields → Json

  pub data Items : Type 0 where
    nil : Items
    cons : Json → Items → Items

  pub data Fields : Type 0 where
    end : Fields
    field : String → Json → Fields → Fields

-- d.get(key)
unfoldable pub get : String → Fields → Option Json
get k end = none
get k (field j v fs) = if str_eq j k then some v else get k fs

-- `key in d`
unfoldable pub has_key : String → Fields → Bool
has_key k end = false
has_key k (field j v fs) = if str_eq j k then true else has_key k fs

-- d[key] = value: a key that is there keeps its place
unfoldable pub put : String → Json → Fields → Fields
put k v end = field k v end
put k v (field j w fs) = if str_eq j k then field j v fs else field j w (put k v fs)

-- d without a key
unfoldable pub without_key : String → Fields → Fields
without_key k end = end
without_key k (field j v fs) = if str_eq j k then without_key k fs else field j v (without_key k fs)

-- d.setdefault(key, value)
unfoldable pub set_default : String → Json → Fields → Fields
unfolding has_key put
set_default k v fs = if has_key k fs then fs else put k v fs

-- bool(d)
unfoldable pub is_nonempty : Fields → Bool
is_nonempty end = false
is_nonempty (field _ _ _) = true
