-- ===== src/Security/Json.antt =====
-- serde_json's `Value`, as src/security.rs reads and builds it. A number is kept as its text.
-- The entries of an object are in key order, each key once.
use lqs.Prelude.{Bool, false, Option, none, some, List, [], ◌∷◌, if◌then◌else◌, Bytes, bytes_eq}

mutual
  pub data Json : Type 0 where
    null : Json
    boolean : Bool → Json
    number : Bytes → Json
    string : Bytes → Json
    array : Items → Json
    object : Fields → Json

  pub data Items : Type 0 where
    nil : Items
    cons : Json → Items → Items

  pub data Fields : Type 0 where
    end : Fields
    field : Bytes → Json → Fields → Fields

unfoldable pub to_list : Items → List Json
to_list nil = []
to_list (cons v vs) = v ∷ to_list vs

unfoldable pub of_list : List Json → Items
of_list [] = nil
of_list (v ∷ vs) = cons v (of_list vs)

unfoldable pub keys : Fields → List Bytes
keys end = []
keys (field k v fs) = k ∷ keys fs

-- `Map::get`
unfoldable pub get_field : Fields → Bytes → Option Json
unfolding bytes_eq
get_field end k = none
get_field (field j v fs) k = if bytes_eq j k then some v else get_field fs k

-- `Value::get` by a key: `None` unless the value is an object that has it.
unfoldable pub get : Json → Bytes → Option Json
unfolding get_field
get (object fs) k = get_field fs k
get _ k = none

-- `value[key]` and `.unwrap_or(&Value::Null)`
abbrev pub or_null : Option Json → Json
or_null none = null
or_null (some v) = v

-- `value == "literal"`
unfoldable pub is_text : Json → Bytes → Bool
unfolding bytes_eq
is_text (string s) k = bytes_eq s k
is_text _ k = false

-- `value[key] = v` on an object.
unfoldable pub set_field : Bytes → Json → Fields → Fields
unfolding bytes_eq
set_field k v end = field k v end
set_field k v (field j w fs) = if bytes_eq j k then field j v fs else field j w (set_field k v fs)
