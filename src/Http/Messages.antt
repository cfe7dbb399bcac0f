-- ===== src/Http/Messages.antt =====
-- src/attributes_http.rs: the message attributes in a request.
use lqs.Prelude.{
  ℕ, Bool, true, false, not, ◌||◌, Option, none, some, List, [], ◌∷◌, if◌then◌else◌, ◌==◌, any,
  Bytes, text, bytes_eq, map_insert, split_once,
}
use lqs.Prelude.Parse.{strip_prefix, parse_index, map_get, index_insert, index_get}
use lqs.Security.Json.{Json, string, array, object, Fields, Items, get}
use lqs.Security.Settings.{unwrap_or}
use lqs.Attributes.{MessageAttribute, MessageAttributeValue, MessageAttributes}
use lqs.Http.Reply.{
  ApiError, invalid_parameter, Reply, done, refused, ◌>>=◌, ◌>>◌, or_refuse, refuse_if,
}
use lqs.Http.Web.{Web}
use lqs.Http.Wire.{WireRequest, json_field, as_str}
use lqs.Http.Names.{Attributes}
use lqs.Http.Maps.{is_one_of}
use lqs.Http.Answer.{JsonMap, json_of}

abbrev invalid : Bytes → ApiError
invalid reason = invalid_parameter (text "MessageAttributes") reason

-- What a query map says of the attributes, by index: field names and their values.
abbrev pub Indexed : Type 0
Indexed = List (ℕ × Attributes)

unfoldable pub add_indexed : Bytes → Bytes → Indexed → Reply Indexed
add_indexed rest v indexed = do
  (index, field) ←
      or_refuse (split_once (λ b. b == b'.') rest) (invalid (text "invalid attribute index"))
  n ← or_refuse (parse_index index) (invalid (text "invalid attribute index"))
  done (index_insert n (map_insert field v (unwrap_or (index_get n indexed) [])) indexed)

unfoldable pub collect_indexed : List (Bytes × Bytes) → Indexed → Reply Indexed
collect_indexed [] indexed = done indexed
collect_indexed ((key, v) ∷ query) indexed = elim (strip_prefix (text "MessageAttribute.") key) [
  | none ↦ collect_indexed query indexed
  | some rest ↦ add_indexed rest v indexed >>= collect_indexed query
]

abbrev value_fields : List Bytes
value_fields = text "DataType" ∷ text "StringValue" ∷ text "BinaryValue" ∷ []

-- The loop over the fields of one attribute
unfoldable pub value_of_fields : Attributes → JsonMap → Reply JsonMap
value_of_fields [] made = done made
value_of_fields ((field, content) ∷ fields) made =
    if bytes_eq field (text "Name") then value_of_fields fields made else (do
      name ←
          or_refuse (strip_prefix (text "Value.") field) (invalid (text "invalid attribute field"))
      refuse_if (not (is_one_of value_fields name)) (invalid (text "unsupported attribute field"))
      value_of_fields fields (map_insert name (string content) made))

abbrev is_named : JsonMap → Bytes → Bool
is_named entries name = any (λ e. bytes_eq e.0 name) entries

unfoldable pub query_attributes : Indexed → JsonMap → Reply JsonMap
query_attributes [] entries = done entries
query_attributes ((n, fields) ∷ indexed) entries = do
  name ← or_refuse (map_get (text "Name") fields) (invalid (text "missing attribute name"))
  made ← value_of_fields fields []
  refuse_if (is_named entries name) (invalid (text "duplicate attribute name"))
  query_attributes indexed (map_insert name (json_of made) entries)

unfoldable pub entries_of : Fields → JsonMap
entries_of Fields.end = []
entries_of (Fields.field name v fields) = (name, v) ∷ entries_of fields

abbrev json_attributes : Option Json → Reply JsonMap
json_attributes none = done []
json_attributes (some (object fields)) = done (entries_of fields)
json_attributes (some _) = refused (invalid (text "must be a map"))

unfoldable pub attribute_entries : WireRequest → Reply JsonMap
attribute_entries r = elim r.json [
  | some v ↦ json_attributes (json_field r (text "MessageAttributes"))
  | none ↦ collect_indexed r.query [] >>= λ indexed. query_attributes indexed []
]

-- A field of lists may be absent or an empty array.
abbrev has_values : Option Json → Bool
has_values none = false
has_values (some (array Items.nil)) = false
has_values (some _) = true

abbrev as_fields : Json → Option Fields
as_fields (object fields) = some fields
as_fields _ = none

abbrev as_text : Option Json → Option Bytes
as_text none = none
as_text (some v) = as_str v

-- `(object.get("StringValue"), object.get("BinaryValue"))`
unfoldable pub one_value : Web → Option Json → Option Json → Reply MessageAttributeValue
one_value web (some (string s)) none = done (MessageAttributeValue.string s)
one_value web none (some (string s)) = do
  decoded ← or_refuse (web.base64_decode s) (invalid (text "BinaryValue must be valid base64"))
  done (MessageAttributeValue.binary decoded)
one_value web _ _ = refused (invalid (text "specify exactly one StringValue or BinaryValue"))

unfoldable pub attribute_of : Web → Json → Reply MessageAttribute
attribute_of web v = do
  fields ← or_refuse (as_fields v) (invalid (text "attribute must be an object"))
  refuse_if
      (has_values (get v (text "StringListValues")) || has_values (get v (text "BinaryListValues")))
      (invalid (text "list values are not supported"))
  data_type ←
      or_refuse (as_text (get v (text "DataType"))) (invalid (text "DataType must be a string"))
  content ← one_value web (get v (text "StringValue")) (get v (text "BinaryValue"))
  done (record { data_type = data_type; value = content })

unfoldable pub attributes_from : Web → JsonMap → MessageAttributes → Reply MessageAttributes
attributes_from web [] attributes = done attributes
attributes_from web ((name, v) ∷ entries) attributes = do
  attribute ← attribute_of web v
  attributes_from web entries (map_insert name attribute attributes)

unfoldable pub parse_attributes : Web → WireRequest → Reply MessageAttributes
parse_attributes web r = do entries ← attribute_entries r; attributes_from web entries []
