-- ===== src/Http/Maps.antt =====
-- Maps in a request: src/http_server.rs `json_queue_attributes`, `query_queue_attributes`, and
-- `parse_tags` and `validate_attribute_names` of src/management_http.rs.
use lqs.Prelude.{
  ℕ, Bool, true, false, not, ◌&&◌, ◌||◌, Option, none, some, List, [], ◌∷◌, ◌++◌, if◌then◌else◌,
  any, ◌==◌, Bytes, text, bytes_eq, map_insert, split_once,
}
use lqs.Prelude.Parse.{strip_prefix, parse_index, map_get}
use lqs.Security.Settings.{unwrap_or}
use lqs.Security.Json.{Json, null, object, Fields}
use lqs.Queue.Validate.{QueueTags}
use lqs.Http.Reply.{
  api_error, missing, invalid_parameter, Reply, done, refused, ◌>>=◌, ◌>>◌, or_refuse, refuse_if,
}
use lqs.Http.Wire.{WireRequest, json_field, as_str}
use lqs.Http.Names.{Attributes}

abbrev pub is_one_of : List Bytes → Bytes → Bool
is_one_of names name = any (bytes_eq name) names

-- The fields of a JSON object as a string map; `f` reads a value of a name.
unfoldable pub string_fields : (Bytes → Json → Reply Bytes) → Fields → Reply Attributes
string_fields f Fields.end = done []
string_fields f (Fields.field name v fields) = do
  s ← f name v
  rest ← string_fields f fields
  done (map_insert name s rest)

abbrev attribute_value : Bytes → Json → Reply Bytes
attribute_value name v =
    or_refuse (as_str v) (invalid_parameter name (text "attribute value must be a string"))

unfoldable pub json_queue_attributes : Json → Reply Attributes
json_queue_attributes (object fields) = string_fields attribute_value fields
json_queue_attributes _ =
    refused (invalid_parameter (text "Attributes") (text "must be a string map"))

-- What a query map says of one entry: the two fields given so far.
abbrev pub Slots : Type 0
Slots = Option Bytes × Option Bytes

-- How a kind of entry is spelled: its prefix, its first field's name, and the parameter in errors.
pub record Spelling : Type 0 where
  pub prefix : Bytes
  pub first : Bytes
  pub parameter : Bytes
  pub bad_entry : Bytes
  pub bad_field : Bytes

abbrev is_field : Spelling → Bytes → Bool
is_field s field = bytes_eq field s.first || bytes_eq field (text "Value")

unfoldable pub index_and_field : Spelling → Bytes → Reply (Bytes × Bytes)
index_and_field s rest =
    if is_field s rest
    then done (b'1' ∷ [], rest)
    else or_refuse (split_once (λ b. b == b'.') rest) (invalid_parameter s.parameter s.bad_entry)

-- `slot.replace(value)`, which was `None` before.
unfoldable pub fill : Spelling → Bytes → Bytes → Slots → Reply Slots
fill s field v (first, second) =
    if bytes_eq field s.first
    then (elim first [
      | none ↦ done (some v, second)
      | some w ↦ refused (invalid_parameter s.parameter s.bad_field)
    ])
    else (elim second [
      | none ↦ done (first, some v)
      | some w ↦ refused (invalid_parameter s.parameter s.bad_field)
    ])

abbrev is_index : Option ℕ → Bool
is_index none = false
is_index (some n) = true

unfoldable pub add_slot :
    Spelling → Bytes → Bytes → List (Bytes × Slots) → Reply (List (Bytes × Slots))
add_slot s rest v entries = do
  (index, field) ← index_and_field s rest
  refuse_if (not (is_index (parse_index index)) || not (is_field s field))
      (invalid_parameter s.parameter s.bad_entry)
  slots ← fill s field v (unwrap_or (map_get index entries) (none, none))
  done (map_insert index slots entries)

-- The loop over the query's entries.
unfoldable pub collect_slots :
    Spelling → List (Bytes × Bytes) → List (Bytes × Slots) → Reply (List (Bytes × Slots))
collect_slots s [] entries = done entries
collect_slots s ((key, v) ∷ query) entries = elim (strip_prefix s.prefix key) [
  | none ↦ collect_slots s query entries
  | some rest ↦ add_slot s rest v entries >>= collect_slots s query
]

abbrev is_given {ℓ} : {A : Type ℓ} → Option A → Bool
is_given none = false
is_given (some a) = true

abbrev attribute_spelling : Spelling
attribute_spelling = record {
  prefix = text "Attribute.";
  first = text "Name";
  parameter = text "Attributes";
  bad_entry = text "invalid entry";
  bad_field = text "duplicate field";
}

unfoldable pub named_values : List (Bytes × Slots) → Attributes → Reply Attributes
named_values [] attributes = done attributes
named_values ((index, slots) ∷ entries) attributes = do
  name ← or_refuse slots.0 (missing (text "Attribute.Name"))
  v ← or_refuse slots.1 (missing (text "Attribute.Value"))
  refuse_if (is_given (map_get name attributes))
      (invalid_parameter (text "Attributes") (text "duplicate attribute"))
  named_values entries (map_insert name v attributes)

unfoldable pub query_queue_attributes : List (Bytes × Bytes) → Reply Attributes
query_queue_attributes query = do
  entries ← collect_slots attribute_spelling query []
  named_values entries []

-- `WireRequest::attributes`
unfoldable pub attributes_of : WireRequest → Reply Attributes
attributes_of r = elim (json_field r (text "Attributes")) [
  | none ↦ query_queue_attributes r.query
  | some v ↦ json_queue_attributes v
]

abbrev tag_spelling : Spelling
tag_spelling = record {
  prefix = text "Tag.";
  first = text "Key";
  parameter = text "Tags";
  bad_entry = text "invalid tag entry";
  bad_field = text "duplicate tag field";
}

unfoldable pub keyed_values : List (Bytes × Slots) → QueueTags → Reply QueueTags
keyed_values [] tags = done tags
keyed_values ((index, slots) ∷ entries) tags = do
  key ← or_refuse slots.0 (missing (text "Tag.Key"))
  refuse_if (is_given (map_get key tags))
      (invalid_parameter (text "Tags") (text "duplicate tag key"))
  keyed_values entries (map_insert key (unwrap_or slots.1 []) tags)

abbrev tag_value : Bytes → Json → Reply Bytes
tag_value name null = done []
tag_value name v =
    or_refuse (as_str v) (invalid_parameter (text "Tags") (text "values must be strings"))

abbrev or_field : Option Json → Option Json → Option Json
or_field none v = v
or_field (some w) v = some w

unfoldable pub json_tags : Option Json → Reply QueueTags
json_tags none = done []
json_tags (some (object fields)) = string_fields tag_value fields
json_tags (some _) = refused (invalid_parameter (text "Tags") (text "must be a string map"))

unfoldable pub parse_tags : WireRequest → Reply QueueTags
parse_tags r = elim r.json [
  | some v ↦ json_tags (or_field (json_field r (text "Tags")) (json_field r (text "tags")))
  | none ↦ (do entries ← collect_slots tag_spelling r.query []; keyed_values entries [])
]

unfoldable pub settable : List Bytes
settable =
    text "VisibilityTimeout"
    ∷ text "Policy"
    ∷ text "SqsManagedSseEnabled"
    ∷ text "KmsMasterKeyId"
    ∷ text "KmsDataKeyReusePeriodSeconds"
    ∷ text "DelaySeconds"
    ∷ text "MessageRetentionPeriod"
    ∷ text "MaximumMessageSize"
    ∷ text "ReceiveMessageWaitTimeSeconds"
    ∷ text "LqsMaxInFlightMessages"
    ∷ text "RedrivePolicy"
    ∷ text "ContentBasedDeduplication"
    ∷ text "DeduplicationScope"
    ∷ text "FifoThroughputLimit"
    ∷ []

unfoldable pub validate_attribute_names : Attributes → Bool → Reply (Unit {0})
validate_attribute_names [] creating = done tt
validate_attribute_names ((name, v) ∷ attributes) creating = do
  refuse_if (not (is_one_of settable name || (creating && bytes_eq name (text "FifoQueue"))))
      (api_error 400 (text "InvalidAttributeName") (text "unsupported attribute: " ++ name))
  validate_attribute_names attributes creating
