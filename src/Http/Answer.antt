-- ===== src/Http/Answer.antt =====
-- src/http_server.rs: `ApiSuccess`, what a handler answers, and the JSON values that it builds.
use lqs.Prelude.{Option, none, some, List, [], ◌∷◌, ◌++◌, map, Bytes, text, map_insert}
use lqs.Prelude.Print.{decimal}
use lqs.Prelude.Parse.{strip_prefix}
use lqs.Prelude.Print.{parse_hex}
use lqs.Security.Json.{Json, string, array, object, Fields, of_list}
use lqs.Security.Settings.{unwrap_or}
use lqs.Queue.Types.{SendResult, ReceivedMessage}
use lqs.Batch.{BatchEntry}
use lqs.Http.Reply.{ApiError}
use lqs.Http.Names.{Attributes}

-- A `serde_json::Map` under construction: its entries in key order.
abbrev pub JsonMap : Type 0
JsonMap = List (Bytes × Json)

unfoldable pub fields_of : JsonMap → Fields
fields_of [] = Fields.end
fields_of ((name, v) ∷ entries) = Fields.field name v (fields_of entries)

abbrev pub json_of : JsonMap → Json
json_of entries = object (fields_of entries)

abbrev pub json_texts : List Bytes → Json
json_texts values = array (of_list (map string values))

-- `json!` of a string map
unfoldable pub json_text_map : List (Bytes × Bytes) → JsonMap
json_text_map [] = []
json_text_map ((name, v) ∷ entries) = (name, string v) ∷ json_text_map entries

-- `if let Some(v) = value { json[name] = json!(v) }`
unfoldable pub put_text : Bytes → Option Bytes → JsonMap → JsonMap
put_text name none entries = entries
put_text name (some v) entries = map_insert name (string v) entries

-- `BatchResult<Value, ApiError>`; the values of successful entries are objects.
pub record ApiBatchResult : Type 0 where
  pub successful : List (BatchEntry JsonMap)
  pub failed : List (BatchEntry ApiError)

pub data ApiSuccess : Type 0 where
  management : (action : Bytes) → (json : JsonMap) → (xml : Bytes) → ApiSuccess
  batch : (action : Bytes) → (result : ApiBatchResult) → ApiSuccess
  queue_created : (queue_url : Bytes) → ApiSuccess
  message_sent :
      (result : SendResult) → (body : Bytes) → (sequence_number : Option Bytes) → ApiSuccess
  messages_received : (messages : List ReceivedMessage) → ApiSuccess
  message_deleted : ApiSuccess
  visibility_changed : ApiSuccess
  attributes_set : ApiSuccess
  attributes_read : (attributes : Attributes) → ApiSuccess
  sources_listed : (queue_urls : List Bytes) → (next_cursor : Option Bytes) → ApiSuccess

-- `u64::from_str_radix(value, 16).ok()` of what follows `msg-`, as its decimal text
unfoldable pub sequence_number : Bytes → Bytes
sequence_number message_id = elim (strip_prefix (text "msg-") message_id) [
  | none ↦ decimal 0
  | some digits ↦ decimal (unwrap_or (parse_hex digits) 0)
]

abbrev pub queue_url : Bytes → Bytes → Bytes
queue_url public_base_url name = public_base_url ++ (text "/000000000000/" ++ name)
