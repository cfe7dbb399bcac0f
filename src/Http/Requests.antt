-- ===== src/Http/Requests.antt =====
-- `parse_send_request` and `parse_receive_request` of src/http_server.rs, and the selection of
-- attributes in src/attributes_http.rs.
use lqs.Prelude.{
  ℕ, ◌*◌, ◌^◌, Bool, false, not, ◌||◌, Option, none, some, List, [], ◌∷◌, ◌++◌, select, in_range,
  ltb, any, Bytes, text, bytes_eq, starts_with,
}
use lqs.Prelude.Parse.{strip_suffix}
use lqs.Security.Json.{Json, array, to_list}
use lqs.Security.Settings.{unwrap_or}
use lqs.Attributes.{MessageAttribute}
use lqs.Queue.Types.{SendRequest, ReceivedMessage, ReceiveOptions}
use lqs.Http.Reply.{
  missing, invalid_parameter, Reply, done, refused, ◌>>=◌, ◌>>◌, or_refuse, refuse_if, traverse,
}
use lqs.Http.Web.{Web}
use lqs.Http.Wire.{WireRequest, json_field, string_of, optional_string, unsigned}
use lqs.Http.Names.{queue_name}
use lqs.Http.Configuration.{strings_or, values_under, check_names}
use lqs.Http.Messages.{parse_attributes}

abbrev json_list : Bytes → Option Json → Reply (List Bytes)
json_list name none = done []
json_list name (some (array values)) =
    strings_or name (text "must contain strings") (to_list values)
json_list name (some _) = refused (invalid_parameter name (text "must be an array"))

unfoldable pub string_list : WireRequest → Bytes → Bytes → Reply (List Bytes)
string_list r json_name query_name = elim r.json [
  | some v ↦ json_list json_name (json_field r json_name)
  | none ↦ done (values_under query_name r.query)
]

-- Which attributes a receiver asked for.
pub record Selection : Type 0 where
  pub message : List Bytes
  pub system : List Bytes

abbrev system_names : List Bytes
system_names =
    text "All"
    ∷ text "SenderId"
    ∷ text "SentTimestamp"
    ∷ text "ApproximateFirstReceiveTimestamp"
    ∷ text "ApproximateReceiveCount"
    ∷ text "SequenceNumber"
    ∷ text "MessageGroupId"
    ∷ text "MessageDeduplicationId"
    ∷ text "DeadLetterQueueSourceArn"
    ∷ text "SqsManagedSseEnabled"
    ∷ text "AWSTraceHeader"
    ∷ []

-- `Selection::parse`
unfoldable pub parse_selection : WireRequest → Reply Selection
parse_selection r = do
  message ← string_list r (text "MessageAttributeNames") (text "MessageAttributeName")
  system ← string_list r (text "MessageSystemAttributeNames") (text "MessageSystemAttributeName")
  more ← string_list r (text "AttributeNames") (text "AttributeName")
  check_names system_names (text "unsupported system attribute: ") (system ++ more)
  done (record { message = message; system = system ++ more })

abbrev has_prefix : Bytes → Option Bytes → Bool
has_prefix name none = false
has_prefix name (some prefix) = starts_with name prefix

abbrev selects : Bytes → Bytes → Bool
selects name selector =
    bytes_eq selector (text "All")
    || bytes_eq selector (text ".*")
    || bytes_eq selector name
    || has_prefix name (strip_suffix (text "*") selector)

-- `Selection::apply`
unfoldable pub apply : Selection → ReceivedMessage → ReceivedMessage
apply s m = record m {
  message_attributes =
      select (λ (a : Bytes × MessageAttribute). any (selects a.0) s.message) m.message_attributes;
  system_attributes =
      select
        (λ (a : Bytes × Bytes).
          any (λ name. bytes_eq name (text "All") || bytes_eq name a.0) s.system)
        m.system_attributes;
}

-- `seconds.checked_mul(1000)`
abbrev delay_of : ℕ → Reply ℕ
delay_of seconds = do
  refuse_if (not (ltb (seconds * 1000) (2 ^ 64)))
      (invalid_parameter (text "DelaySeconds") (text "must be between 0 and 900"))
  done (seconds * 1000)

unfoldable pub parse_send_request : Web → WireRequest → Reply SendRequest
parse_send_request web r = do
  body ← or_refuse (string_of r (text "MessageBody")) (missing (text "MessageBody"))
  group ← optional_string r (text "MessageGroupId")
  attributes ← parse_attributes web r
  key ← optional_string r (text "MessageDeduplicationId")
  seconds ← unsigned web r (text "DelaySeconds")
  delay ← traverse delay_of seconds
  done (record {
    body = body;
    message_group_id = group;
    deduplication_id = key;
    delay_ms = delay;
    message_attributes = attributes;
  })

pub record ParsedReceiveRequest : Type 0 where
  pub queue_name : Bytes
  pub max_messages : ℕ
  pub selection : Selection
  pub options : ReceiveOptions
  pub requested_wait_ms : Option ℕ

abbrev exceeds : ℕ → Option ℕ → Bool
exceeds limit none = false
exceeds limit (some n) = ltb limit n

abbrev in_millis : Option ℕ → Option ℕ
in_millis none = none
in_millis (some seconds) = some (seconds * 1000)

unfoldable pub parse_receive_request : Web → Bytes → WireRequest → Reply ParsedReceiveRequest
parse_receive_request web path r = do
  name ← queue_name path r
  maximum_given ← unsigned web r (text "MaxNumberOfMessages")
  selection ← parse_selection r
  visibility ← unsigned web r (text "VisibilityTimeout")
  refuse_if (exceeds 43200 visibility)
      (invalid_parameter (text "VisibilityTimeout") (text "must be between 0 and 43200"))
  attempt ← optional_string r (text "ReceiveRequestAttemptId")
  refuse_if (not (in_range 1 10 (unwrap_or maximum_given 1)))
      (invalid_parameter (text "MaxNumberOfMessages") (text "must be between 1 and 10"))
  wait ← unsigned web r (text "WaitTimeSeconds")
  refuse_if (exceeds 20 wait)
      (invalid_parameter (text "WaitTimeSeconds") (text "must be between 0 and 20"))
  done (record {
    queue_name = name;
    max_messages = unwrap_or maximum_given 1;
    selection = selection;
    options = record {
      receive_request_attempt_id = attempt;
      visibility_timeout_ms = in_millis visibility;
    };
    requested_wait_ms = in_millis wait;
  })
