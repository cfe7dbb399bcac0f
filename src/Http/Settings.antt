-- ===== src/Http/Settings.antt =====
-- src/http_server.rs: the settings of a queue in a request and in a response; src/security_http.rs
-- `parse_update` and `add_attributes`.
use lqs.Prelude.{
  ℕ, ◌*◌, Bool, true, false, not, ◌&&◌, ◌||◌, Option, none, some, [], ◌∷◌, if◌then◌else◌, in_range,
  Bytes, text,
}
use lqs.Prelude.Parse.{strip_prefix, map_get, parse_u64}
use lqs.Security.Json.{Json, string, get}
use lqs.Security.Names.{arn_prefix}
use lqs.Security.Settings.{SecurityUpdate, default_security, unwrap_or, updated}
use lqs.Queue.Types.{
  QueueType, standard, fifo, scope_from_str, queue, limit_from_str, per_queue, RedrivePolicy,
  QueueOptions, default_options, QueueUpdate, default_max_in_flight,
}
use lqs.Queue.Validate.{QueueTags}
use lqs.Http.Reply.{
  ApiError, invalid_parameter, Reply, done, ◌>>=◌, ◌>>◌, or_refuse, refuse_if, from_lqs, traverse,
}
use lqs.Http.Web.{Web}
use lqs.Http.Wire.{WireRequest, as_str, as_u64, required_string}
use lqs.Http.Names.{
  Attributes, validate_queue_name, valid_queue_name, parse_bool_attribute, parse_seconds,
}
use lqs.Http.Maps.{attributes_of, parse_tags, validate_attribute_names}

abbrev invalid_redrive : ApiError
invalid_redrive =
    invalid_parameter (text "RedrivePolicy")
      (text "requires a local deadLetterTargetArn and integer maxReceiveCount from 1 to 1000")

abbrev text_field : Json → Bytes → Option Bytes
text_field v name = elim (get v name) [ none ↦ none | some w ↦ as_str w ]

abbrev local_name : Option Bytes → Option Bytes
local_name none = none
local_name (some arn) = strip_prefix arn_prefix arn

-- `value.as_u64().or_else(|| value.as_str().and_then(|s| s.parse().ok()))`
abbrev count_value : Web → Option Json → Option ℕ
count_value web none = none
count_value web (some (string s)) = parse_u64 s
count_value web (some v) = as_u64 web v

unfoldable pub parse_redrive_policy : Web → Bytes → Reply (Option RedrivePolicy)
parse_redrive_policy web [] = done none
parse_redrive_policy web (b ∷ s) = do
  v ← or_refuse (web.external.json_parse (b ∷ s)) invalid_redrive
  target ← or_refuse (local_name (text_field v (text "deadLetterTargetArn"))) invalid_redrive
  refuse_if (not (valid_queue_name target)) invalid_redrive
  count ← or_refuse (count_value web (get v (text "maxReceiveCount"))) invalid_redrive
  refuse_if (not (in_range 1 1000 count)) invalid_redrive
  done (some (record { dead_letter_queue = target; max_receive_count = count }))

-- `attributes.get(name).map(|v| parse_seconds(name, v, minimum, maximum)).transpose()?`
unfoldable pub seconds_attribute : Attributes → Bytes → ℕ → ℕ → Reply (Option ℕ)
seconds_attribute attributes name minimum maximum =
    traverse (λ v. parse_seconds name v minimum maximum) (map_get name attributes)

-- The same, in milliseconds.
unfoldable pub millis_attribute : Attributes → Bytes → ℕ → ℕ → Reply (Option ℕ)
millis_attribute attributes name minimum maximum =
    traverse (λ v. parse_seconds name v minimum maximum >>= λ seconds. done (seconds * 1000))
      (map_get name attributes)

abbrev new_policy : Bytes → Option Bytes
new_policy [] = none
new_policy (b ∷ s) = some (b ∷ s)

abbrev given_policy : Option Bytes → Option (Option Bytes)
given_policy none = none
given_policy (some v) = some (new_policy v)

-- security_http::parse_update
unfoldable pub parse_update : Attributes → Reply SecurityUpdate
parse_update attributes = do
  sse ← parse_bool_attribute attributes (text "SqsManagedSseEnabled")
  period ← seconds_attribute attributes (text "KmsDataKeyReusePeriodSeconds") 60 86400
  done (record {
    policy = given_policy (map_get (text "Policy") attributes);
    sqs_managed_sse_enabled = sse;
    kms_master_key_id = map_get (text "KmsMasterKeyId") attributes;
    kms_data_key_reuse_period_seconds = period;
  })

unfoldable pub delivery_attributes : Web → Attributes → Reply QueueUpdate
delivery_attributes web attributes = do
  security ← parse_update attributes
  visibility ← millis_attribute attributes (text "VisibilityTimeout") 0 43200
  content_based ← parse_bool_attribute attributes (text "ContentBasedDeduplication")
  scope ←
      traverse (λ v. from_lqs (scope_from_str v)) (map_get (text "DeduplicationScope") attributes)
  limit ←
      traverse (λ v. from_lqs (limit_from_str v)) (map_get (text "FifoThroughputLimit") attributes)
  wait ← millis_attribute attributes (text "ReceiveMessageWaitTimeSeconds") 0 20
  max_in_flight ←
      seconds_attribute attributes (text "LqsMaxInFlightMessages") 1 default_max_in_flight
  delay ← millis_attribute attributes (text "DelaySeconds") 0 900
  retention ← millis_attribute attributes (text "MessageRetentionPeriod") 60 1209600
  maximum ← seconds_attribute attributes (text "MaximumMessageSize") 1024 1048576
  policy ← traverse (parse_redrive_policy web) (map_get (text "RedrivePolicy") attributes)
  done (record {
    security = security;
    visibility_timeout_ms = visibility;
    content_based_deduplication = content_based;
    deduplication_scope = scope;
    fifo_throughput_limit = limit;
    delay_ms = delay;
    message_retention_ms = retention;
    maximum_message_size = maximum;
    receive_wait_time_ms = wait;
    max_in_flight = max_in_flight;
    redrive_policy = policy;
  })

abbrev flatten_policy : Option (Option RedrivePolicy) → Option RedrivePolicy
flatten_policy none = none
flatten_policy (some p) = p

abbrev visibility_or_default : Option Bytes → Reply ℕ
visibility_or_default none = done default_options.visibility_timeout_ms
visibility_or_default (some v) =
    parse_seconds (text "VisibilityTimeout") v 0 43200 >>= λ seconds. done (seconds * 1000)

abbrev has_key : Attributes → Bytes → Bool
has_key attributes name = elim (map_get name attributes) [ none ↦ false | some v ↦ true ]

pub record NewQueue : Type 0 where
  pub name : Bytes
  pub queue_type : QueueType
  pub options : QueueOptions
  pub tags : QueueTags

unfoldable pub parse_create_queue : Web → WireRequest → Reply NewQueue
parse_create_queue web r = do
  name ← required_string r (text "QueueName")
  validate_queue_name name
  attributes ← attributes_of r
  validate_attribute_names attributes true
  tags ← parse_tags r
  fifo_given ← parse_bool_attribute attributes (text "FifoQueue")
  let is_fifo_queue = unwrap_or fifo_given false
  content_given ← parse_bool_attribute attributes (text "ContentBasedDeduplication")
  let content_based = unwrap_or content_given false
  refuse_if (content_based && not is_fifo_queue)
      (invalid_parameter (text "ContentBasedDeduplication") (text "is only valid for FIFO queues"))
  visibility ← visibility_or_default (map_get (text "VisibilityTimeout") attributes)
  delivery ← delivery_attributes web attributes
  refuse_if
      (not is_fifo_queue
        && (has_key attributes (text "DeduplicationScope")
            || has_key attributes (text "FifoThroughputLimit")
            || has_key attributes (text "ContentBasedDeduplication")))
      (invalid_parameter (text "Attributes") (text "FIFO attributes require a FIFO queue"))
  security ← from_lqs (updated web.external.json_parse default_security delivery.security)
  done (record {
    name = name;
    queue_type = if is_fifo_queue then fifo else standard;
    options = record default_options {
      security = security;
      deduplication_scope = unwrap_or delivery.deduplication_scope queue;
      fifo_throughput_limit = unwrap_or delivery.fifo_throughput_limit per_queue;
      visibility_timeout_ms = visibility;
      content_based_deduplication = content_based;
      redrive_policy = flatten_policy delivery.redrive_policy;
      delay_ms = unwrap_or delivery.delay_ms 0;
      message_retention_ms =
          unwrap_or delivery.message_retention_ms default_options.message_retention_ms;
      maximum_message_size =
          unwrap_or delivery.maximum_message_size default_options.maximum_message_size;
      receive_wait_time_ms = unwrap_or delivery.receive_wait_time_ms 0;
      max_in_flight = unwrap_or delivery.max_in_flight default_options.max_in_flight;
    };
    tags = tags;
  })
