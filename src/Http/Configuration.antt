-- ===== src/Http/Configuration.antt =====
-- src/http_server.rs: a queue's configuration in a response, and when two are the same;
-- src/security_http.rs `add_attributes`.
use lqs.Prelude.{
  ◌/◌, Bool, true, false, not, ◌&&◌, ◌||◌, Option, none, some, List, [], ◌∷◌, ◌++◌, map, select,
  if◌then◌else◌, ◌==◌, Bytes, text, bytes_eq, option_eq, starts_with, map_insert,
}
use lqs.Prelude.Print.{decimal}
use lqs.Security.Json.{Json, number, string, array, to_list}
use lqs.Security.Names.{arn_prefix}
use lqs.Security.Settings.{QueueSecurity}
use lqs.Queue.Types.{
  QueueType, is_fifo, same_type, scope_as_str, limit_as_str, is_queue_scope, is_per_queue,
  RedrivePolicy, QueueOptions, QueueConfig,
}
use lqs.Queue.External.{External}
use lqs.Store.Manage.{QueueMetrics}
use lqs.Http.Reply.{
  api_error, invalid_parameter, Reply, done, refused, ◌>>=◌, or_refuse, refuse_if, ◌>>◌,
}
use lqs.Http.Wire.{WireRequest, json_field, as_str}
use lqs.Http.Names.{Attributes}
use lqs.Http.Maps.{is_one_of}
use lqs.Http.Answer.{json_of}

abbrev bool_eq : Bool → Bool → Bool
bool_eq true b = b
bool_eq false b = not b

unfoldable pub same_policy : Option RedrivePolicy → Option RedrivePolicy → Bool
same_policy none none = true
same_policy (some p) (some q) =
    bytes_eq p.dead_letter_queue q.dead_letter_queue && p.max_receive_count == q.max_receive_count
same_policy _ _ = false

unfoldable pub same_security : QueueSecurity → QueueSecurity → Bool
same_security a b =
    option_eq a.policy b.policy
    && bool_eq a.sqs_managed_sse_enabled b.sqs_managed_sse_enabled
    && option_eq a.kms_master_key_id b.kms_master_key_id
    && a.kms_data_key_reuse_period_seconds == b.kms_data_key_reuse_period_seconds

unfoldable pub same_queue_configuration : QueueConfig → QueueType → QueueOptions → Bool
same_queue_configuration existing kind options =
    same_type existing.queue_type kind
    && existing.visibility_timeout_ms == options.visibility_timeout_ms
    && bool_eq existing.content_based_deduplication options.content_based_deduplication
    && existing.deduplication_window_ms == options.deduplication_window_ms
    && same_policy existing.redrive_policy options.redrive_policy
    && existing.delay_ms == options.delay_ms
    && existing.message_retention_ms == options.message_retention_ms
    && existing.maximum_message_size == options.maximum_message_size
    && existing.receive_wait_time_ms == options.receive_wait_time_ms
    && existing.max_in_flight == options.max_in_flight
    && bool_eq (is_queue_scope existing.deduplication_scope)
        (is_queue_scope options.deduplication_scope)
    && bool_eq (is_per_queue existing.fifo_throughput_limit)
        (is_per_queue options.fifo_throughput_limit)
    && same_security existing.security options.security

-- The strings of a JSON list, or `invalid` if one is none.
unfoldable pub strings_or : Bytes → Bytes → List Json → Reply (List Bytes)
strings_or name reason [] = done []
strings_or name reason (v ∷ vs) = do
  s ← or_refuse (as_str v) (invalid_parameter name reason)
  rest ← strings_or name reason vs
  done (s ∷ rest)

-- The values of `name` and of `name.<anything>`
unfoldable pub values_under : Bytes → List (Bytes × Bytes) → List Bytes
values_under name query =
    map (λ e. e.1)
      (select (λ (e : Bytes × Bytes). bytes_eq e.0 name || starts_with e.0 (name ++ text "."))
        query)

abbrev name_list : Option Json → Reply (List Bytes)
name_list none = done []
name_list (some (array values)) =
    strings_or (text "AttributeNames") (text "must be an array of strings") (to_list values)
name_list (some _) =
    refused (invalid_parameter (text "AttributeNames") (text "must be an array of strings"))

unfoldable pub requested_attribute_names : WireRequest → Reply (List Bytes)
requested_attribute_names r = elim r.json [
  | some v ↦ name_list (json_field r (text "AttributeNames"))
  | none ↦ done (values_under (text "AttributeName") r.query)
]

unfoldable pub bool_text : Bool → Bytes
bool_text true = text "true"
bool_text false = text "false"

unfoldable pub put : Bytes → Option Bytes → Attributes → Attributes
put name none attributes = attributes
put name (some v) attributes = map_insert name v attributes

unfoldable pub add_attributes : QueueSecurity → Attributes → Attributes
add_attributes s attributes =
    map_insert (text "KmsDataKeyReusePeriodSeconds") (decimal s.kms_data_key_reuse_period_seconds) (
      put (text "KmsMasterKeyId") s.kms_master_key_id (
        put (text "Policy") s.policy (
          map_insert (text "SqsManagedSseEnabled") (bool_text s.sqs_managed_sse_enabled)
            attributes)))

unfoldable pub base_attributes : Bytes → QueueConfig → QueueMetrics → Attributes
base_attributes name config metrics = map_insert (text "QueueArn") (arn_prefix ++ name) (
    map_insert (text "FifoQueue") (bool_text (is_fifo config.queue_type)) (
      map_insert (text "ApproximateNumberOfMessages") (decimal metrics.visible) (
        map_insert (text "ApproximateNumberOfMessagesDelayed") (decimal metrics.delayed) (
          map_insert (text "CreatedTimestamp") (decimal (metrics.created_at_ms / 1000)) (
            map_insert (text "LastModifiedTimestamp") (decimal (metrics.modified_at_ms / 1000)) (
              map_insert (text "ReceiveMessageWaitTimeSeconds")
                (decimal (config.receive_wait_time_ms / 1000))
                (map_insert (text "LqsMaxInFlightMessages") (decimal config.max_in_flight) (
                  map_insert (text "ApproximateNumberOfMessagesNotVisible")
                    (decimal metrics.not_visible)
                    (map_insert (text "DelaySeconds") (decimal (config.delay_ms / 1000)) (
                      map_insert (text "MessageRetentionPeriod")
                        (decimal (config.message_retention_ms / 1000))
                        (map_insert (text "MaximumMessageSize")
                          (decimal config.maximum_message_size)
                          (map_insert (text "VisibilityTimeout")
                            (decimal (config.visibility_timeout_ms / 1000)) []))))))))))))

unfoldable pub fifo_attributes : QueueConfig → Attributes → Attributes
fifo_attributes config attributes =
    if is_fifo config.queue_type
    then map_insert (text "ContentBasedDeduplication")
        (bool_text config.content_based_deduplication)
        (map_insert (text "FifoThroughputLimit") (limit_as_str config.fifo_throughput_limit) (
          map_insert (text "DeduplicationScope") (scope_as_str config.deduplication_scope)
            (map_insert (text "FifoQueue") (text "true") attributes)))
    else attributes

abbrev policy_text : External → Option RedrivePolicy → Option Bytes
policy_text ext none = none
policy_text ext (some p) = some (
    ext.json_print (
      json_of (
        (text "deadLetterTargetArn", string (arn_prefix ++ p.dead_letter_queue))
        ∷ (text "maxReceiveCount", number (decimal p.max_receive_count))
        ∷ [])))

unfoldable pub queue_attributes : External → Bytes → QueueConfig → QueueMetrics → Attributes
queue_attributes ext name config metrics =
    put (text "RedrivePolicy") (policy_text ext config.redrive_policy) (
      fifo_attributes config (add_attributes config.security (base_attributes name config metrics)))

unfoldable pub readable : List Bytes
readable =
    text "All"
    ∷ text "QueueArn"
    ∷ text "VisibilityTimeout"
    ∷ text "FifoQueue"
    ∷ text "DeduplicationScope"
    ∷ text "FifoThroughputLimit"
    ∷ text "ContentBasedDeduplication"
    ∷ text "RedrivePolicy"
    ∷ text "DelaySeconds"
    ∷ text "MessageRetentionPeriod"
    ∷ text "MaximumMessageSize"
    ∷ text "ReceiveMessageWaitTimeSeconds"
    ∷ text "LqsMaxInFlightMessages"
    ∷ text "ApproximateNumberOfMessagesNotVisible"
    ∷ text "ApproximateNumberOfMessages"
    ∷ text "ApproximateNumberOfMessagesDelayed"
    ∷ text "CreatedTimestamp"
    ∷ text "LastModifiedTimestamp"
    ∷ text "Policy"
    ∷ text "SqsManagedSseEnabled"
    ∷ text "KmsMasterKeyId"
    ∷ text "KmsDataKeyReusePeriodSeconds"
    ∷ []

-- Every name is one of `allowed`.
unfoldable pub check_names : List Bytes → Bytes → List Bytes → Reply (Unit {0})
check_names allowed what [] = done tt
check_names allowed what (name ∷ names) = do
  refuse_if (not (is_one_of allowed name))
      (api_error 400 (text "InvalidAttributeName") (what ++ name))
  check_names allowed what names

unfoldable pub select_queue_attributes : Attributes → List Bytes → Reply Attributes
select_queue_attributes attributes names = do
  check_names readable (text "unsupported attribute: ") names
  done (
      if is_one_of names (text "All")
      then attributes
      else select (λ (e : Bytes × Bytes). is_one_of names e.0) attributes)
