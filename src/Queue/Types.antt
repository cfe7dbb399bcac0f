-- ===== src/Queue/Types.antt =====
-- src/sqlite_lqs.rs and src/fifo.rs: queue types, options, updates, requests and results.
use lqs.Prelude.{
  ℕ, Bool, true, false, Option, none, List, if◌then◌else◌, Bytes, text, bytes_eq, ◌++◌,
}
use lqs.Error.{Result, ok, err, database, invalid_delivery_options}
use lqs.Security.Settings.{QueueSecurity, SecurityUpdate, default_security}
use lqs.Attributes.{MessageAttributes}

pub data QueueType : Type 0 where
  standard fifo : QueueType

unfoldable pub as_db_value : QueueType → Bytes
as_db_value standard = text "standard"
as_db_value fifo = text "fifo"

unfoldable pub from_db_value : Bytes → Result QueueType
from_db_value value =
    if bytes_eq value (text "standard")
    then ok standard
    else if bytes_eq value (text "fifo")
    then ok fifo
    else err (database (text "unknown queue type in database: " ++ value))

pub data DeduplicationScope : Type 0 where
  queue message_group : DeduplicationScope

unfoldable pub scope_as_str : DeduplicationScope → Bytes
scope_as_str queue = text "queue"
scope_as_str message_group = text "messageGroup"

unfoldable pub scope_from_str : Bytes → Result DeduplicationScope
scope_from_str value =
    if bytes_eq value (text "queue")
    then ok queue
    else if bytes_eq value (text "messageGroup")
    then ok message_group
    else err (invalid_delivery_options (text "DeduplicationScope must be queue or messageGroup"))

pub data FifoThroughputLimit : Type 0 where
  per_queue per_message_group_id : FifoThroughputLimit

unfoldable pub limit_as_str : FifoThroughputLimit → Bytes
limit_as_str per_queue = text "perQueue"
limit_as_str per_message_group_id = text "perMessageGroupId"

unfoldable pub limit_from_str : Bytes → Result FifoThroughputLimit
limit_from_str value =
    if bytes_eq value (text "perQueue")
    then ok per_queue
    else if bytes_eq value (text "perMessageGroupId")
    then ok per_message_group_id
    else err (
        invalid_delivery_options (text "FifoThroughputLimit must be perQueue or perMessageGroupId"))

abbrev pub is_fifo : QueueType → Bool
is_fifo fifo = true
is_fifo standard = false

abbrev pub is_queue_scope : DeduplicationScope → Bool
is_queue_scope queue = true
is_queue_scope message_group = false

abbrev pub is_per_queue : FifoThroughputLimit → Bool
is_per_queue per_queue = true
is_per_queue per_message_group_id = false

abbrev pub same_type : QueueType → QueueType → Bool
same_type standard standard = true
same_type fifo fifo = true
same_type _ _ = false

pub record RedrivePolicy : Type 0 where
  pub dead_letter_queue : Bytes
  pub max_receive_count : ℕ

pub record QueueOptions : Type 0 where
  pub security : QueueSecurity
  pub deduplication_scope : DeduplicationScope
  pub fifo_throughput_limit : FifoThroughputLimit
  pub visibility_timeout_ms : ℕ
  pub content_based_deduplication : Bool
  pub deduplication_window_ms : ℕ
  pub redrive_policy : Option RedrivePolicy
  pub delay_ms : ℕ
  pub message_retention_ms : ℕ
  pub maximum_message_size : ℕ
  pub receive_wait_time_ms : ℕ
  pub max_in_flight : ℕ

abbrev pub max_message_bytes : ℕ
max_message_bytes = 1048576

abbrev pub default_max_in_flight : ℕ
default_max_in_flight = 120000

-- `QueueOptions::default`
abbrev pub default_options : QueueOptions
default_options = record {
  security = default_security;
  deduplication_scope = queue;
  fifo_throughput_limit = per_queue;
  visibility_timeout_ms = 30000;
  content_based_deduplication = false;
  deduplication_window_ms = 300000;
  redrive_policy = none;
  delay_ms = 0;
  message_retention_ms = 345600000;
  maximum_message_size = max_message_bytes;
  receive_wait_time_ms = 0;
  max_in_flight = default_max_in_flight;
}

-- `none` keeps a setting; `redrive_policy = some none` removes the policy.
pub record QueueUpdate : Type 0 where
  pub security : SecurityUpdate
  pub visibility_timeout_ms : Option ℕ
  pub content_based_deduplication : Option Bool
  pub deduplication_scope : Option DeduplicationScope
  pub fifo_throughput_limit : Option FifoThroughputLimit
  pub delay_ms : Option ℕ
  pub message_retention_ms : Option ℕ
  pub maximum_message_size : Option ℕ
  pub receive_wait_time_ms : Option ℕ
  pub max_in_flight : Option ℕ
  pub redrive_policy : Option (Option RedrivePolicy)

pub record QueueConfig : Type 0 where
  pub security : QueueSecurity
  pub deduplication_scope : DeduplicationScope
  pub fifo_throughput_limit : FifoThroughputLimit
  pub queue_type : QueueType
  pub visibility_timeout_ms : ℕ
  pub content_based_deduplication : Bool
  pub deduplication_window_ms : ℕ
  pub redrive_policy : Option RedrivePolicy
  pub delay_ms : ℕ
  pub message_retention_ms : ℕ
  pub maximum_message_size : ℕ
  pub receive_wait_time_ms : ℕ
  pub max_in_flight : ℕ

pub record ResolvedQueueUpdate : Type 0 where
  pub security : QueueSecurity
  pub visibility : ℕ
  pub delay : ℕ
  pub retention : ℕ
  pub maximum : ℕ
  pub wait : ℕ
  pub max_in_flight : ℕ
  pub content_based : Bool
  pub scope : DeduplicationScope
  pub throughput : FifoThroughputLimit
  pub redrive_policy : Option (Option RedrivePolicy)

pub record SendRequest : Type 0 where
  pub body : Bytes
  pub message_group_id : Option Bytes
  pub deduplication_id : Option Bytes
  pub delay_ms : Option ℕ
  pub message_attributes : MessageAttributes

pub record SendResult : Type 0 where
  pub message_id : Bytes
  pub deduplicated : Bool
  pub md5_of_message_attributes : Option Bytes

pub record PreparedSend : Type 0 where
  pub body : Bytes
  pub group_id : Option Bytes
  pub deduplication_id : Option Bytes
  pub delay_ms : ℕ
  pub attributes_json : Bytes
  pub attribute_md5 : Option Bytes

pub record ReceivedMessage : Type 0 where
  pub message_id : Bytes
  pub receipt_handle : Bytes
  pub body : Bytes
  pub message_group_id : Option Bytes
  pub receive_count : ℕ
  pub message_attributes : MessageAttributes
  pub system_attributes : List (Bytes × Bytes)

pub record ReceiveOptions : Type 0 where
  pub receive_request_attempt_id : Option Bytes
  pub visibility_timeout_ms : Option ℕ
