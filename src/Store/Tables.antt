-- ===== src/Store/Tables.antt =====
-- The tables of `create_base_schema` and of the migrations in src/sqlite_lqs.rs, src/fifo.rs,
-- src/management.rs and src/security_sqlite.rs. A table is the list of its rows in the order of its
-- key: `messages` in the order of `sequence`. A nullable column is an option. Columns with a CHECK
-- over two words hold the enum.
use lqs.Prelude.{ℕ, Bool, Option, List, [], Bytes}
use lqs.Security.Settings.{QueueSecurity}
use lqs.Queue.Types.{QueueType, DeduplicationScope, FifoThroughputLimit, RedrivePolicy}

pub record QueueRow : Type 0 where
  pub name : Bytes
  pub queue_type : QueueType
  pub visibility_timeout_ms : ℕ
  pub content_based_deduplication : Bool
  pub deduplication_window_ms : ℕ
  pub delay_ms : ℕ
  pub message_retention_ms : ℕ
  pub maximum_message_size : ℕ
  pub receive_wait_time_ms : ℕ
  pub max_in_flight : ℕ
  pub deduplication_scope : DeduplicationScope
  pub fifo_throughput_limit : FifoThroughputLimit
  pub created_at_ms : ℕ
  pub modified_at_ms : ℕ
  pub last_purge_ms : Option ℕ

pub record Message : Type 0 where
  pub sequence : ℕ
  pub message_id : Bytes
  pub queue_name : Bytes
  pub body : Bytes
  pub group_id : Option Bytes
  pub receipt_handle : Option Bytes
  pub invisible_until_ms : Option ℕ
  pub receive_count : ℕ
  pub created_at_ms : ℕ
  pub available_at_ms : ℕ
  pub message_attributes : Bytes
  pub first_received_at_ms : Option ℕ
  pub message_deduplication_id : Option Bytes
  pub total_receive_count : ℕ
  pub visibility_revision : ℕ

pub record SecurityRow : Type 0 where
  pub queue_name : Bytes
  pub settings : QueueSecurity

pub record DeduplicationKey : Type 0 where
  pub queue_name : Bytes
  pub deduplication_id : Bytes
  pub message_id : Bytes
  pub seen_at_ms : ℕ
  pub group_id : Bytes

pub record PolicyRow : Type 0 where
  pub source_queue : Bytes
  pub policy : RedrivePolicy

pub record Origin : Type 0 where
  pub sequence : ℕ
  pub source_queue : Bytes

pub record Attempt : Type 0 where
  pub queue_name : Bytes
  pub attempt_id : Bytes
  pub created_at_ms : ℕ
  pub fingerprint : Bytes
  pub visibility_ms : ℕ
  pub response : Bytes
  pub valid : Bool

pub record AttemptMember : Type 0 where
  pub queue_name : Bytes
  pub attempt_id : Bytes
  pub receipt_handle : Bytes

pub record TagRow : Type 0 where
  pub queue_name : Bytes
  pub key : Bytes
  pub value : Bytes

pub record DeletedQueue : Type 0 where
  pub name : Bytes
  pub deleted_at_ms : ℕ

-- `last_sequence` is what AUTOINCREMENT remembers for `messages`.
pub record Db : Type 0 where
  pub queues : List QueueRow
  pub securities : List SecurityRow
  pub messages : List Message
  pub last_sequence : ℕ
  pub deduplication_keys : List DeduplicationKey
  pub redrive_policies : List PolicyRow
  pub dead_letter_origins : List Origin
  pub receive_attempts : List Attempt
  pub attempt_members : List AttemptMember
  pub queue_tags : List TagRow
  pub deleted_queues : List DeletedQueue

-- A new database.
abbrev pub empty_db : Db
empty_db = record {
  queues = [];
  securities = [];
  messages = [];
  last_sequence = 0;
  deduplication_keys = [];
  redrive_policies = [];
  dead_letter_origins = [];
  receive_attempts = [];
  attempt_members = [];
  queue_tags = [];
  deleted_queues = [];
}
