-- ===== src/Queue/Validate.antt =====
-- src/sqlite_lqs.rs, src/fifo.rs and src/management.rs: validation of options, updates and tags.
pub mod Ranges
use lqs.Prelude.{
  ℕ, Bool, true, false, not, ◌&&◌, ◌||◌, Option, none, some, List, [], ◌∷◌, if◌then◌else◌, ltb,
  in_range, ◌==◌, length, is_empty, all, any, Bytes, text, is_ascii_graphic, chars,
  to_ascii_lowercase, starts_with, ends_with,
}
use lqs.Error.{
  Result, ok, ◌>>=◌, ◌>>◌, fail_if, invalid_fifo_name, invalid_standard_name,
  invalid_visibility_timeout, invalid_delivery_options, invalid_receive_options,
  invalid_message_identifier, invalid_queue_management,
}
use lqs.Security.Settings.{unwrap_or, validate_security, updated}
use lqs.Queue.Types.{
  QueueType, DeduplicationScope, FifoThroughputLimit, is_fifo, is_queue_scope, is_per_queue,
  QueueOptions, QueueUpdate, QueueConfig, ResolvedQueueUpdate, ReceiveOptions, max_message_bytes,
  default_max_in_flight,
}
use lqs.Queue.External.{External}

unfoldable pub validate_receive_options : ℕ → ℕ → Result (Unit {0})
validate_receive_options wait max_in_flight =
    fail_if (ltb 20000 wait || not (in_range 1 default_max_in_flight max_in_flight))
      invalid_receive_options

unfoldable pub validate_delivery_options : ℕ → ℕ → ℕ → Result (Unit {0})
validate_delivery_options delay retention maximum =
    fail_if
      (ltb 900000 delay
        || not (in_range 60000 1209600000 retention)
        || not (in_range 1024 max_message_bytes maximum))
      (invalid_delivery_options (
        text
          "delay must be 0-900000ms, retention 60000-1209600000ms, maximum message size 1024-1048576 bytes"))

unfoldable pub validate_fifo :
    QueueType → Bool → DeduplicationScope → FifoThroughputLimit → Result (Unit {0})
validate_fifo kind content scope throughput = do
  fail_if
      (not (is_fifo kind)
        && (content || not (is_queue_scope scope) || not (is_per_queue throughput)))
      (invalid_delivery_options (text "FIFO attributes require a FIFO queue"))
  fail_if (not (is_per_queue throughput) && is_queue_scope scope) (
      invalid_delivery_options (text "perMessageGroupId requires messageGroup deduplication scope"))

-- `value.len()` in 1-128 and all bytes graphic.
unfoldable pub valid_identifier : Bytes → Bool
valid_identifier value = in_range 1 128 (length value) && all is_ascii_graphic value

abbrev exceeds : ℕ → Option ℕ → Bool
exceeds limit none = false
exceeds limit (some v) = ltb limit v

unfoldable pub validate_attempt_id : QueueType → Option Bytes → Result (Unit {0})
validate_attempt_id kind none = ok tt
validate_attempt_id kind (some id) = do
  fail_if (not (is_fifo kind))
      (invalid_delivery_options (text "ReceiveRequestAttemptId requires a FIFO queue"))
  fail_if (not (valid_identifier id)) (invalid_message_identifier (text "ReceiveRequestAttemptId"))

-- `ReceiveOptions::validate`
unfoldable pub validate_options : ReceiveOptions → QueueType → Result (Unit {0})
validate_options options kind = do
  fail_if (exceeds 43200000 options.visibility_timeout_ms)
      (invalid_delivery_options (text "visibility timeout must be 0-43200000ms"))
  validate_attempt_id kind options.receive_request_attempt_id

abbrev pub QueueTags : Type 0
QueueTags = List (Bytes × Bytes)

unfoldable pub valid_tag_char : External → ℕ → Bool
valid_tag_char ext c =
    (not (ext.is_control c) || c == 9 || c == 10 || c == 13)
    && (ext.is_alphanumeric c || ext.is_whitespace c || any (λ b. b == c) (text "_.:/=+-@"))

unfoldable pub validate_tag_component : External → Bytes → Bool → Result (Unit {0})
validate_tag_component ext value key =
    fail_if
      ((key && is_empty value)
        || ltb (if key then 128 else 256) (length (chars value))
        || starts_with (to_ascii_lowercase value) (text "aws:")
        || not (all (valid_tag_char ext) (chars value)))
      (invalid_queue_management (
        text
          "tag keys must be 1-128 characters, values 0-256; use Unicode letters/numbers/whitespace or _ . : / = + - @, without the aws: prefix"))

unfoldable pub validate_each : External → QueueTags → Result (Unit {0})
validate_each ext [] = ok tt
validate_each ext ((key, value) ∷ rest) = do
  validate_tag_component ext key true
  validate_tag_component ext value false
  validate_each ext rest

unfoldable pub validate_tags : External → QueueTags → Result (Unit {0})
validate_tags ext tags = do
  fail_if (ltb 50 (length tags))
      (invalid_queue_management (text "LQS allows at most 50 tags per queue"))
  validate_each ext tags

unfoldable pub validate_queue_creation :
    External → Bytes → QueueType → QueueOptions → QueueTags → Result (Unit {0})
validate_queue_creation ext name kind options tags = do
  validate_security ext.json_parse options.security
  validate_tags ext tags
  fail_if (is_fifo kind && not (ends_with name (text ".fifo"))) (invalid_fifo_name name)
  fail_if (not (is_fifo kind) && ends_with name (text ".fifo")) (invalid_standard_name name)
  fail_if (ltb 43200000 options.visibility_timeout_ms) invalid_visibility_timeout
  validate_delivery_options options.delay_ms options.message_retention_ms
      options.maximum_message_size
  validate_receive_options options.receive_wait_time_ms options.max_in_flight
  validate_fifo kind options.content_based_deduplication options.deduplication_scope
      options.fifo_throughput_limit
  fail_if (not (options.deduplication_window_ms == 300000))
      (invalid_delivery_options (text "deduplication window is fixed at 300000ms"))

abbrev is_given {ℓ} : {A : Type ℓ} → Option A → Bool
is_given none = false
is_given (some a) = true

unfoldable pub resolve_queue_update :
    External → QueueConfig → QueueUpdate → Result ResolvedQueueUpdate
resolve_queue_update ext current update = do
  security ← updated ext.json_parse current.security update.security
  let visibility = unwrap_or update.visibility_timeout_ms current.visibility_timeout_ms
  fail_if (ltb 43200000 visibility) invalid_visibility_timeout
  let delay = unwrap_or update.delay_ms current.delay_ms
  let retention = unwrap_or update.message_retention_ms current.message_retention_ms
  let maximum = unwrap_or update.maximum_message_size current.maximum_message_size
  let wait = unwrap_or update.receive_wait_time_ms current.receive_wait_time_ms
  let max_in_flight = unwrap_or update.max_in_flight current.max_in_flight
  validate_delivery_options delay retention maximum
  validate_receive_options wait max_in_flight
  let content_based =
      unwrap_or update.content_based_deduplication current.content_based_deduplication
  let scope = unwrap_or update.deduplication_scope current.deduplication_scope
  let throughput = unwrap_or update.fifo_throughput_limit current.fifo_throughput_limit
  validate_fifo current.queue_type content_based scope throughput
  fail_if
      (not (is_fifo current.queue_type)
        && (is_given update.content_based_deduplication
            || is_given update.deduplication_scope
            || is_given update.fifo_throughput_limit))
      (invalid_delivery_options (text "FIFO attributes require a FIFO queue"))
  ok (record {
    security = security;
    visibility = visibility;
    delay = delay;
    retention = retention;
    maximum = maximum;
    wait = wait;
    max_in_flight = max_in_flight;
    content_based = content_based;
    scope = scope;
    throughput = throughput;
    redrive_policy = update.redrive_policy;
  })
