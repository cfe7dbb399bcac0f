-- ===== src/Queue/Send.antt =====
-- src/sqlite_lqs.rs: `prepare_send`, the checks and the normal form of a request.
use lqs.Prelude.{
  ℕ, Bool, true, false, not, ◌&&◌, ◌||◌, Option, none, some, if◌then◌else◌, ltb, length, is_empty,
  Bytes, text,
}
use lqs.Prelude.Word.{saturating_add}
use lqs.Error.{
  Result, ok, err, ◌>>=◌, ◌>>◌, fail_if, or_database, fifo_requires_group_id, empty_group_id,
  invalid_message_size, invalid_delivery_options, invalid_message_identifier,
  deduplication_id_required,
}
use lqs.Attributes.{message_attributes_size, validate_message_attributes, message_attributes_md5}
use lqs.Security.Settings.{unwrap_or}
use lqs.Queue.Types.{QueueType, standard, fifo, is_fifo, QueueConfig, SendRequest, PreparedSend}
use lqs.Queue.External.{External}
use lqs.Queue.Validate.{valid_identifier}

abbrev is_given {ℓ} : {A : Type ℓ} → Option A → Bool
is_given none = false
is_given (some a) = true

-- `delay_ms` is refused on a FIFO queue, and above 15 minutes.
abbrev refuses_delay : QueueType → Option ℕ → Bool
refuses_delay kind none = false
refuses_delay kind (some delay) = is_fifo kind || ltb 900000 delay

unfoldable pub resolve_group : QueueType → Option Bytes → Result (Option Bytes)
resolve_group standard group = ok group
resolve_group fifo none = err fifo_requires_group_id
resolve_group fifo (some group) = if is_empty group then err empty_group_id else ok (some group)

abbrev invalid_if_given : Option Bytes → Bool
invalid_if_given none = false
invalid_if_given (some value) = not (valid_identifier value)

unfoldable pub resolve_deduplication :
    External → QueueConfig → Option Bytes → Bytes → Result (Option Bytes)
resolve_deduplication ext config id body =
    if is_fifo config.queue_type
    then elim id [
      | some value ↦ ok (some value)
      | none ↦
          if config.content_based_deduplication
          then ok (some (ext.sha256_hex body))
          else err deduplication_id_required
    ]
    else ok none

abbrev oversized : QueueConfig → ℕ → Bool
oversized config size = ltb config.maximum_message_size size

unfoldable pub prepare_send : External → SendRequest → QueueConfig → Result PreparedSend
prepare_send ext request config = do
  let size =
      saturating_add (length request.body) (message_attributes_size request.message_attributes)
  fail_if (is_empty request.body || oversized config size)
      (invalid_message_size size config.maximum_message_size)
  attributes ← validate_message_attributes request.message_attributes
  let normalized_size = saturating_add (length request.body) (message_attributes_size attributes)
  fail_if (oversized config normalized_size)
      (invalid_message_size normalized_size config.maximum_message_size)
  attributes_json ← or_database (ext.attributes_to_json attributes)
  fail_if (refuses_delay config.queue_type request.delay_ms) (
      invalid_delivery_options
        (text "message delay must be 0-900000ms and is only allowed for Standard queues"))
  group_id ← resolve_group config.queue_type request.message_group_id
  fail_if (invalid_if_given group_id) (invalid_message_identifier (text "MessageGroupId"))
  fail_if (invalid_if_given request.deduplication_id)
      (invalid_message_identifier (text "MessageDeduplicationId"))
  fail_if (not (is_fifo config.queue_type) && is_given request.deduplication_id)
      (invalid_delivery_options (text "MessageDeduplicationId is only allowed for FIFO queues"))
  deduplication_id ← resolve_deduplication ext config request.deduplication_id request.body
  ok (record {
    body = request.body;
    group_id = group_id;
    deduplication_id = deduplication_id;
    delay_ms = unwrap_or request.delay_ms config.delay_ms;
    attributes_json = attributes_json;
    attribute_md5 = message_attributes_md5 ext.md5_hex attributes;
  })
