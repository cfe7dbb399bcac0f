-- ===== src/Error/Display.antt =====
-- src/sqlite_lqs.rs: `impl Display for LqsError`.
use lqs.Prelude.{◌++◌, Bytes, text}
use lqs.Prelude.Print.{decimal}
use lqs.Error.{
  LqsError, access_denied, invalid_security_settings, purge_queue_in_progress,
  queue_deleted_recently, invalid_queue_management, queue_already_exists, queue_not_found,
  invalid_fifo_name, invalid_standard_name, fifo_requires_group_id, deduplication_id_required,
  empty_group_id, invalid_receipt_handle, invalid_visibility_timeout, invalid_redrive_policy,
  invalid_delivery_options, invalid_message_size, invalid_batch, invalid_message_identifier,
  invalid_receive_options, over_limit, message_not_inflight, invalid_message_attributes, database,
}

-- `error.to_string()`
unfoldable pub display : LqsError → Bytes
display access_denied = text "access denied"
display (invalid_security_settings message) = text "invalid security settings: " ++ message
display purge_queue_in_progress = text "PurgeQueue was called within the last 60 seconds"
display queue_deleted_recently = text "wait 60 seconds before recreating a deleted queue"
display (invalid_queue_management message) = text "invalid queue management request: " ++ message
display (queue_already_exists name) = text "queue already exists: " ++ name
display (queue_not_found name) = text "queue not found: " ++ name
display (invalid_fifo_name name) = text "FIFO queue name must end with .fifo: " ++ name
display (invalid_standard_name name) = text "Standard queue name must not end with .fifo: " ++ name
display fifo_requires_group_id = text "FIFO messages require message_group_id"
display deduplication_id_required =
    text "FIFO messages require deduplication_id unless content-based deduplication is enabled"
display empty_group_id = text "message_group_id may not be empty"
display (invalid_receipt_handle handle) = text "invalid receipt handle: " ++ handle
display invalid_visibility_timeout = text "visibility timeout must be 0-43200000ms"
display (database message) = text "database error: " ++ message
display invalid_receive_options =
    text "receive count must be 1-10, wait time 0-20000ms, and in-flight quota 1-120000"
display over_limit = text "in-flight message limit reached"
display message_not_inflight = text "message is no longer in flight"
display (invalid_message_attributes reason) = text "invalid message attributes: " ++ reason
display (invalid_batch code) = text "invalid batch request: " ++ code
display (invalid_message_identifier name) =
    name ++ text " must be 1-128 ASCII letters, digits or punctuation characters"
display (invalid_redrive_policy message) = text "invalid redrive policy: " ++ message
display (invalid_delivery_options message) = text "invalid delivery options: " ++ message
display (invalid_message_size size maximum) =
    text "message including attributes is "
    ++ (decimal size
        ++ (text " bytes; body must be nonempty and total must not exceed "
            ++ (decimal maximum ++ text " bytes")))
