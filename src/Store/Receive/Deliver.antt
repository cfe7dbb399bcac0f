-- ===== src/Store/Receive/Deliver.antt =====
-- src/sqlite_lqs.rs: `deliver_candidate`, `read_message_metadata`, `redrive_candidate`.
use lqs.Prelude.{
  ℕ, ◌+◌, ◌%◌, ◌^◌, Bool, false, not, ◌&&◌, ◌||◌, Option, none, some, List, [], ◌∷◌, ◌++◌,
  if◌then◌else◌, ◌==◌, any, find, drop, Bytes, text, option_eq, starts_with, map_insert,
}
use lqs.Prelude.Word.{saturating_add_i64}
use lqs.Prelude.Print.{hex_fixed, hex_min, decimal, parse_hex}
use lqs.Error.{Result, ok, ◌>>=◌, ◌>>◌, fail_if, or_fail, or_database, database}
use lqs.Security.Settings.{unwrap_or}
use lqs.Queue.Types.{QueueType, standard, fifo, is_fifo, RedrivePolicy, ReceivedMessage}
use lqs.Queue.External.{External}
use lqs.Store.Tables.{Message, Origin, Db}
use lqs.Store.Read.{ms, queue_exists}
use lqs.Store.Messages.{update_messages, has_sequence, move_message}
use lqs.Store.Receive.Next.{Candidate}

-- `format!("receipt-{:016x}-{receive_count:08x}-{now:016x}")`
unfoldable pub receipt_handle_of : ℕ → ℕ → ℕ → Bytes
receipt_handle_of sequence receive_count now =
    text "receipt-"
    ++ (hex_fixed 16 sequence ++ (b'-' ∷ (hex_min 8 receive_count ++ (b'-' ∷ hex_fixed 16 now))))

-- The columns that a delivery sets.
unfoldable pub delivered : Bytes → ℕ → ℕ → ℕ → Message → Message
delivered handle until receive_count now m = record m {
  receipt_handle = some handle;
  invisible_until_ms = some until;
  receive_count = receive_count;
  total_receive_count = m.total_receive_count + 1;
  first_received_at_ms = some (unwrap_or m.first_received_at_ms now);
}

-- Another row with this handle breaks UNIQUE(receipt_handle).
abbrev has_handle : ℕ → Bytes → Message → Bool
has_handle sequence handle m =
    not (m.sequence == sequence) && option_eq m.receipt_handle (some handle)

abbrev strip_msg : Bytes → Option Bytes
strip_msg id = if starts_with id (text "msg-") then some (drop 4 id) else none

-- `.strip_prefix("msg-").and_then(from_str_radix).unwrap_or(sequence)`
unfoldable pub sequence_number : Bytes → ℕ → ℕ
sequence_number id sequence = elim (strip_msg id) [
  | none ↦ sequence
  | some hex ↦ unwrap_or (parse_hex hex) sequence
]

abbrev SystemAttributes : Type 0
SystemAttributes = List (Bytes × Bytes)

abbrev insert_given : Bytes → Option Bytes → SystemAttributes → SystemAttributes
insert_given key none system = system
insert_given key (some v) system = map_insert key v system

unfoldable pub fifo_attributes : QueueType → Message → SystemAttributes → SystemAttributes
fifo_attributes standard m system = system
fifo_attributes fifo m system =
    insert_given (text "MessageDeduplicationId") m.message_deduplication_id (
      map_insert (text "SequenceNumber") (decimal (sequence_number m.message_id m.sequence)) system)

abbrev source_arn : Option Origin → Option Bytes
source_arn none = none
source_arn (some o) = some (text "arn:aws:sqs:us-east-1:000000000000:" ++ o.source_queue)

unfoldable pub system_attributes : Db → Message → ℕ → QueueType → SystemAttributes
system_attributes db m first kind =
    insert_given (text "DeadLetterQueueSourceArn")
      (source_arn (find (λ o. o.sequence == m.sequence) db.dead_letter_origins))
      (fifo_attributes kind m (
        insert_given (text "MessageGroupId") m.group_id (
          map_insert (text "SentTimestamp") (decimal m.created_at_ms) (
            map_insert (text "ApproximateFirstReceiveTimestamp") (decimal first) (
              map_insert (text "ApproximateReceiveCount") (decimal m.total_receive_count) (
                map_insert (text "SenderId") (text "000000000000")
                  (map_insert (text "SqsManagedSseEnabled") (text "false") [])))))))

unfoldable pub deliver_candidate :
    External → Db → QueueType → Candidate → ℕ → ℕ → Result (Db × ReceivedMessage)
deliver_candidate ext db kind c visibility now = do
  let receive_count = c.receive_count + 1
  let handle = receipt_handle_of c.sequence receive_count now
  fail_if (any (has_handle c.sequence handle) db.messages)
      (database (text "UNIQUE constraint failed: messages.receipt_handle"))
  let db1 =
      update_messages (has_sequence c.sequence)
        (delivered handle (saturating_add_i64 now (ms visibility)) receive_count now) db
  m ←
      or_fail (find (has_sequence c.sequence) db1.messages)
        (database (text "Query returned no rows"))
  first ← or_fail m.first_received_at_ms (database (text "Invalid column type Null"))
  attributes ← or_database (ext.attributes_from_json m.message_attributes)
  ok (
    db1,
    record {
      message_id = c.message_id;
      receipt_handle = handle;
      body = c.body;
      message_group_id = c.group_id;
      receive_count = receive_count % 2 ^ 32;
      message_attributes = attributes;
      system_attributes = system_attributes db1 m first kind;
    },
  )

-- `INSERT INTO dead_letter_origins`, with its primary and foreign keys.
unfoldable pub insert_origin : Db → ℕ → Bytes → Result Db
insert_origin db sequence source = do
  fail_if (any (λ o. o.sequence == sequence) db.dead_letter_origins)
      (database (text "UNIQUE constraint failed: dead_letter_origins.sequence"))
  fail_if (not (any (has_sequence sequence) db.messages) || not (queue_exists db source))
      (database (text "FOREIGN KEY constraint failed"))
  ok (record db {
    dead_letter_origins =
        db.dead_letter_origins ++ record { sequence = sequence; source_queue = source } ∷ [];
  })

unfoldable pub redrive_candidate :
    Db → Bytes → QueueType → Candidate → RedrivePolicy → ℕ → Result Db
redrive_candidate db name kind c policy now = do
  (db1, moved) ← move_message db c.sequence policy.dead_letter_queue now (is_fifo kind) false
  insert_origin db1 moved name
