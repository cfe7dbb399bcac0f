-- ===== src/Store/Send.antt =====
-- src/sqlite_lqs.rs: `send`, `find_duplicate`, `insert_message`.
use lqs.Prelude.{
  ℕ, ◌-◌, Bool, true, false, not, ◌&&◌, ◌||◌, Option, none, some, List, [], ◌∷◌, if◌then◌else◌, leb,
  ltb, ◌==◌, any, select, Bytes, text, bytes_eq, option_eq, bytes_lt, is_empty,
}
use lqs.Prelude.Word.{saturating_add_i64}
use lqs.Error.{Result, ok, err, ◌>>=◌, ◌>>◌, fail_if, database}
use lqs.Queue.Types.{is_queue_scope, QueueConfig, SendRequest, SendResult, PreparedSend}
use lqs.Queue.External.{External}
use lqs.Queue.Send.{prepare_send}
use lqs.Store.Tables.{Message, DeduplicationKey, Db}
use lqs.Store.Read.{ms, transaction, read_queue_config}
use lqs.Store.Messages.{expire_messages, next_sequence, message_id_of, insert_row}

-- `DELETE FROM deduplication_keys …`, once the clock has passed the window.
unfoldable pub forget_keys : Db → Bytes → QueueConfig → ℕ → List DeduplicationKey
forget_keys db name config now =
    if leb config.deduplication_window_ms now
    then select
        (λ k. not (
          bytes_eq k.queue_name name
          && leb k.seen_at_ms (ms (now - config.deduplication_window_ms))))
        db.deduplication_keys
    else db.deduplication_keys

-- The WHERE clause of the lookup: this queue and id, in the scope or from before the scopes.
unfoldable pub is_duplicate : Bytes → QueueConfig → Bytes → Option Bytes → DeduplicationKey → Bool
is_duplicate name config id group k =
    bytes_eq k.queue_name name
    && bytes_eq k.deduplication_id id
    && (is_queue_scope config.deduplication_scope
        || option_eq (some k.group_id) group
        || is_empty k.group_id)

-- `ORDER BY seen_at_ms, message_id`
unfoldable pub is_before : DeduplicationKey → DeduplicationKey → Bool
is_before j k =
    ltb j.seen_at_ms k.seen_at_ms
    || (j.seen_at_ms == k.seen_at_ms && bytes_lt j.message_id k.message_id)

abbrev pub prefer : DeduplicationKey → Option DeduplicationKey → Option DeduplicationKey
prefer k none = some k
prefer k (some j) = if is_before j k then some j else some k

-- The first of the rows that pass, in that order.
unfoldable pub first_key :
    (DeduplicationKey → Bool) → List DeduplicationKey → Option DeduplicationKey
first_key p [] = none
first_key p (k ∷ ks) = if p k then prefer k (first_key p ks) else first_key p ks

abbrev pub id_of_key : Option DeduplicationKey → Option Bytes
id_of_key none = none
id_of_key (some k) = some k.message_id

abbrev pub find_key : Db → Bytes → QueueConfig → PreparedSend → ℕ → Option Bytes → Db × Option Bytes
find_key db name config prepared now none = (db, none)
find_key db name config prepared now (some id) =
    let kept = forget_keys db name config now in
    (
      record db { deduplication_keys = kept },
      id_of_key (first_key (is_duplicate name config id prepared.group_id) kept),
    )

unfoldable pub find_duplicate : Db → Bytes → QueueConfig → PreparedSend → ℕ → Db × Option Bytes
find_duplicate db name config prepared now =
    find_key db name config prepared now prepared.deduplication_id

unfoldable pub sent_row : Bytes → PreparedSend → ℕ → ℕ → Message
sent_row name prepared now sequence = record {
  sequence = sequence;
  message_id = message_id_of sequence;
  queue_name = name;
  body = prepared.body;
  group_id = prepared.group_id;
  receipt_handle = none;
  invisible_until_ms = none;
  receive_count = 0;
  created_at_ms = ms now;
  available_at_ms = saturating_add_i64 (ms now) (ms prepared.delay_ms);
  message_attributes = prepared.attributes_json;
  first_received_at_ms = none;
  message_deduplication_id = prepared.deduplication_id;
  total_receive_count = 0;
  visibility_revision = 0;
}

abbrev same_key : Bytes → Bytes → Bytes → DeduplicationKey → Bool
same_key name id group k =
    bytes_eq k.queue_name name && bytes_eq k.deduplication_id id && bytes_eq k.group_id group

-- `INSERT INTO deduplication_keys`, with its primary key and NOT NULL column.
unfoldable pub remember_key : Db → Bytes → Option Bytes → Option Bytes → Bytes → ℕ → Result Db
remember_key db name none group id now = ok db
remember_key db name (some key) none id now =
    err (database (text "NOT NULL constraint failed: deduplication_keys.group_id"))
remember_key db name (some key) (some group) id now = do
  fail_if (any (same_key name key group) db.deduplication_keys)
      (database (text "UNIQUE constraint failed: deduplication_keys"))
  ok (record db {
    deduplication_keys =
        record {
          queue_name = name;
          deduplication_id = key;
          message_id = id;
          seen_at_ms = now;
          group_id = group;
        }
        ∷ db.deduplication_keys;
  })

-- The message's id is set in the same transaction as its row.
unfoldable pub insert_message : Db → Bytes → PreparedSend → ℕ → Result (Db × Bytes)
insert_message db name prepared now = do
  let sequence = next_sequence db
  db1 ← insert_row db (sent_row name prepared now sequence)
  db2 ←
      remember_key db1 name prepared.deduplication_id prepared.group_id (message_id_of sequence)
        (ms now)
  ok (db2, message_id_of sequence)

abbrev pub send_result : PreparedSend → Bytes → Bool → SendResult
send_result prepared id deduplicated = record {
  message_id = id;
  deduplicated = deduplicated;
  md5_of_message_attributes = prepared.attribute_md5;
}

unfoldable pub send_unless : Db → Bytes → PreparedSend → ℕ → Option Bytes → Result (Db × SendResult)
send_unless db name prepared now (some id) = ok (db, send_result prepared id true)
send_unless db name prepared now none = do
  (db1, id) ← insert_message db name prepared now
  ok (db1, send_result prepared id false)

unfoldable pub send_body : External → Db → Bytes → SendRequest → ℕ → Result (Db × SendResult)
send_body ext db name request now = do
  config ← read_queue_config db name
  prepared ← prepare_send ext request config
  let found = find_duplicate (expire_messages db name (ms now)) name config prepared now
  send_unless found.0 name prepared now found.1

unfoldable pub send : External → Db → Bytes → SendRequest → ℕ → Db × Result SendResult
send ext db name request now = transaction db (send_body ext db name request now)
