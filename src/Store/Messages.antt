-- ===== src/Store/Messages.antt =====
-- The statements that change `messages`, with the foreign keys and triggers that follow them:
-- src/sqlite_lqs.rs (`expire_messages`, `insert_message`, `move_message`) and the triggers of
-- src/fifo.rs.
use lqs.Prelude.{
  ℕ, ◌+◌, Bool, true, false, not, ◌&&◌, Option, none, some, List, [], ◌∷◌, ◌++◌, if◌then◌else◌, leb,
  ◌==◌, any, select, find, update, Bytes, text, bytes_eq,
}
use lqs.Prelude.Word.{i64_max, saturating_add_i64}
use lqs.Prelude.Print.{hex_fixed}
use lqs.Error.{Result, ok, ◌>>=◌, ◌>>◌, fail_if, or_fail, database}
use lqs.Store.Tables.{QueueRow, Message, Attempt, AttemptMember, Db}
use lqs.Store.Read.{find_queue, queue_exists, is_expired, in_queue, read_queue_config, ms}

-- The attempt handed out this receipt handle.
unfoldable pub holds : List AttemptMember → Attempt → Option Bytes → Bool
holds members a none = false
holds members a (some handle) =
    any
      (λ k.
        bytes_eq k.queue_name a.queue_name
        && bytes_eq k.attempt_id a.attempt_id
        && bytes_eq k.receipt_handle handle)
      members

-- The triggers `invalidate_receive_delete` and `invalidate_receive_update`, for the rows that pass.
unfoldable pub invalidate : (Message → Bool) → Db → List Attempt
invalidate p db =
    update (λ a. any (λ m. p m && holds db.attempt_members a m.receipt_handle) db.messages)
      (λ a. record a { valid = false }) db.receive_attempts

-- `DELETE FROM messages WHERE p`: `dead_letter_origins` follows by ON DELETE CASCADE.
unfoldable pub delete_messages : (Message → Bool) → Db → Db
delete_messages p db = record db {
  messages = select (λ m. not (p m)) db.messages;
  dead_letter_origins =
      select (λ o. not (any (λ m. p m && m.sequence == o.sequence) db.messages))
        db.dead_letter_origins;
  receive_attempts = invalidate p db;
}

-- `UPDATE messages SET f WHERE p` where `f` sets `receipt_handle` or `visibility_revision`.
unfoldable pub update_messages : (Message → Bool) → (Message → Message) → Db → Db
update_messages p f db = record db {
  messages = update p f db.messages;
  receive_attempts = invalidate p db;
}

abbrev expire_with : Bytes → ℕ → Db → Option QueueRow → Db
expire_with name now db none = db
expire_with name now db (some q) =
    delete_messages (λ m. in_queue name m && is_expired now q.message_retention_ms m) db

unfoldable pub expire_messages : Db → Bytes → ℕ → Db
expire_messages db name now = expire_with name now db (find_queue db name)

-- AUTOINCREMENT never gives a sequence twice, and stops at the largest integer.
unfoldable pub next_sequence : Db → ℕ
next_sequence db = db.last_sequence + 1

-- `format!("msg-{sequence:016x}")`
unfoldable pub message_id_of : ℕ → Bytes
message_id_of sequence = text "msg-" ++ hex_fixed 16 sequence

abbrev pub has_id : Bytes → Message → Bool
has_id id m = bytes_eq m.message_id id

-- `INSERT INTO messages`, with the UNIQUE and foreign key constraints of the table.
unfoldable pub insert_row : Db → Message → Result Db
insert_row db row = do
  fail_if (leb i64_max db.last_sequence) (database (text "database or disk is full"))
  fail_if (any (has_id row.message_id) db.messages)
      (database (text "UNIQUE constraint failed: messages.message_id"))
  fail_if (not (queue_exists db row.queue_name)) (database (text "FOREIGN KEY constraint failed"))
  ok (record db { messages = db.messages ++ row ∷ []; last_sequence = row.sequence })

abbrev pub has_sequence : ℕ → Message → Bool
has_sequence sequence m = m.sequence == sequence

unfoldable pub moved_delay : Db → Bytes → Bool → Result ℕ
moved_delay db destination false = ok 0
moved_delay db destination true = do config ← read_queue_config db destination; ok config.delay_ms

-- The row that `move_message` inserts.
unfoldable pub moved_row : Message → ℕ → Bytes → ℕ → ℕ → Bool → Bool → Message
moved_row m sequence destination now delay reset_timestamp new_identity = record {
  sequence = sequence;
  message_id = if new_identity then message_id_of sequence else m.message_id;
  queue_name = destination;
  body = m.body;
  group_id = m.group_id;
  receipt_handle = none;
  invisible_until_ms = none;
  receive_count = 0;
  created_at_ms = if reset_timestamp then now else m.created_at_ms;
  available_at_ms = saturating_add_i64 now (ms delay);
  message_attributes = m.message_attributes;
  first_received_at_ms = if new_identity then none else m.first_received_at_ms;
  message_deduplication_id = m.message_deduplication_id;
  total_receive_count = if new_identity then 0 else m.total_receive_count;
  visibility_revision = 0;
}

-- Delete and insert again, so that the destination orders by the time of the move.
unfoldable pub move_message : Db → ℕ → Bytes → ℕ → Bool → Bool → Result (Db × ℕ)
move_message db sequence destination now reset_timestamp new_identity = do
  m ← or_fail (find (has_sequence sequence) db.messages) (database (text "Query returned no rows"))
  let db1 = delete_messages (has_sequence sequence) db
  delay ← moved_delay db1 destination new_identity
  let moved = next_sequence db1
  db2 ← insert_row db1 (moved_row m moved destination now delay reset_timestamp new_identity)
  ok (db2, moved)
