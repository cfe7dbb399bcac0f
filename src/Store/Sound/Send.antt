-- ===== src/Store/Sound/Send.antt =====
-- `send`, `delete`, `change_visibility`, `redrive_dead_letters` keep the store sound.
use lqs.Prelude.{
  ℕ, zero, suc, ◌+◌, Bool, true, Option, none, some, ◌≡◌, refl, subst, inl, inr, arith,
  Option-cases, find, Bytes,
}
use lqs.Error.{Result, ok, err, out_of_fuel, >>=-eq-ok, >>-eq-ok}
use lqs.Queue.Types.{QueueType, SendRequest, SendResult, PreparedSend, QueueConfig}
use lqs.Queue.External.{External}
use lqs.Queue.Send.{prepare_send}
use lqs.Store.Tables.{Message, Db}
use lqs.Store.Read.{transaction, ms, read_queue_config, queue_type}
use lqs.Store.Messages.{
  expire_messages, insert_row, next_sequence, message_id_of, update_messages, move_message,
}
use lqs.Store.Send.{
  find_duplicate, sent_row, remember_key, insert_message, send_unless, send_body, send,
}
use lqs.Store.Visibility.{has_receipt, delete, change_rows, change_visibility}
use lqs.Store.Redrive.{is_movable, redrive_loop, redrive_body, redrive_dead_letters}
use lqs.Store.Sound.Rows.{
  IsSound, delete_messages-IsSound, update_rows-IsSound, expire_messages-IsSound,
  insert_row-IsSound, move_message-IsSound,
}

-- A transaction keeps what its body keeps: an error leaves the tables as they were.
pub transaction-keeps :
    {A : Type 0} (P : Db → Type 0) (db : Db) (body : Result (Db × A))
    → P db
    → ((db' : Db) (a : A) → body ≡ ok (db', a) → P db')
    → P (transaction db body).0
transaction-keeps P db (ok (db', a)) old new = new db' a refl
transaction-keeps P db (err e) old new = old
transaction-keeps P db out_of_fuel old new = old

-- `IsSound` is about the queues, the messages and the last sequence only.
pub same_rows-IsSound :
    (db db' : Db)
    → db'.queues ≡ db.queues
    → db'.messages ≡ db.messages
    → db'.last_sequence ≡ db.last_sequence
    → IsSound db
    → IsSound db'
same_rows-IsSound db db' q m l v = record {
  ascending = rw m v.ascending;
  rows = rw (q, m, l) v.rows;
}

remember_key-IsSound :
    (db : Db) (name : Bytes) (key group : Option Bytes) (id : Bytes) (now : ℕ) (db' : Db)
    → remember_key db name key group id now ≡ ok db'
    → IsSound db
    → IsSound db'
unfolding remember_key
remember_key-IsSound db name key group id now db' h v =
    same_rows-IsSound db db' (ground arith) (ground arith) (ground arith) v

module _ (db : Db) (v : IsSound db) (name : Bytes) where
  find_duplicate-IsSound :
      (config : QueueConfig) (prepared : PreparedSend) (now : ℕ)
      → IsSound (find_duplicate db name config prepared now).0
  unfolding find_duplicate
  find_duplicate-IsSound config prepared now =
      same_rows-IsSound db _ (ground arith) (ground arith) (ground arith) v

  insert_message-IsSound :
      (prepared : PreparedSend) (now : ℕ) (db' : Db) (id : Bytes)
      → insert_message db name prepared now ≡ ok (db', id)
      → IsSound db'
  unfolding insert_message sent_row
  insert_message-IsSound prepared now db' id h =
      let (db1, e1, h1) =
        >>=-eq-ok (insert_row db (sent_row name prepared now (next_sequence db))) _ h in
      let (db2, e2, h2) =
        >>=-eq-ok
          (remember_key db1 name prepared.deduplication_id prepared.group_id
            (message_id_of (next_sequence db)) (ms now))
          _ h1 in
      let same : db2 ≡ db' = ground arith in
      subst IsSound same (
        remember_key-IsSound db1 name _ _ _ _ db2 e2
          (insert_row-IsSound db v _ db1 refl (next_sequence db, omega arith, refl) e1))

  send_unless-IsSound :
      (prepared : PreparedSend) (now : ℕ) (found : Option Bytes) (db' : Db) (r : SendResult)
      → send_unless db name prepared now found ≡ ok (db', r)
      → IsSound db'
  unfolding send_unless
  send_unless-IsSound prepared now none db' r h =
      let ((db1, id), e, h1) = >>=-eq-ok (insert_message db name prepared now) _ h in
      let same : db1 ≡ db' = ground arith in
      subst IsSound same (insert_message-IsSound prepared now db1 id e)
  send_unless-IsSound prepared now (some id) db' r h =
      let same : db ≡ db' = ground arith in subst IsSound same v

-- Sending keeps the store sound, whatever the request and the outcome.
pub send-IsSound :
    (ext : External) (db : Db) (name : Bytes) (request : SendRequest) (now : ℕ)
    → IsSound db
    → IsSound (send ext db name request now).0
unfolding send send_body
send-IsSound ext db name request now v =
    transaction-keeps IsSound db (send_body ext db name request now) v λ db' r h.
      let (config, c, h1) = >>=-eq-ok (read_queue_config db name) _ h in
      let (prepared, p, h2) = >>=-eq-ok (prepare_send ext request config) _ h1 in
      let db1 = expire_messages db name (ms now) in
      send_unless-IsSound _
        (find_duplicate-IsSound db1 (expire_messages-IsSound db v name (ms now)) name config
          prepared now)
        name prepared now _ db' r h2

pub update_messages-IsSound :
    (db : Db) (v : IsSound db) (p : Message → Bool) (f : Message → Message)
    → ((m : Message) → (f m).sequence ≡ m.sequence)
    → ((m : Message) → (f m).queue_name ≡ m.queue_name)
    → ((m : Message) → (f m).message_id ≡ m.message_id)
    → IsSound (update_messages p f db)
unfolding update_messages
update_messages-IsSound db v p f a b c =
    let w = update_rows-IsSound db v p f a b c in record { ascending = w.ascending; rows = w.rows }

-- Deleting by a receipt handle keeps the store sound.
pub delete-IsSound :
    (db : Db) (name handle : Bytes) → IsSound db → IsSound (delete db name handle).0
unfolding delete
delete-IsSound db name handle v =
    ground (arith, delete_messages-IsSound db v (has_receipt name handle))

change_rows-IsSound :
    (db : Db) (name handle : Bytes) (timeout now : ℕ)
    → IsSound db
    → IsSound (change_rows db name handle timeout now).0
unfolding change_rows
change_rows-IsSound db name handle timeout now v =
    update_messages-IsSound db v _ _ (λ m. refl) (λ m. refl) (λ m. refl)

-- Changing a deadline keeps the store sound.
pub change_visibility-IsSound :
    (db : Db) (name handle : Bytes) (timeout now : ℕ)
    → IsSound db
    → IsSound (change_visibility db name handle timeout now).0
unfolding change_visibility
change_visibility-IsSound db name handle timeout now v =
    ground (arith, change_rows-IsSound db name handle timeout now v)

redrive_loop-IsSound :
    (dlq source : Bytes) (kind : QueueType) (now left : ℕ) (db : Db) (moved : ℕ) (db' : Db) (n : ℕ)
    → IsSound db
    → redrive_loop dlq source kind now left db moved ≡ ok (db', n)
    → IsSound db'
unfolding redrive_loop
redrive_loop-IsSound dlq source kind now zero db moved db' n v h =
    let same : db ≡ db' = ground arith in subst IsSound same v
redrive_loop-IsSound dlq source kind now (suc left) db moved db' n v h =
    elim (Option-cases (find (is_movable db dlq source kind now) db.messages)) [
      | inl e ↦ let same : db ≡ db' = cc (rw (e, redrive_loop) at h) in subst IsSound same v
      | inr (m, e) ↦
          let (step, s, h1) =
            >>=-eq-ok (move_message db m.sequence source now true true) _
              (rw (e, redrive_loop) at h) in
          redrive_loop-IsSound dlq source kind now left step.0 (moved + 1) db' n
            (move_message-IsSound db v m.sequence source now true true step.0 step.1 s) h1
    ]

-- Redriving dead letters keeps the store sound.
pub redrive_dead_letters-IsSound :
    (db : Db) (dlq source : Bytes) (max_messages now : ℕ)
    → IsSound db
    → IsSound (redrive_dead_letters db dlq source max_messages now).0
unfolding redrive_dead_letters redrive_body
redrive_dead_letters-IsSound db dlq source max_messages now v =
    transaction-keeps IsSound db (redrive_body db dlq source max_messages now) v λ db' n h.
      let (target, t, h1) = >>=-eq-ok (queue_type db source) _ h in
      let (kind, k, h2) = >>=-eq-ok (queue_type db dlq) _ h1 in
      let (ok', h3) = >>-eq-ok _ _ h2 in
      redrive_loop-IsSound dlq source target (ms now) max_messages _ 0 db' n
        (expire_messages-IsSound _ (expire_messages-IsSound db v dlq (ms now)) source (ms now)) h3
