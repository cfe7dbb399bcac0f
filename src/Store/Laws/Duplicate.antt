-- ===== src/Store/Laws/Duplicate.antt =====
-- src/sqlite_lqs.rs `send`: a message that is sent again within the window.
pub mod Keys
use lqs.Prelude.{
  ℕ, ◌+◌, ◌-◌, ◌≤◌, ◌<◌, Bool, true, false, not, ◌&&◌, ◌||◌, ◌≡◌, refl, sym, ◌∙◌, ap, Option, none,
  some, List, [], ◌∷◌, arith, leb, ltb, ◌==◌, select, find, any, is_empty, Bytes, bytes_eq,
  bytes_eq_refl, Bool-cases, Option-cases, inl, inr,
}
use lqs.Prelude.Word.{i64_max}
use lqs.Error.{ok, >>=-eq-ok}
use lqs.Queue.Types.{QueueConfig, SendRequest, SendResult, PreparedSend}
use lqs.Queue.External.{External}
use lqs.Queue.Send.{prepare_send}
use lqs.Store.Tables.{Db, DeduplicationKey}
use lqs.Store.Read.{
  ms, transaction, find_queue, read_security, read_redrive_policy, read_queue_config,
}
use lqs.Store.Messages.{expire_messages, delete_messages, next_sequence, message_id_of, insert_row}
use lqs.Store.Send.{
  forget_keys, is_duplicate, first_key, id_of_key, find_key, find_duplicate, sent_row, remember_key,
  insert_message, send_result, send_unless, send_body, send,
}
use lqs.Store.Laws.Quotas.{transaction-eq-ok}
use lqs.Store.Laws.Duplicate.Keys.{
  SameSettings, same_config, expire_messages-keys, expire_messages-SameSettings, key_of,
  insert_row-frame, remember_key-frame, first_key-forget_keys,
}

-- What a first send has left: one more key, and no other under which the message would be found.
record Remembered (name : Bytes) (config : QueueConfig) (prepared : PreparedSend) (id : Bytes)
    (now : ℕ) (message_id : Bytes) (db db' : Db) : Type 0 where
  settings : SameSettings db db'
  group : Bytes
  group_is : prepared.group_id ≡ some group
  before : List DeduplicationKey
  keys : db'.deduplication_keys ≡ key_of name id group message_id now ∷ before
  alone : first_key (is_duplicate name config id prepared.group_id) before ≡ none

id_of_key-none : (o : Option DeduplicationKey) → id_of_key o ≡ none → o ≡ none
id_of_key-none none h = refl
id_of_key-none (some k) h = cc h

insert_message-Remembered :
    (db db' : Db) (name : Bytes) (prepared : PreparedSend) (id : Bytes) (now : ℕ)
    (message_id : Bytes) (config : QueueConfig)
    → prepared.deduplication_id ≡ some id
    → first_key (is_duplicate name config id prepared.group_id) db.deduplication_keys ≡ none
    → insert_message db name prepared now ≡ ok (db', message_id)
    → Remembered name config prepared id now message_id db db'
unfolding insert_message
insert_message-Remembered db db' name prepared id now message_id config i a h =
    let row = sent_row name prepared now (next_sequence db) in
    let (db1, e, h1) = >>=-eq-ok (insert_row db row) _ h in
    let (db2, f, h2) =
      >>=-eq-ok
        (remember_key db1 name prepared.deduplication_id prepared.group_id
          (message_id_of (next_sequence db)) (ms now))
        _ h1 in
    let (s, k) = insert_row-frame db row db1 e in
    let (g, q, t, l) =
      remember_key-frame db1 name id prepared.group_id (message_id_of (next_sequence db)) now db2
        (rw i at f) in
    let same : db2 ≡ db' = ground arith in
    let named : message_id_of (next_sequence db) ≡ message_id = ground arith in
    record {
      settings = record {
        queues = ground (arith, s.queues, t.queues);
        securities = ground (arith, s.securities, t.securities);
        policies = ground (arith, s.policies, t.policies);
      };
      group = g;
      group_is = q;
      before = db.deduplication_keys;
      keys = ground (arith, k, l);
      alone = a;
    }

send_unless-Remembered :
    (db db' : Db) (name : Bytes) (prepared : PreparedSend) (id : Bytes) (now : ℕ)
    (config : QueueConfig) (found : Option Bytes) (first : SendResult)
    → prepared.deduplication_id ≡ some id
    → found
      ≡ id_of_key (first_key (is_duplicate name config id prepared.group_id) db.deduplication_keys)
    → first.deduplicated ≡ false
    → send_unless db name prepared now found ≡ ok (db', first)
    → Remembered name config prepared id now first.message_id db db'
unfolding send_unless
send_unless-Remembered db db' name prepared id now config (some m) first i f n h =
    absurd (ground (arith, n, h))
send_unless-Remembered db db' name prepared id now config none first i f n h =
    let (d, e, h1) = >>=-eq-ok (insert_message db name prepared now) _ h in
    let same : d.0 ≡ db' = ground arith in
    let named : d.1 ≡ first.message_id = ground arith in
    insert_message-Remembered db db' name prepared id now first.message_id config i
      (id_of_key-none _ (sym f)) (rw (sym same, sym named) e)

SameSettings-trans : (a b c : Db) → SameSettings a b → SameSettings b c → SameSettings a c
SameSettings-trans a b c s t = record {
  queues = t.queues ∙ s.queues;
  securities = t.securities ∙ s.securities;
  policies = t.policies ∙ s.policies;
}

find_duplicate-some :
    (db : Db) (name : Bytes) (config : QueueConfig) (prepared : PreparedSend) (now : ℕ) (id : Bytes)
    → prepared.deduplication_id ≡ some id
    → find_duplicate db name config prepared now ≡ find_key db name config prepared now (some id)
unfolding find_duplicate
find_duplicate-some db name config prepared now id i = rw i refl

-- The key of a message is found for the same message.
key_of-is_duplicate :
    (name : Bytes) (config : QueueConfig) (id group message_id : Bytes) (now : ℕ)
    (given : Option Bytes)
    → given ≡ some group
    → is_duplicate name config id given (key_of name id group message_id now) ≡ true
unfolding is_duplicate lqs.Prelude.option_eq
key_of-is_duplicate name config id group message_id now given e =
    rw e (ground (arith, bytes_eq_refl name, bytes_eq_refl id, bytes_eq_refl group))

key_stays :
    (now later window : ℕ)
    → now ≤ i64_max
    → later < now + window
    → leb window later ≡ true
    → leb (ms now) (ms (later - window)) ≡ false
unfolding ms
key_stays now later window small soon w = ground arith

module _ (ext : External) (db : Db) (name : Bytes) (request : SendRequest) (config : QueueConfig)
    (prepared : PreparedSend) (id : Bytes) (c : read_queue_config db name ≡ ok config)
    (p : prepare_send ext request config ≡ ok prepared)
    (i : prepared.deduplication_id ≡ some id) where
  send_body-Remembered :
      (now : ℕ) (after : Db) (first : SendResult)
      → send_body ext db name request now ≡ ok (after, first)
      → first.deduplicated ≡ false
      → Remembered name config prepared id now first.message_id db after
  unfolding send_body
  send_body-Remembered now after first h n =
      let db1 = expire_messages db name (ms now) in
      let kept = forget_keys db1 name config now in
      let db2 = record db1 { deduplication_keys = kept } in
      let found = find_duplicate db1 name config prepared now in
      let there : send_unless found.0 name prepared now found.1 ≡ ok (after, first) =
        rw (c, p, send_body) at h in
      let same = find_duplicate-some db1 name config prepared now id i in
      let mid =
        send_unless-Remembered db2 after name prepared id now config
          (id_of_key (first_key (is_duplicate name config id prepared.group_id) kept)) first i refl
          n (rw same at there) in
      let settings : SameSettings db db2 = record {
        queues = (expire_messages-SameSettings db name (ms now)).queues;
        securities = (expire_messages-SameSettings db name (ms now)).securities;
        policies = (expire_messages-SameSettings db name (ms now)).policies;
      } in
      record {
        settings = SameSettings-trans db db2 after settings mid.settings;
        group = mid.group;
        group_is = mid.group_is;
        before = mid.before;
        keys = mid.keys;
        alone = mid.alone;
      }

  send_body-again :
      (now later : ℕ) (after : Db) (message_id : Bytes)
      → Remembered name config prepared id now message_id db after
      → now ≤ i64_max
      → later < now + config.deduplication_window_ms
      → send_body ext after name request later
        ≡ ok (
          record (expire_messages after name (ms later)) {
            deduplication_keys =
                forget_keys (expire_messages after name (ms later)) name config later;
          },
          send_result prepared message_id true,
        )
  unfolding send_body send_unless
  send_body-again now later after message_id m small soon =
      let db1 = expire_messages after name (ms later) in
      let c' = same_config db after name m.settings ∙ c in
      let k = key_of name id m.group message_id now in
      let q = is_duplicate name config id prepared.group_id in
      let stays = λ (w : leb config.deduplication_window_ms later ≡ true).
        key_stays now later config.deduplication_window_ms small soon w in
      let hit =
        first_key-forget_keys db1 name config later q k m.before
          (expire_messages-keys after name (ms later) ∙ m.keys)
          (key_of-is_duplicate name config id m.group message_id now prepared.group_id m.group_is)
          m.alone stays in
      let same = find_duplicate-some db1 name config prepared later id i in
      rw (c', p, same, hit, send_body) refl

-- If a send with a deduplication id stored its message, the clock then was one that SQLite can store,
-- and the same request comes again before the window of the queue has passed, that second send
-- succeeds with the id of the first message, says that it is a duplicate, and stores no message: the
-- messages are those of before that have not expired.
pub send-duplicate :
    (ext : External) (db : Db) (name : Bytes) (request : SendRequest) (now later : ℕ)
    (config : QueueConfig) (prepared : PreparedSend) (id : Bytes) (first : SendResult)
    → read_queue_config db name ≡ ok config
    → prepare_send ext request config ≡ ok prepared
    → prepared.deduplication_id ≡ some id
    → (send ext db name request now).1 ≡ ok first
    → first.deduplicated ≡ false
    → now ≤ i64_max
    → later < now + config.deduplication_window_ms
    → ((send ext (send ext db name request now).0 name request later).1
        ≡ ok (record {
          message_id = first.message_id;
          deduplicated = true;
          md5_of_message_attributes = prepared.attribute_md5;
        }))
      × ((send ext (send ext db name request now).0 name request later).0.messages
          ≡ (expire_messages (send ext db name request now).0 name (ms later)).messages)
unfolding send
send-duplicate ext db name request now later config prepared id first c p i h n small soon =
    let after = (send ext db name request now).0 in
    let body = transaction-eq-ok db (send_body ext db name request now) first h in
    let m =
      send_body-Remembered ext db name request config prepared id c p i now after first body n in
    let again =
      send_body-again ext db name request config prepared id c p i now later after first.message_id
        m small soon in
    (ap (λ r. (transaction after r).1) again, ap (λ r. (transaction after r).0.messages) again)
