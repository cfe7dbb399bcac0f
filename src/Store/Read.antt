-- ===== src/Store/Read.antt =====
-- src/sqlite_lqs.rs: transactions, times, and what is read about one queue.
use lqs.Prelude.{
  ℕ, ◌+◌, Bool, false, not, ◌&&◌, Option, none, some, ltb, leb, any, find, count, min, Bytes, text,
  bytes_eq,
}
use lqs.Prelude.Word.{i64_max}
use lqs.Error.{Result, ok, err, out_of_fuel, ◌>>=◌, or_fail, queue_not_found, database}
use lqs.Security.Settings.{QueueSecurity}
use lqs.Queue.Types.{QueueType, RedrivePolicy, QueueConfig}
use lqs.Store.Tables.{QueueRow, Message, SecurityRow, PolicyRow, Db}

-- `ms`: a time or a duration as SQLite's signed integer.
unfoldable pub ms : ℕ → ℕ
ms value = min value i64_max

-- A transaction: commit keeps the new tables, and an error rolls them back.
abbrev pub transaction {ℓ} : {A : Type ℓ} → Db → Result (Db × A) → Db × Result A
transaction db (ok (db', a)) = (db', ok a)
transaction db (err e) = (db, err e)
transaction db out_of_fuel = (db, out_of_fuel)

abbrev pub is_queue : Bytes → QueueRow → Bool
is_queue name q = bytes_eq q.name name

unfoldable pub find_queue : Db → Bytes → Option QueueRow
find_queue db name = find (is_queue name) db.queues

-- `queue_exists`, and what a foreign key to `queues` asks.
unfoldable pub queue_exists : Db → Bytes → Bool
queue_exists db name = any (is_queue name) db.queues

unfoldable pub queue_type : Db → Bytes → Result QueueType
queue_type db name = do q ← or_fail (find_queue db name) (queue_not_found name); ok q.queue_type

-- security_sqlite::read
unfoldable pub read_security : Db → Bytes → Result QueueSecurity
read_security db name = do
  row ←
      or_fail (find (λ (r : SecurityRow). bytes_eq r.queue_name name) db.securities)
        (database (text "Query returned no rows"))
  ok row.settings

abbrev pub policy_of : Option PolicyRow → Option RedrivePolicy
policy_of none = none
policy_of (some r) = some r.policy

unfoldable pub read_redrive_policy : Db → Bytes → Option RedrivePolicy
read_redrive_policy db name =
    policy_of (find (λ r. bytes_eq r.source_queue name) db.redrive_policies)

unfoldable pub read_queue_config : Db → Bytes → Result QueueConfig
read_queue_config db name = do
  q ← or_fail (find_queue db name) (queue_not_found name)
  security ← read_security db name
  ok (record {
    security = security;
    deduplication_scope = q.deduplication_scope;
    fifo_throughput_limit = q.fifo_throughput_limit;
    queue_type = q.queue_type;
    visibility_timeout_ms = q.visibility_timeout_ms;
    content_based_deduplication = q.content_based_deduplication;
    deduplication_window_ms = q.deduplication_window_ms;
    redrive_policy = read_redrive_policy db name;
    delay_ms = q.delay_ms;
    message_retention_ms = q.message_retention_ms;
    maximum_message_size = q.maximum_message_size;
    receive_wait_time_ms = q.receive_wait_time_ms;
    max_in_flight = q.max_in_flight;
  })

-- `created_at_ms <= now - retention` over signed integers.
abbrev pub is_expired : ℕ → ℕ → Message → Bool
is_expired now retention m = leb (m.created_at_ms + retention) now

-- A comparison with NULL does not hold.
abbrev pub after : Option ℕ → ℕ → Bool
after none now = false
after (some t) now = ltb now t

abbrev pub in_queue : Bytes → Message → Bool
in_queue name m = bytes_eq m.queue_name name

-- The deadline is strictly after now, and the message has not expired.
unfoldable pub in_flight : Bytes → ℕ → ℕ → Message → Bool
in_flight name now retention m =
    in_queue name m && after m.invisible_until_ms now && not (is_expired now retention m)

abbrev count_with : Db → (ℕ → Message → Bool) → Option QueueRow → ℕ
count_with db p none = 0
count_with db p (some q) = count (p q.message_retention_ms) db.messages

unfoldable pub count_in_flight : Db → Bytes → ℕ → ℕ
count_in_flight db name now = count_with db (in_flight name now) (find_queue db name)

-- `Lqs::in_flight_count` and `Lqs::queue_depth`
unfoldable pub in_flight_count : Db → Bytes → ℕ → Result ℕ
in_flight_count db name now = do
  config ← read_queue_config db name
  ok (count_in_flight db name (ms now))

unfoldable pub queue_depth : Db → Bytes → Result ℕ
queue_depth db name = do config ← read_queue_config db name; ok (count (in_queue name) db.messages)
