-- ===== src/Store/Settings.antt =====
-- src/sqlite_lqs.rs and src/security_sqlite.rs: creating a queue, changing its attributes, and its
-- security settings.
use lqs.Prelude.{
  ℕ, ◌+◌, ◌-◌, Bool, false, not, ◌&&◌, Option, none, some, List, [], ◌∷◌, ◌++◌, if◌then◌else◌, ltb,
  ◌==◌, select, find, update, min, Bytes, bytes_eq,
}
use lqs.Prelude.Word.{i64_max, saturating_add_i64}
use lqs.Error.{Result, ok, ◌>>=◌, ◌>>◌, fail_if, queue_deleted_recently, queue_already_exists}
use lqs.Security.Names.{RequestIdentity, arn_prefix}
use lqs.Security.Settings.{QueueSecurity, validate_security}
use lqs.Security.Authorize.{authorize}
use lqs.Security.Permission.{
  add_permission as add_to_policy, remove_permission as remove_from_policy,
}
use lqs.Queue.Types.{
  QueueType, is_fifo, QueueOptions, QueueUpdate, QueueConfig, ResolvedQueueUpdate, RedrivePolicy,
}
use lqs.Queue.External.{External}
use lqs.Queue.Validate.{QueueTags, validate_queue_creation, resolve_queue_update}
use lqs.Store.Tables.{QueueRow, SecurityRow, TagRow, DeletedQueue, Db}
use lqs.Store.Read.{
  ms, transaction, is_queue, in_queue, queue_exists, queue_type, read_security, read_queue_config,
}
use lqs.Store.Messages.{expire_messages}
use lqs.Store.Redrive.{write_redrive_policy, touch_queue}

-- security_sqlite::write: `INSERT … ON CONFLICT(queue_name) DO UPDATE`
unfoldable pub put_security : Bytes → QueueSecurity → List SecurityRow → List SecurityRow
put_security name settings [] = record { queue_name = name; settings = settings } ∷ []
put_security name settings (r ∷ rs) =
    if bytes_eq r.queue_name name
    then record { queue_name = name; settings = settings } ∷ rs
    else r ∷ put_security name settings rs

unfoldable pub write_security : External → Db → Bytes → QueueSecurity → Result Db
write_security ext db name settings = do
  validate_security ext.json_parse settings
  ok (record db { securities = put_security name settings db.securities })

-- `INSERT INTO queue_tags … ON CONFLICT(queue_name, key) DO UPDATE`
unfoldable pub put_tag : Bytes → Bytes → Bytes → List TagRow → List TagRow
put_tag name key value [] = record { queue_name = name; key = key; value = value } ∷ []
put_tag name key value (r ∷ rs) =
    if bytes_eq r.queue_name name && bytes_eq r.key key
    then record { queue_name = name; key = key; value = value } ∷ rs
    else r ∷ put_tag name key value rs

unfoldable pub write_tags : Bytes → QueueTags → List TagRow → List TagRow
write_tags name [] rows = rows
write_tags name ((key, value) ∷ tags) rows = write_tags name tags (put_tag name key value rows)

-- The row after the INSERT and the UPDATEs of `insert_queue`.
unfoldable pub new_row : Bytes → QueueType → QueueOptions → ℕ → QueueRow
new_row name kind options now = record {
  name = name;
  queue_type = kind;
  visibility_timeout_ms = ms options.visibility_timeout_ms;
  content_based_deduplication = options.content_based_deduplication;
  deduplication_window_ms = ms options.deduplication_window_ms;
  delay_ms = ms options.delay_ms;
  message_retention_ms = ms options.message_retention_ms;
  maximum_message_size = options.maximum_message_size;
  receive_wait_time_ms = ms options.receive_wait_time_ms;
  max_in_flight = options.max_in_flight;
  deduplication_scope = options.deduplication_scope;
  fifo_throughput_limit = options.fifo_throughput_limit;
  created_at_ms = ms now;
  modified_at_ms = ms now;
  last_purge_ms = none;
}

unfoldable pub insert_queue :
    External → Db → Bytes → QueueType → QueueOptions → QueueTags → ℕ → Result Db
insert_queue ext db name kind options tags now = do
  fail_if (queue_exists db name) (queue_already_exists name)
  let db1 = record db { queues = db.queues ++ new_row name kind options now ∷ [] }
  db2 ← write_security ext db1 name options.security
  let db3 = record db2 { queue_tags = write_tags name tags db2.queue_tags }
  write_redrive_policy db3 name options.redrive_policy

abbrev is_deleted : Bytes → DeletedQueue → Bool
is_deleted name d = bytes_eq d.name name

-- The name is free 60 seconds after the queue was deleted.
abbrev is_reserved : ℕ → Option DeletedQueue → Bool
is_reserved now none = false
is_reserved now (some d) = ltb (ms now) (saturating_add_i64 d.deleted_at_ms 60000)

unfoldable pub create_body :
    External → Db → Bytes → QueueType → QueueOptions → QueueTags → ℕ → Result (Db × Unit {0})
create_body ext db name kind options tags now = do
  validate_queue_creation ext name kind options tags
  fail_if (is_reserved now (find (is_deleted name) db.deleted_queues)) queue_deleted_recently
  let db1 = record db { deleted_queues = select (λ d. not (is_deleted name d)) db.deleted_queues }
  db2 ← insert_queue ext db1 name kind options tags now
  ok (db2, tt)

-- `create_queue_with_tags_at`; `create_queue` passes no tags and the clock's time.
unfoldable pub create_queue :
    External → Db → Bytes → QueueType → QueueOptions → QueueTags → ℕ → Db × Result (Unit {0})
create_queue ext db name kind options tags now =
    transaction db (create_body ext db name kind options tags now)

-- The UPDATEs of `set_queue_attributes` on the queue's row.
unfoldable pub with_update : ResolvedQueueUpdate → ℕ → QueueRow → QueueRow
with_update u now q = record q {
  visibility_timeout_ms = ms u.visibility;
  modified_at_ms = ms now;
  content_based_deduplication = u.content_based;
  deduplication_scope = u.scope;
  fifo_throughput_limit = u.throughput;
  delay_ms = ms u.delay;
  message_retention_ms = ms u.retention;
  maximum_message_size = u.maximum;
  receive_wait_time_ms = ms u.wait;
  max_in_flight = u.max_in_flight;
}

abbrev pub write_policy_if : Db → Bytes → Option (Option RedrivePolicy) → Result Db
write_policy_if db name none = ok db
write_policy_if db name (some policy) = write_redrive_policy db name policy

-- A FIFO queue's new delay also moves the messages that were never received.
unfoldable pub delay_again : QueueConfig → Bytes → ℕ → Db → Db
delay_again current name delay db =
    if is_fifo current.queue_type && not (delay == current.delay_ms)
    then record db {
      messages =
          update (λ m. in_queue name m && m.receive_count == 0)
            (λ m. record m {
              available_at_ms = min m.created_at_ms (i64_max - ms delay) + ms delay;
            })
            db.messages;
    }
    else db

unfoldable pub update_body : External → Db → Bytes → QueueUpdate → ℕ → Result (Db × Unit {0})
update_body ext db name change now = do
  current ← read_queue_config db name
  resolved ← resolve_queue_update ext current change
  db1 ← write_security ext db name resolved.security
  let db2 = record db1 { queues = update (is_queue name) (with_update resolved now) db1.queues }
  db3 ← write_policy_if db2 name resolved.redrive_policy
  ok (expire_messages (delay_again current name resolved.delay db3) name (ms now), tt)

unfoldable pub set_queue_attributes :
    External → Db → Bytes → QueueUpdate → ℕ → Db × Result (Unit {0})
set_queue_attributes ext db name change now = transaction db (update_body ext db name change now)

-- `Lqs::queue_security` and `Lqs::authorize_queue`
unfoldable pub queue_security : Db → Bytes → Result QueueSecurity
queue_security db name = do kind ← queue_type db name; read_security db name

unfoldable pub authorize_queue : External → Db → Bytes → RequestIdentity → Bytes → Result (Unit {0})
authorize_queue ext db name identity action = do
  security ← queue_security db name
  authorize ext.json_parse security.policy identity action (arn_prefix ++ name)

unfoldable pub add_permission_body :
    External → Db → Bytes → Bytes → List Bytes → List Bytes → ℕ → Result (Db × Unit {0})
add_permission_body ext db name label accounts actions now = do
  config ← read_queue_config db name
  policy ←
      add_to_policy ext.json_parse ext.json_print config.security.policy name label accounts actions
  db1 ← write_security ext db name (record (config.security) { policy = some policy })
  ok (touch_queue name now db1, tt)

unfoldable pub add_permission :
    External → Db → Bytes → Bytes → List Bytes → List Bytes → ℕ → Db × Result (Unit {0})
add_permission ext db name label accounts actions now =
    transaction db (add_permission_body ext db name label accounts actions now)

unfoldable pub remove_permission_body : External → Db → Bytes → Bytes → ℕ → Result (Db × Unit {0})
remove_permission_body ext db name label now = do
  config ← read_queue_config db name
  policy ← remove_from_policy ext.json_parse ext.json_print config.security.policy label
  db1 ← write_security ext db name (record (config.security) { policy = policy })
  ok (touch_queue name now db1, tt)

unfoldable pub remove_permission : External → Db → Bytes → Bytes → ℕ → Db × Result (Unit {0})
remove_permission ext db name label now =
    transaction db (remove_permission_body ext db name label now)
