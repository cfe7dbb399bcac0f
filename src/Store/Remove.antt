-- ===== src/Store/Remove.antt =====
-- src/management.rs: purging and deleting queues.
use lqs.Prelude.{
  ℕ, Bool, false, not, ◌&&◌, ◌||◌, Option, none, some, List, ◌∷◌, ltb, ◌==◌, any, select, update,
  Bytes, bytes_eq,
}
use lqs.Prelude.Word.{saturating_add_i64}
use lqs.Error.{Result, ok, ◌>>=◌, ◌>>◌, fail_if, or_fail, purge_queue_in_progress, queue_not_found}
use lqs.Store.Tables.{
  QueueRow, SecurityRow, DeduplicationKey, PolicyRow, Attempt, AttemptMember, DeletedQueue, Db,
}
use lqs.Store.Read.{ms, transaction, is_queue, find_queue, in_queue, read_queue_config}
use lqs.Store.Messages.{delete_messages, holds}
use lqs.Store.Manage.{is_tag_of}

abbrev pub is_cooling : ℕ → Option ℕ → Bool
is_cooling now none = false
is_cooling now (some time) = ltb (ms now) (saturating_add_i64 time 60000)

-- `UPDATE receive_attempts SET valid = 0 WHERE p`
unfoldable pub void_attempts : (Attempt → Bool) → List Attempt → List Attempt
void_attempts p = update p (λ a. record a { valid = false })

unfoldable pub purge_rows : Bytes → ℕ → Db → Db
purge_rows name now db =
    let db1 = delete_messages (in_queue name) db in
    record db1 {
      receive_attempts = void_attempts (λ a. bytes_eq a.queue_name name) db1.receive_attempts;
      queues = update (is_queue name) (λ q. record q { last_purge_ms = some (ms now) }) db1.queues;
    }

unfoldable pub purge_body : Db → Bytes → ℕ → Result (Db × Unit {0})
purge_body db name now = do
  config ← read_queue_config db name
  q ← or_fail (find_queue db name) (queue_not_found name)
  fail_if (is_cooling now q.last_purge_ms) purge_queue_in_progress
  ok (purge_rows name now db, tt)

unfoldable pub purge_queue : Db → Bytes → ℕ → Db × Result (Unit {0})
purge_queue db name now = transaction db (purge_body db name now)

abbrev pub concerns : Bytes → PolicyRow → Bool
concerns name r = bytes_eq r.source_queue name || bytes_eq r.policy.dead_letter_queue name

-- A policy of the queue `source` sends to `name`.
abbrev sends_to : Db → Bytes → QueueRow → Bool
sends_to db name q =
    any
      (λ (r : PolicyRow).
        bytes_eq r.source_queue q.name && bytes_eq r.policy.dead_letter_queue name)
      db.redrive_policies

-- An attempt that handed out a message which came from `name`.
unfoldable pub hands_out_from : Db → Bytes → Attempt → Bool
hands_out_from db name a =
    any
      (λ m.
        holds db.attempt_members a m.receipt_handle
        && any (λ o. o.sequence == m.sequence && bytes_eq o.source_queue name)
            db.dead_letter_origins)
      db.messages

-- The statements before `DELETE FROM queues`: incoming policies and origins are detached.
unfoldable pub detach : Bytes → ℕ → Db → Db
detach name now db = record db {
  queues = update (sends_to db name) (λ q. record q { modified_at_ms = ms now }) db.queues;
  redrive_policies = select (λ r. not (concerns name r)) db.redrive_policies;
  receive_attempts = void_attempts (hands_out_from db name) db.receive_attempts;
  dead_letter_origins = select (λ o. not (bytes_eq o.source_queue name)) db.dead_letter_origins;
}

-- `DELETE FROM queues WHERE name = …` with its ON DELETE CASCADE.
unfoldable pub drop_queue : Bytes → Db → Db
drop_queue name db =
    let db1 = delete_messages (in_queue name) db in
    record db1 {
      queues = select (λ q. not (is_queue name q)) db1.queues;
      securities = select (λ (r : SecurityRow). not (bytes_eq r.queue_name name)) db1.securities;
      deduplication_keys =
          select (λ (k : DeduplicationKey). not (bytes_eq k.queue_name name))
            db1.deduplication_keys;
      redrive_policies = select (λ r. not (bytes_eq r.source_queue name)) db1.redrive_policies;
      receive_attempts =
          select (λ (a : Attempt). not (bytes_eq a.queue_name name)) db1.receive_attempts;
      attempt_members =
          select (λ (k : AttemptMember). not (bytes_eq k.queue_name name)) db1.attempt_members;
      queue_tags = select (λ t. not (is_tag_of name t)) db1.queue_tags;
    }

unfoldable pub reserve_name : Bytes → ℕ → List DeletedQueue → List DeletedQueue
reserve_name name now rows =
    record { name = name; deleted_at_ms = ms now }
    ∷ select (λ (d : DeletedQueue). not (bytes_eq d.name name)) rows

unfoldable pub delete_queue_body : Db → Bytes → ℕ → Result (Db × Unit {0})
delete_queue_body db name now = do
  config ← read_queue_config db name
  let db1 = drop_queue name (detach name now db)
  ok (record db1 { deleted_queues = reserve_name name now db1.deleted_queues }, tt)

unfoldable pub delete_queue : Db → Bytes → ℕ → Db × Result (Unit {0})
delete_queue db name now = transaction db (delete_queue_body db name now)
