-- ===== src/Store/Redrive.antt =====
-- src/sqlite_lqs.rs: redrive policies, and `redrive_dead_letters`.
use lqs.Prelude.{
  ℕ, zero, suc, ◌+◌, Bool, true, not, ◌&&◌, ◌||◌, Option, none, some, List, [], ◌∷◌, ◌++◌, map,
  if◌then◌else◌, in_range, leb, ◌==◌, any, select, find, update, Bytes, text, bytes_eq, bytes_lt,
}
use lqs.Error.{
  Result, ok, err, out_of_fuel, ◌>>=◌, ◌>>◌, fail_if, invalid_redrive_policy, queue_not_found,
}
use lqs.Queue.Types.{QueueType, is_fifo, same_type, RedrivePolicy}
use lqs.Store.Tables.{Message, PolicyRow, Db}
use lqs.Store.Read.{ms, transaction, is_queue, in_queue, queue_type, read_redrive_policy}
use lqs.Store.Messages.{expire_messages, move_message}
use lqs.Store.Receive.Next.{is_visible, sql_eq}
use lqs.Prelude.{ltb}

-- `.map_err(|error| match error { … })`
unfoldable pub dlq_error : {A : Type 0} → Result A → Result A
dlq_error (ok a) = ok a
dlq_error out_of_fuel = out_of_fuel
dlq_error (err (queue_not_found name)) =
    err (invalid_redrive_policy (text "DLQ does not exist: " ++ name))
dlq_error (err e) = err e

-- `INSERT … ON CONFLICT(source_queue) DO UPDATE`
unfoldable pub put_policy : Bytes → RedrivePolicy → List PolicyRow → List PolicyRow
put_policy source policy [] = record { source_queue = source; policy = policy } ∷ []
put_policy source policy (r ∷ rs) =
    if bytes_eq r.source_queue source
    then record { source_queue = source; policy = policy } ∷ rs
    else r ∷ put_policy source policy rs

unfoldable pub write_redrive_policy : Db → Bytes → Option RedrivePolicy → Result Db
write_redrive_policy db source none = do
  source_type ← queue_type db source
  ok (record db {
    redrive_policies = select (λ r. not (bytes_eq r.source_queue source)) db.redrive_policies;
  })
write_redrive_policy db source (some policy) = do
  source_type ← queue_type db source
  fail_if
      (not (in_range 1 1000 policy.max_receive_count) || bytes_eq policy.dead_letter_queue source)
      (invalid_redrive_policy
        (text "maxReceiveCount must be 1-1000 and the DLQ must differ from the source"))
  target_type ← dlq_error (queue_type db policy.dead_letter_queue)
  fail_if (not (same_type target_type source_type))
      (invalid_redrive_policy (text "source and DLQ queue types must match"))
  ok (record db { redrive_policies = put_policy source policy db.redrive_policies })

-- `UPDATE queues SET modified_at_ms = … WHERE name = …`
unfoldable pub touch_queue : Bytes → ℕ → Db → Db
touch_queue name now db = record db {
  queues = update (is_queue name) (λ q. record q { modified_at_ms = ms now }) db.queues;
}

-- The clock is read at the call: `now` is what it says.
unfoldable pub set_policy_body : Db → Bytes → Option RedrivePolicy → ℕ → Result (Db × Unit {0})
set_policy_body db name policy now = do
  db1 ← write_redrive_policy db name policy
  ok (touch_queue name now db1, tt)

unfoldable pub set_redrive_policy : Db → Bytes → Option RedrivePolicy → ℕ → Db × Result (Unit {0})
set_redrive_policy db name policy now = transaction db (set_policy_body db name policy now)

-- `Lqs::redrive_policy`
unfoldable pub redrive_policy : Db → Bytes → Result (Option RedrivePolicy)
redrive_policy db name = do kind ← queue_type db name; ok (read_redrive_policy db name)

-- `ORDER BY` a text column.
unfoldable pub insert_sorted : Bytes → List Bytes → List Bytes
insert_sorted x [] = x ∷ []
insert_sorted x (y ∷ ys) = if bytes_lt y x then y ∷ insert_sorted x ys else x ∷ y ∷ ys

unfoldable pub sort_names : List Bytes → List Bytes
sort_names [] = []
sort_names (x ∷ xs) = insert_sorted x (sort_names xs)

unfoldable pub list_dead_letter_source_queues : Db → Bytes → Result (List Bytes)
list_dead_letter_source_queues db name = do
  kind ← queue_type db name
  ok (
      sort_names (
        map (λ (r : PolicyRow). r.source_queue)
          (select (λ r. bytes_eq r.policy.dead_letter_queue name) db.redrive_policies)))

abbrev stands_before : Message → Message → Bool
stands_before m earlier =
    bytes_eq earlier.queue_name m.queue_name
    && sql_eq earlier.group_id m.group_id
    && ltb earlier.sequence m.sequence

-- A dead letter of `source` that is available, and on a FIFO queue the first of its group.
unfoldable pub is_movable : Db → Bytes → Bytes → QueueType → ℕ → Message → Bool
is_movable db dlq source kind now m =
    in_queue dlq m
    && any (λ o. o.sequence == m.sequence && bytes_eq o.source_queue source) db.dead_letter_origins
    && is_visible m.invisible_until_ms now
    && leb m.available_at_ms now
    && (not (is_fifo kind) || not (any (stands_before m) db.messages))

-- The loop: at most `left` more messages are moved.
unfoldable pub redrive_loop : Bytes → Bytes → QueueType → ℕ → ℕ → Db → ℕ → Result (Db × ℕ)
redrive_loop dlq source kind now zero db moved = ok (db, moved)
redrive_loop dlq source kind now (suc left) db moved =
    elim (find (is_movable db dlq source kind now) db.messages) [
      | none ↦ ok (db, moved)
      | some m ↦ do
        step ← move_message db m.sequence source now true true
        redrive_loop dlq source kind now left step.0 (moved + 1)
    ]

unfoldable pub redrive_body : Db → Bytes → Bytes → ℕ → ℕ → Result (Db × ℕ)
redrive_body db dlq source max_messages now = do
  target_type ← queue_type db source
  dlq_type ← queue_type db dlq
  fail_if (not (same_type dlq_type target_type) || bytes_eq dlq source)
      (invalid_redrive_policy (text "source and DLQ must be distinct queues of the same type"))
  let db1 = expire_messages db dlq (ms now)
  let db2 = expire_messages db1 source (ms now)
  redrive_loop dlq source target_type (ms now) max_messages db2 0

unfoldable pub redrive_dead_letters : Db → Bytes → Bytes → ℕ → ℕ → Db × Result ℕ
redrive_dead_letters db dlq source max_messages now =
    transaction db (redrive_body db dlq source max_messages now)
