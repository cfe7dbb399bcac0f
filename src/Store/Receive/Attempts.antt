-- ===== src/Store/Receive/Attempts.antt =====
-- src/fifo.rs: `replay_attempt` and `save_attempt`, the idempotent receive requests of FIFO queues.
use lqs.Prelude.{
  ℕ, ◌+◌, Bool, true, false, not, ◌&&◌, Option, none, some, List, [], ◌∷◌, ◌++◌, if◌then◌else◌, ltb,
  leb, any, select, find, count, update, Bytes, text, bytes_eq, option_eq,
}
use lqs.Prelude.Word.{saturating_add, saturating_add_i64}
use lqs.Prelude.Print.{decimal}
use lqs.Error.{
  Result, ok, ◌>>=◌, ◌>>◌, fail_if, or_database, over_limit, database, invalid_delivery_options,
}
use lqs.Queue.Types.{ReceivedMessage, ReceiveOptions}
use lqs.Queue.External.{External}
use lqs.Store.Tables.{Message, Attempt, AttemptMember, Db}
use lqs.Store.Read.{ms, in_queue, count_in_flight, read_queue_config}

unfoldable pub visibility_text : Option ℕ → Bytes
visibility_text none = text "None"
visibility_text (some v) = text "Some(" ++ (decimal v ++ text ")")

-- `format!("{maximum}:{:?}", self.visibility_timeout_ms)`
unfoldable pub fingerprint : ReceiveOptions → ℕ → Bytes
fingerprint options maximum =
    decimal maximum ++ (b':' ∷ visibility_text options.visibility_timeout_ms)

abbrev pub is_attempt : Bytes → Bytes → Attempt → Bool
is_attempt name id a = bytes_eq a.queue_name name && bytes_eq a.attempt_id id

abbrev pub is_member : Bytes → Bytes → AttemptMember → Bool
is_member name id k = bytes_eq k.queue_name name && bytes_eq k.attempt_id id

-- Five minutes after its creation.
abbrev is_stale : Bytes → ℕ → Attempt → Bool
is_stale name now a = bytes_eq a.queue_name name && leb (a.created_at_ms + 300000) now

-- `DELETE FROM receive_attempts …`; the members follow by ON DELETE CASCADE.
unfoldable pub forget_attempts : Db → Bytes → ℕ → Db
forget_attempts db name now = record db {
  receive_attempts = select (λ a. not (is_stale name now a)) db.receive_attempts;
  attempt_members =
      select
        (λ k. not (
          any (λ a. is_stale name now a && is_member a.queue_name a.attempt_id k)
            db.receive_attempts))
        db.attempt_members;
}

-- A message of the attempt that is visible again.
unfoldable pub is_extra : Db → Bytes → Bytes → ℕ → Message → Bool
is_extra db name id now m =
    in_queue name m
    && (elim m.invisible_until_ms [ none ↦ false | some t ↦ leb t now ])
    && any (λ k. is_member name id k && option_eq m.receipt_handle (some k.receipt_handle))
        db.attempt_members

unfoldable pub hide_again : Bytes → ℕ → List ReceivedMessage → List Message → List Message
hide_again name until [] messages = messages
hide_again name until (r ∷ rs) messages = hide_again name until rs (
    update (λ m. in_queue name m && option_eq m.receipt_handle (some r.receipt_handle))
      (λ m. record m { invisible_until_ms = some until }) messages)

-- `visibility > 0 && extra > 0 && in_flight + extra > max_in_flight`
unfoldable pub check_quota : Db → Bytes → ℕ → ℕ → ℕ → Result (Unit {0})
check_quota db name now visibility extra =
    if ltb 0 visibility && ltb 0 extra
    then (do
      config ← read_queue_config db name
      fail_if (ltb config.max_in_flight (saturating_add (count_in_flight db name now) extra))
          over_limit)
    else ok tt

abbrev pub Replay : Type 0
Replay = Db × Option (List ReceivedMessage)

unfoldable pub replay_found :
    External → Db → Bytes → Bytes → Bytes → ℕ → Option Attempt → Result Replay
replay_found ext db name id print now none = ok (db, none)
replay_found ext db name id print now (some a) = do
  fail_if (not a.valid) (
      invalid_delivery_options
        (text "ReceiveRequestAttemptId is no longer replayable because a message was modified"))
  fail_if (not (bytes_eq a.fingerprint print)) (
      invalid_delivery_options
        (text "ReceiveRequestAttemptId parameters differ from the original request"))
  messages ← or_database (ext.received_from_json a.response)
  let extra = count (is_extra db name id now) db.messages
  check_quota db name now a.visibility_ms extra
  ok (
    record db {
      messages = hide_again name (saturating_add_i64 now (ms a.visibility_ms)) messages db.messages;
    },
    some messages,
  )

abbrev pub replay_with :
    External → Db → Bytes → ReceiveOptions → ℕ → ℕ → Option Bytes → Result Replay
replay_with ext db name options maximum now none = ok (db, none)
replay_with ext db name options maximum now (some id) =
    replay_found ext db name id (fingerprint options maximum) now
      (find (is_attempt name id) db.receive_attempts)

unfoldable pub replay_attempt : External → Db → Bytes → ReceiveOptions → ℕ → ℕ → Result Replay
replay_attempt ext db name options maximum now =
    replay_with ext (forget_attempts db name now) name options maximum now
      options.receive_request_attempt_id

-- `INSERT INTO receive_attempt_members`, one for each message, with the primary key.
unfoldable pub add_members :
    Bytes → Bytes → List ReceivedMessage → List AttemptMember → Result (List AttemptMember)
add_members name id [] members = ok members
add_members name id (r ∷ rs) members = do
  fail_if (any (λ k. is_member name id k && bytes_eq k.receipt_handle r.receipt_handle) members)
      (database (text "UNIQUE constraint failed: receive_attempt_members"))
  add_members name id rs (
      members
      ++ record { queue_name = name; attempt_id = id; receipt_handle = r.receipt_handle } ∷ [])

abbrev pub save_with :
    External
    → Db
    → Bytes
    → ReceiveOptions
    → ℕ
    → ℕ
    → ℕ
    → List ReceivedMessage
    → Option Bytes
    → Result Db
save_with ext db name options maximum visibility now messages none = ok db
save_with ext db name options maximum visibility now messages (some id) = do
  response ← or_database (ext.received_to_json messages)
  fail_if (any (is_attempt name id) db.receive_attempts)
      (database (text "UNIQUE constraint failed: receive_attempts"))
  members ← add_members name id messages db.attempt_members
  ok (record db {
    receive_attempts =
        db.receive_attempts
        ++ record {
          queue_name = name;
          attempt_id = id;
          created_at_ms = now;
          fingerprint = fingerprint options maximum;
          visibility_ms = ms visibility;
          response = response;
          valid = true;
        }
          ∷ [];
    attempt_members = members;
  })

unfoldable pub save_attempt :
    External → Db → Bytes → ReceiveOptions → ℕ → ℕ → ℕ → List ReceivedMessage → Result Db
save_attempt ext db name options maximum visibility now messages =
    save_with ext db name options maximum visibility now messages options.receive_request_attempt_id
