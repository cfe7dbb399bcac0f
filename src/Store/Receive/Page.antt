-- ===== src/Store/Receive/Page.antt =====
-- src/sqlite_lqs.rs: `receive_page`, `receive_with_options` and `receive`.
use lqs.Prelude.{
  ℕ, ◌-◌, Bool, true, false, not, ◌&&◌, ◌||◌, Option, none, some, List, if◌then◌else◌, leb,
  in_range, is_empty, min, Bytes,
}
use lqs.Error.{Result, ok, err, out_of_fuel, ◌>>=◌, ◌>>◌, invalid_receive_options, over_limit}
use lqs.Security.Settings.{unwrap_or}
use lqs.Queue.Types.{is_fifo, QueueConfig, ReceivedMessage, ReceiveOptions}
use lqs.Queue.External.{External}
use lqs.Queue.Validate.{validate_options}
use lqs.Store.Tables.{Db}
use lqs.Store.Read.{ms, transaction, count_in_flight, read_queue_config}
use lqs.Store.Messages.{expire_messages}
use lqs.Store.Receive.Collect.{collect_received}
use lqs.Store.Receive.Attempts.{replay_attempt, save_attempt}

-- The messages, and whether the request is complete.
abbrev pub Page : Type 0
Page = List ReceivedMessage × Bool

-- One call of `receive_page`.
pub record Request : Type 0 where
  pub queue_name : Bytes
  pub max_messages : ℕ
  pub options : ReceiveOptions
  pub now_ms : ℕ
  pub cache_empty : Bool

abbrev pub visibility_of : Request → QueueConfig → ℕ
visibility_of r config = unwrap_or r.options.visibility_timeout_ms config.visibility_timeout_ms

abbrev pub save_if : Bool → External → Db → Request → ℕ → List ReceivedMessage → Result Db
save_if true ext db r visibility received =
    save_attempt ext db r.queue_name r.options r.max_messages visibility (ms r.now_ms) received
save_if false ext db r visibility received = ok db

-- A fresh page. The quota error is committed, not rolled back: hence the inner result.
unfoldable pub fresh_page : External → Db → Request → QueueConfig → Result (Db × Result Page)
fresh_page ext db r config =
    let now = ms r.now_ms in
    let in_flight = count_in_flight db r.queue_name now in
    if leb config.max_in_flight in_flight && not (is_fifo config.queue_type)
    then ok (db, err over_limit)
    else (do
      let limit = min r.max_messages (config.max_in_flight - in_flight)
      (db1, received) ←
          collect_received ext db r.queue_name config.queue_type limit (visibility_of r config) now
      let complete = not (is_empty received) || r.cache_empty
      db2 ← save_if complete ext db1 r (visibility_of r config) received
      ok (db2, ok (received, complete)))

unfoldable pub page_or_fresh :
    External
    → Request
    → QueueConfig
    → Db × Option (List ReceivedMessage)
    → Result (Db × Result Page)
page_or_fresh ext r config (db, some messages) = ok (db, ok (messages, true))
page_or_fresh ext r config (db, none) = fresh_page ext db r config

unfoldable pub receive_body : External → Db → Request → Result (Db × Result Page)
receive_body ext db r = do
  config ← read_queue_config db r.queue_name
  validate_options r.options config.queue_type
  let db1 = expire_messages db r.queue_name (ms r.now_ms)
  replay ← replay_attempt ext db1 r.queue_name r.options r.max_messages (ms r.now_ms)
  page_or_fresh ext r config replay

abbrev pub flatten {ℓ} : {A : Type ℓ} → Db × Result (Result A) → Db × Result A
flatten (db, ok r) = (db, r)
flatten (db, err e) = (db, err e)
flatten (db, out_of_fuel) = (db, out_of_fuel)

unfoldable pub receive_page : External → Db → Request → Db × Result Page
receive_page ext db r =
    if in_range 1 10 r.max_messages
    then flatten (transaction db (receive_body ext db r))
    else (db, err invalid_receive_options)

abbrev messages_of : Db × Result Page → Db × Result (List ReceivedMessage)
messages_of (db, ok (messages, _)) = (db, ok messages)
messages_of (db, err e) = (db, err e)
messages_of (db, out_of_fuel) = (db, out_of_fuel)

unfoldable pub receive_with_options :
    External → Db → Bytes → ℕ → ReceiveOptions → ℕ → Db × Result (List ReceivedMessage)
receive_with_options ext db name max_messages options now = messages_of (
    receive_page ext db (record {
      queue_name = name;
      max_messages = max_messages;
      options = options;
      now_ms = now;
      cache_empty = true;
    }))

unfoldable pub receive : External → Db → Bytes → ℕ → ℕ → Db × Result (List ReceivedMessage)
receive ext db name max_messages now =
    receive_with_options ext db name max_messages
      (record { receive_request_attempt_id = none; visibility_timeout_ms = none }) now
