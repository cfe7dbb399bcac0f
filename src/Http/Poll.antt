-- ===== src/Http/Poll.antt =====
-- src/http_server.rs: `receive_message` and `poll_receive`, the long poll. A request that waits takes
-- the lock anew on each pass, and other requests and connections change the tables in between.
use lqs.Prelude.{
  ℕ, ◌+◌, Bool, true, false, Option, none, some, List, [], ◌∷◌, map, if◌then◌else◌, ltb, leb, Bytes,
}
use lqs.Error.{over_limit, Result, ok, err, out_of_fuel}
use lqs.Security.Settings.{unwrap_or}
use lqs.Store.Tables.{Db}
use lqs.Store.Read.{read_queue_config}
use lqs.Store.Receive.Page.{Page, Request, receive_page}
use lqs.Http.Reply.{Reply, done, refused, stuck, map_lqs_error}
use lqs.Http.Wire.{WireRequest}
use lqs.Http.Requests.{ParsedReceiveRequest, parse_receive_request, Selection, apply}
use lqs.Http.Answer.{ApiSuccess, messages_received}
use lqs.Http.Handler.{Context, Handler, ◌>>=◌, ◌>>◌, reply, finish, read, attempt, lock_lqs}

-- The clocks that one pass reads, and what the others did to the tables before it.
pub record Pass : Type 0 where
  -- `unix_time_ms()`
  pub clock : ℕ
  -- the instants of the loop, in milliseconds of the monotonic clock, in their order
  pub checked_at : ℕ
  pub refused_at : ℕ
  pub ended_at : ℕ
  pub others : Db → Db

unfoldable pub request_of_pass : ParsedReceiveRequest → ℕ → Pass → Request
request_of_pass parsed deadline p = record {
  queue_name = parsed.queue_name;
  max_messages = parsed.max_messages;
  options = parsed.options;
  now_ms = p.clock;
  cache_empty = leb deadline p.checked_at;
}

abbrev pub empty_at : Bool → Option ApiSuccess
empty_at true = some (messages_received [])
empty_at false = none

-- A quota that is used up makes a request with a wait go on until its deadline.
abbrev pub over_limit_after : ℕ → ℕ → Pass → Reply (Option ApiSuccess)
over_limit_after wait_ms deadline p =
    if ltb 0 wait_ms
    then done (empty_at (leb deadline p.refused_at))
    else refused (map_lqs_error over_limit)

-- What one pass makes of its page: an answer, or `none` to go on.
unfoldable pub after_pass : Selection → ℕ → ℕ → Pass → Result Page → Reply (Option ApiSuccess)
after_pass selection wait_ms deadline p (ok (messages, true)) =
    done (some (messages_received (map (apply selection) messages)))
after_pass selection wait_ms deadline p (ok (messages, false)) = done none
after_pass selection wait_ms deadline p (err over_limit) = over_limit_after wait_ms deadline p
after_pass selection wait_ms deadline p (err e) = refused (map_lqs_error e)
after_pass selection wait_ms deadline p out_of_fuel = stuck

unfoldable pub receive_pass :
    Context → ParsedReceiveRequest → ℕ → ℕ → Pass → Handler (Option ApiSuccess)
receive_pass ctx parsed wait_ms deadline p = do
  lock_lqs ctx
  outcome ← attempt (λ db. receive_page ctx.web.external db (request_of_pass parsed deadline p))
  reply (after_pass parsed.selection wait_ms deadline p outcome)

-- What follows a pass: the loop goes on, or ends with its answer.
abbrev pub go_on :
    Db × Reply (Option ApiSuccess) → Db × Option (Reply ApiSuccess) → Db × Option (Reply ApiSuccess)
go_on (db, done none) rest = rest
go_on (db, done (some answer)) rest = (db, some (done answer))
go_on (db, refused e) rest = (db, some (refused e))
go_on (db, stuck) rest = (db, some stuck)

-- The loop over the passes that take place; `none` while the request still waits.
unfoldable pub poll_receive :
    Context → ParsedReceiveRequest → ℕ → ℕ → List Pass → Db → Db × Option (Reply ApiSuccess)
poll_receive ctx parsed wait_ms deadline [] db = (db, none)
poll_receive ctx parsed wait_ms deadline (p ∷ ps) db =
    let pass = receive_pass ctx parsed wait_ms deadline p (p.others db) in
    go_on pass (poll_receive ctx parsed wait_ms deadline ps pass.0)

-- The queue's own wait is read under the lock even when the request says how long it waits.
unfoldable pub start_receive : Context → Bytes → WireRequest → Handler (ParsedReceiveRequest × ℕ)
start_receive ctx path r = do
  parsed ← reply (parse_receive_request ctx.web path r)
  lock_lqs ctx
  config ← read (λ db. read_queue_config db parsed.queue_name)
  finish (parsed, unwrap_or parsed.requested_wait_ms config.receive_wait_time_ms)

abbrev pub poll_from :
    Context → ℕ → List Pass → Db × Reply (ParsedReceiveRequest × ℕ) → Db × Option (Reply ApiSuccess)
poll_from ctx start passes (db, done (parsed, wait_ms)) =
    poll_receive ctx parsed wait_ms (start + wait_ms) passes db
poll_from ctx start passes (db, refused e) = (db, some (refused e))
poll_from ctx start passes (db, stuck) = (db, some stuck)

unfoldable pub receive_message :
    Context → Bytes → WireRequest → ℕ → List Pass → Db → Db × Option (Reply ApiSuccess)
receive_message ctx path r start passes db =
    poll_from ctx start passes (start_receive ctx path r db)
