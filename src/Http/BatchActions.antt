-- ===== src/Http/BatchActions.antt =====
-- src/batch_http.rs: the handler of the batch actions, and the loop of `run_batch` in src/batch.rs at
-- the front end's errors.
use lqs.Prelude.{◌*◌, Bool, some, List, [], ◌∷◌, ◌++◌, map, if◌then◌else◌, Bytes, text, bytes_eq}
use lqs.Queue.Types.{SendResult, is_fifo}
use lqs.Queue.External.{External}
use lqs.Store.Read.{read_queue_config}
use lqs.Store.Send.{send}
use lqs.Store.Visibility.{delete, change_visibility}
use lqs.Batch.{BatchEntry, validate_batch_size, check_batch}
use lqs.Http.Reply.{Reply, done, refused, stuck, from_lqs}
use lqs.Http.Wire.{WireRequest, required_string}
use lqs.Http.Names.{queue_name}
use lqs.Http.Requests.{parse_send_request}
use lqs.Http.Entries.{entries, entry_size}
use lqs.Http.Answer.{JsonMap, put_text, ApiBatchResult, ApiSuccess, batch}
use lqs.Http.Handler.{Context, Handler, ◌>>=◌, ◌>>◌, reply, finish, read, call, lock_lqs}
use lqs.Http.Actions.{sequence_if, visibility_seconds}

abbrev pub kept {ℓ} : {A : Type ℓ} → Reply A → Reply (Reply A)
kept stuck = stuck
kept (done a) = done (done a)
kept (refused e) = done (refused e)

-- A handler whose refusal is a value.
unfoldable pub caught {ℓ} : {A : Type ℓ} → Handler A → Handler (Reply A)
caught h db = let (db', r) = h db in (db', kept r)

unfoldable pub record_outcome : Bytes → Reply JsonMap → ApiBatchResult → ApiBatchResult
record_outcome id (done v) result = record result {
  successful = result.successful ++ record { id = id; value = v } ∷ [];
}
record_outcome id (refused e) result = record result {
  failed = result.failed ++ record { id = id; value = e } ∷ [];
}
record_outcome id stuck result = result

-- The entries in input order; a refusal of one is its own.
unfoldable pub run_requests :
    (WireRequest → Handler JsonMap)
    → ApiBatchResult
    → List (BatchEntry WireRequest)
    → Handler ApiBatchResult
run_requests op result [] = finish result
run_requests op result (e ∷ es) = do
  outcome ← caught (op e.value)
  run_requests op (record_outcome e.id outcome result) es

unfoldable pub sent_json : External → Bytes → Bool → SendResult → JsonMap
sent_json ext body is_fifo_queue sent =
    put_text (text "SequenceNumber") (sequence_if is_fifo_queue sent) (
      put_text (text "MD5OfMessageAttributes") sent.md5_of_message_attributes (
        put_text (text "MessageId") (some sent.message_id)
          (put_text (text "MD5OfMessageBody") (some (ext.md5_hex body)) [])))

unfoldable pub send_entry : Context → Bytes → WireRequest → Handler JsonMap
send_entry ctx name entry = do
  request ← reply (parse_send_request ctx.web entry)
  config ← read (λ db. read_queue_config db name)
  sent ← call (λ db. send ctx.web.external db name request ctx.now)
  finish (sent_json ctx.web.external request.body (is_fifo config.queue_type) sent)

unfoldable pub delete_entry : Context → Bytes → WireRequest → Handler JsonMap
delete_entry ctx name entry = do
  handle ← reply (required_string entry (text "ReceiptHandle"))
  call (λ db. delete db name handle)
  finish []

unfoldable pub change_entry : Context → Bytes → WireRequest → Handler JsonMap
change_entry ctx name entry = do
  handle ← reply (required_string entry (text "ReceiptHandle"))
  seconds ← visibility_seconds ctx entry
  call (λ db. change_visibility db name handle (seconds * 1000) ctx.now)
  finish []

unfoldable pub batch_entry : Context → Bytes → Bytes → WireRequest → Handler JsonMap
batch_entry ctx action name entry =
    if bytes_eq action (text "SendMessageBatch")
    then send_entry ctx name entry
    else if bytes_eq action (text "DeleteMessageBatch")
    then delete_entry ctx name entry
    else change_entry ctx name entry

abbrev pub batch_action_name : Bytes → Bytes
batch_action_name action =
    if bytes_eq action (text "SendMessageBatch")
    then text "SendMessageBatch"
    else if bytes_eq action (text "DeleteMessageBatch")
    then text "DeleteMessageBatch"
    else text "ChangeMessageVisibilityBatch"

unfoldable pub check_sizes : Context → Bytes → List (BatchEntry WireRequest) → Reply (Unit {0})
check_sizes ctx action given =
    if bytes_eq action (text "SendMessageBatch")
    then from_lqs (validate_batch_size (map (entry_size ctx.web) given))
    else done tt

-- `execute`. The lock is held from before the check to after the last entry.
unfoldable pub batch_action : Context → Bytes → WireRequest → Handler ApiSuccess
batch_action ctx path r = do
  name ← reply (queue_name path r)
  given ← reply (entries r)
  let action = batch_action_name r.action
  reply (check_sizes ctx action given)
  lock_lqs ctx
  read (λ db. check_batch db name (map (λ e. e.id) given))
  result ←
      run_requests (batch_entry ctx action name) (record { successful = []; failed = [] }) given
  finish (batch action result)
