-- ===== src/Http/Actions.antt =====
-- src/http_server.rs: the handlers of the actions on queues and single messages.
use lqs.Prelude.{
  ℕ, Bool, true, false, not, Option, none, some, List, [], ◌++◌, map, select, take, if◌then◌else◌,
  in_range, ltb, length, is_empty, Bytes, text, bytes_lt,
}
use lqs.Prelude.Word.{saturating_mul}
use lqs.Prelude.Parse.{strip_prefix}
use lqs.Error.{LqsError, queue_already_exists, Result, ok, err, out_of_fuel}
use lqs.Security.Settings.{unwrap_or}
use lqs.Queue.Types.{QueueConfig, SendResult, is_fifo}
use lqs.Store.Read.{read_queue_config}
use lqs.Store.Send.{send}
use lqs.Store.Visibility.{delete, change_visibility}
use lqs.Store.Redrive.{list_dead_letter_source_queues}
use lqs.Store.Settings.{create_queue, set_queue_attributes}
use lqs.Store.Manage.{queue_metrics, last_name}
use lqs.Http.Reply.{
  api_error, missing, invalid_parameter, Reply, stuck, or_refuse, refuse_if, map_lqs_error,
  traverse,
}
use lqs.Http.Wire.{WireRequest, string_of, required_string, unsigned}
use lqs.Http.Names.{queue_name}
use lqs.Http.Maps.{attributes_of, validate_attribute_names}
use lqs.Http.Settings.{NewQueue, parse_create_queue, delivery_attributes}
use lqs.Http.Answer.{
  ApiSuccess, queue_created, message_sent, message_deleted, visibility_changed, attributes_set,
  attributes_read, sources_listed, sequence_number, queue_url,
}
use lqs.Http.Configuration.{
  same_queue_configuration, requested_attribute_names, queue_attributes, select_queue_attributes,
}
use lqs.Http.Requests.{parse_send_request}
use lqs.Http.Handler.{
  Context, Handler, ◌>>=◌, ◌>>◌, reply, finish, read, look, attempt, call, lock_lqs,
}

abbrev is_same : NewQueue → LqsError → Result QueueConfig → Bool
is_same new (queue_already_exists name) (ok existing) =
    same_queue_configuration existing new.queue_type new.options
is_same new _ _ = false

-- A queue that exists already with the same configuration counts as created.
unfoldable pub settle : NewQueue → Result (Unit {0}) → Handler (Unit {0})
settle new (ok _) = finish tt
settle new out_of_fuel = reply stuck
settle new (err e) = do
  same ← look (λ db. is_same new e (read_queue_config db new.name))
  reply (refuse_if (not same) (map_lqs_error e))

unfoldable pub create_queue_action : Context → WireRequest → Handler ApiSuccess
create_queue_action ctx r = do
  new ← reply (parse_create_queue ctx.web r)
  lock_lqs ctx
  outcome ←
      attempt (λ db.
        create_queue ctx.web.external db new.name new.queue_type new.options new.tags ctx.now)
  settle new outcome
  finish (queue_created (queue_url ctx.public_base_url new.name))

unfoldable pub set_queue_attributes_action : Context → Bytes → WireRequest → Handler ApiSuccess
set_queue_attributes_action ctx path r = do
  name ← reply (queue_name path r)
  attributes ← reply (attributes_of r)
  reply (validate_attribute_names attributes false)
  reply (
      refuse_if (is_empty attributes)
        (api_error 400 (text "InvalidAttributeName") (text "unsupported queue attribute")))
  change ← reply (delivery_attributes ctx.web attributes)
  lock_lqs ctx
  call (λ db. set_queue_attributes ctx.web.external db name change ctx.now)
  finish attributes_set

unfoldable pub get_queue_attributes_action : Context → Bytes → WireRequest → Handler ApiSuccess
get_queue_attributes_action ctx path r = do
  name ← reply (queue_name path r)
  lock_lqs ctx
  config ← read (λ db. read_queue_config db name)
  metrics ← read (λ db. queue_metrics db name ctx.now)
  names ← reply (requested_attribute_names r)
  selected ←
      reply (select_queue_attributes (queue_attributes ctx.web.external name config metrics) names)
  finish (attributes_read selected)

-- The name that a page of sources starts after, from its token.
unfoldable pub source_cursor : Bytes → Bytes → Reply Bytes
source_cursor prefix token =
    or_refuse
      (elim (strip_prefix prefix token) [
        | none ↦ none
        | some v ↦ if is_empty v then none else some v
      ])
      (invalid_parameter (text "NextToken") (text "invalid token for this DLQ"))

abbrev sources_after : Option Bytes → List Bytes → List Bytes
sources_after none sources = sources
sources_after (some cursor) sources = select (λ source. bytes_lt cursor source) sources

-- A token is given only to a request that says how many it wants.
abbrev next_source_token : Option ℕ → Bytes → List Bytes → Option Bytes
next_source_token none prefix sources = none
next_source_token (some n) prefix sources = some (prefix ++ last_name [] sources)

-- One page of the sources that follow the cursor, and the token of the next page.
unfoldable pub source_page : Option ℕ → Bytes → List Bytes → List Bytes × Option Bytes
source_page requested_max prefix sources =
    let maximum = unwrap_or requested_max 1000 in
    if ltb maximum (length sources)
    then (take maximum sources, next_source_token requested_max prefix (take maximum sources))
    else (sources, none)

unfoldable pub list_sources_action : Context → Bytes → WireRequest → Handler ApiSuccess
list_sources_action ctx path r = do
  name ← reply (queue_name path r)
  requested_max ← reply (unsigned ctx.web r (text "MaxResults"))
  reply (
      refuse_if (not (in_range 1 1000 (unwrap_or requested_max 1000)))
        (invalid_parameter (text "MaxResults") (text "must be between 1 and 1000")))
  let prefix = text "lqs-dlq:" ++ (name ++ text ":")
  cursor ← reply (traverse (source_cursor prefix) (string_of r (text "NextToken")))
  lock_lqs ctx
  sources ← read (λ db. list_dead_letter_source_queues db name)
  let page = source_page requested_max prefix (sources_after cursor sources)
  finish (sources_listed (map (queue_url ctx.public_base_url) page.0) page.1)

abbrev pub sequence_if : Bool → SendResult → Option Bytes
sequence_if true result = some (sequence_number result.message_id)
sequence_if false result = none

unfoldable pub send_message_action : Context → Bytes → WireRequest → Handler ApiSuccess
send_message_action ctx path r = do
  name ← reply (queue_name path r)
  request ← reply (parse_send_request ctx.web r)
  lock_lqs ctx
  config ← read (λ db. read_queue_config db name)
  result ← call (λ db. send ctx.web.external db name request ctx.now)
  finish (message_sent result request.body (sequence_if (is_fifo config.queue_type) result))

unfoldable pub delete_message_action : Context → Bytes → WireRequest → Handler ApiSuccess
delete_message_action ctx path r = do
  name ← reply (queue_name path r)
  handle ← reply (required_string r (text "ReceiptHandle"))
  lock_lqs ctx
  call (λ db. delete db name handle)
  finish message_deleted

-- `VisibilityTimeout` of a request, at most 43,200 seconds
unfoldable pub visibility_seconds : Context → WireRequest → Handler ℕ
visibility_seconds ctx r = do
  given ← reply (unsigned ctx.web r (text "VisibilityTimeout"))
  seconds ← reply (or_refuse given (missing (text "VisibilityTimeout")))
  reply (
      refuse_if (ltb 43200 seconds)
        (invalid_parameter (text "VisibilityTimeout") (text "must be between 0 and 43200")))
  finish seconds

unfoldable pub change_visibility_action : Context → Bytes → WireRequest → Handler ApiSuccess
change_visibility_action ctx path r = do
  name ← reply (queue_name path r)
  handle ← reply (required_string r (text "ReceiptHandle"))
  seconds ← visibility_seconds ctx r
  lock_lqs ctx
  call (λ db. change_visibility db name handle (saturating_mul seconds 1000) ctx.now)
  finish visibility_changed
