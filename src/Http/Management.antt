-- ===== src/Http/Management.antt =====
-- src/management_http.rs, and `permission` of src/security_http.rs: the handlers that manage queues.
use lqs.Prelude.{
  ℕ, Bool, true, false, not, Option, none, some, [], ◌∷◌, ◌++◌, map, if◌then◌else◌, in_range, Bytes,
  text, bytes_eq,
}
use lqs.Error.{queue_not_found}
use lqs.Security.Settings.{unwrap_or}
use lqs.Store.Read.{queue_exists}
use lqs.Store.Settings.{add_permission, remove_permission}
use lqs.Store.Manage.{QueuePage, list_queues, list_queue_tags, tag_queue, untag_queue}
use lqs.Store.Remove.{purge_queue, delete_queue}
use lqs.Http.Reply.{invalid_parameter, refuse_if, map_lqs_error}
use lqs.Http.Wire.{WireRequest, required_string, optional_string, unsigned}
use lqs.Http.Names.{queue_name, validate_queue_name}
use lqs.Http.Maps.{parse_tags}
use lqs.Http.Lists.{permission_list, tag_keys, destructive_queue}
use lqs.Http.Answer.{
  ApiSuccess, management, json_texts, json_of, json_text_map, put_text, queue_url,
}
use lqs.Http.Xml.{element, concat_map}
use lqs.Http.Handler.{Context, Handler, ◌>>=◌, ◌>>◌, reply, finish, read, look, call, lock_lqs}

-- An answer with no content.
abbrev plain : Bytes → Handler ApiSuccess
plain action = finish (management action [] [])

abbrev exceeds_page : Option ℕ → Bool
exceeds_page none = false
exceeds_page (some n) = not (in_range 1 1000 n)

abbrev cursor_xml : Option Bytes → Bytes
cursor_xml none = []
cursor_xml (some cursor) = element (text "NextToken") cursor

unfoldable pub queues_answer : Bytes → QueuePage → ApiSuccess
queues_answer public_base_url page =
    let urls = map (queue_url public_base_url) page.queue_names in
    management (text "ListQueues")
      (put_text (text "NextToken") page.next_cursor ((text "QueueUrls", json_texts urls) ∷ []))
      (concat_map (element (text "QueueUrl")) urls ++ cursor_xml page.next_cursor)

unfoldable pub list_queues_action : Context → WireRequest → Handler ApiSuccess
list_queues_action ctx r = do
  prefix ← reply (optional_string r (text "QueueNamePrefix"))
  maximum ← reply (unsigned ctx.web r (text "MaxResults"))
  reply (
      refuse_if (exceeds_page maximum)
        (invalid_parameter (text "MaxResults") (text "must be 1-1000")))
  lock_lqs ctx
  token ← reply (optional_string r (text "NextToken"))
  page ← read (λ db. list_queues ctx.web.external db (unwrap_or prefix []) maximum token)
  finish (queues_answer ctx.public_base_url page)

abbrev pub is_foreign : Option Bytes → Bool
is_foreign none = false
is_foreign (some owner) = not (bytes_eq owner (text "000000000000"))

unfoldable pub absent_here : Context → Bytes → Handler Bool
absent_here ctx name = do
  lock_lqs ctx
  exists ← look (λ db. queue_exists db name)
  finish (not exists)

-- The store is read only for a queue of this account.
unfoldable pub is_missing : Context → Option Bytes → Bytes → Handler Bool
is_missing ctx owner name = if is_foreign owner then finish true else absent_here ctx name

unfoldable pub get_queue_url_action : Context → WireRequest → Handler ApiSuccess
get_queue_url_action ctx r = do
  name ← reply (required_string r (text "QueueName"))
  reply (validate_queue_name name)
  owner ← reply (optional_string r (text "QueueOwnerAWSAccountId"))
  absent ← is_missing ctx owner name
  reply (refuse_if absent (map_lqs_error (queue_not_found name)))
  let url = queue_url ctx.public_base_url name
  finish (
      management (text "GetQueueUrl") (put_text (text "QueueUrl") (some url) [])
        (element (text "QueueUrl") url))

unfoldable pub destroy : Context → WireRequest → Bytes → Handler ApiSuccess
destroy ctx r name =
    if bytes_eq r.action (text "DeleteQueue")
    then call (λ db. delete_queue db name ctx.now) >> plain (text "DeleteQueue")
    else call (λ db. purge_queue db name ctx.now) >> plain (text "PurgeQueue")

unfoldable pub destroy_action : Context → Bytes → WireRequest → Handler ApiSuccess
destroy_action ctx path r = do
  name ← reply (destructive_queue ctx.public_base_url path r)
  lock_lqs ctx
  destroy ctx r name

unfoldable pub tag_queue_action : Context → Bytes → WireRequest → Handler ApiSuccess
tag_queue_action ctx path r = do
  tags ← reply (parse_tags r)
  lock_lqs ctx
  name ← reply (queue_name path r)
  call (λ db. tag_queue ctx.web.external db name tags)
  plain (text "TagQueue")

unfoldable pub untag_queue_action : Context → Bytes → WireRequest → Handler ApiSuccess
untag_queue_action ctx path r = do
  lock_lqs ctx
  name ← reply (queue_name path r)
  keys ← reply (tag_keys r)
  call (λ db. untag_queue ctx.web.external db name keys)
  plain (text "UntagQueue")

abbrev tag_xml : Bytes × Bytes → Bytes
tag_xml (key, v) =
    text "<Tag>" ++ (element (text "Key") key ++ (element (text "Value") v ++ text "</Tag>"))

unfoldable pub list_queue_tags_action : Context → Bytes → WireRequest → Handler ApiSuccess
list_queue_tags_action ctx path r = do
  lock_lqs ctx
  name ← reply (queue_name path r)
  tags ← read (λ db. list_queue_tags db name)
  finish (
      management (text "ListQueueTags") ((text "Tags", json_of (json_text_map tags)) ∷ [])
        (concat_map tag_xml tags))

unfoldable pub add_permission_action : Context → WireRequest → Bytes → Bytes → Handler ApiSuccess
add_permission_action ctx r name label = do
  accounts ← reply (permission_list r (text "AWSAccountIds") (text "AWSAccountId"))
  actions ← reply (permission_list r (text "Actions") (text "ActionName"))
  lock_lqs ctx
  call (λ db. add_permission ctx.web.external db name label accounts actions ctx.now)
  plain (text "AddPermission")

unfoldable pub remove_permission_action : Context → Bytes → Bytes → Handler ApiSuccess
remove_permission_action ctx name label = do
  lock_lqs ctx
  call (λ db. remove_permission ctx.web.external db name label ctx.now)
  plain (text "RemovePermission")

abbrev pub permit : Context → WireRequest → Bytes → Bytes → Handler ApiSuccess
permit ctx r name label =
    if bytes_eq r.action (text "AddPermission")
    then add_permission_action ctx r name label
    else remove_permission_action ctx name label

-- `permission`
unfoldable pub permission_action : Context → Bytes → WireRequest → Handler ApiSuccess
permission_action ctx path r = do
  name ← reply (queue_name path r)
  label ← reply (required_string r (text "Label"))
  permit ctx r name label
