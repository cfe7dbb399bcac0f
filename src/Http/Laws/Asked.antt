-- ===== src/Http/Laws/Asked.antt =====
-- What a request asks for: the call on the store that its action, its queue and its parameters name.
use lqs.Prelude.{◌*◌, ℕ, Bool, true, ◌≡◌, List, Bytes, text, bytes_eq}
use lqs.Prelude.Word.{saturating_mul}
use lqs.Queue.Types.{QueueUpdate, SendRequest}
use lqs.Queue.Validate.{QueueTags}
use lqs.Store.Sound.Reach.{
  Call, create_queue_call, set_attributes_call, send_call, delete_call, change_visibility_call,
  tag_call, untag_call, add_permission_call, remove_permission_call, purge_call, delete_queue_call,
}
use lqs.Http.Reply.{done}
use lqs.Http.Wire.{WireRequest, required_string}
use lqs.Http.Names.{Attributes, queue_name}
use lqs.Http.Maps.{attributes_of, parse_tags}
use lqs.Http.Settings.{NewQueue, parse_create_queue, delivery_attributes}
use lqs.Http.Lists.{permission_list, tag_keys, destructive_queue}
use lqs.Http.Requests.{parse_send_request}
use lqs.Http.Handler.{Context}

-- The action of the request.
abbrev pub is_action : WireRequest → Bytes → Bool
is_action r name = bytes_eq r.action name

pub data Asked (ctx : Context) (path : Bytes) (r : WireRequest) : Call → Type 0 where
  create_asked :
      (new : NewQueue)
      → is_action r (text "CreateQueue") ≡ true
      → parse_create_queue ctx.web r ≡ done new
      → Asked ctx path r (create_queue_call new.name new.queue_type new.options new.tags)
  set_asked :
      (name : Bytes) (attributes : Attributes) (change : QueueUpdate)
      → is_action r (text "SetQueueAttributes") ≡ true
      → queue_name path r ≡ done name
      → attributes_of r ≡ done attributes
      → delivery_attributes ctx.web attributes ≡ done change
      → Asked ctx path r (set_attributes_call name change)
  send_asked :
      (name : Bytes) (request : SendRequest)
      → is_action r (text "SendMessage") ≡ true
      → queue_name path r ≡ done name
      → parse_send_request ctx.web r ≡ done request
      → Asked ctx path r (send_call name request)
  delete_asked :
      (name handle : Bytes)
      → is_action r (text "DeleteMessage") ≡ true
      → queue_name path r ≡ done name
      → required_string r (text "ReceiptHandle") ≡ done handle
      → Asked ctx path r (delete_call name handle)
  change_asked :
      (name handle : Bytes) (seconds : ℕ)
      → is_action r (text "ChangeMessageVisibility") ≡ true
      → queue_name path r ≡ done name
      → required_string r (text "ReceiptHandle") ≡ done handle
      → Asked ctx path r (change_visibility_call name handle (saturating_mul seconds 1000))
  tag_asked :
      (name : Bytes) (tags : QueueTags)
      → is_action r (text "TagQueue") ≡ true
      → queue_name path r ≡ done name
      → parse_tags r ≡ done tags
      → Asked ctx path r (tag_call name tags)
  untag_asked :
      (name : Bytes) (keys : List Bytes)
      → is_action r (text "UntagQueue") ≡ true
      → queue_name path r ≡ done name
      → tag_keys r ≡ done keys
      → Asked ctx path r (untag_call name keys)
  add_permission_asked :
      (name label : Bytes) (accounts actions : List Bytes)
      → is_action r (text "AddPermission") ≡ true
      → queue_name path r ≡ done name
      → required_string r (text "Label") ≡ done label
      → permission_list r (text "AWSAccountIds") (text "AWSAccountId") ≡ done accounts
      → permission_list r (text "Actions") (text "ActionName") ≡ done actions
      → Asked ctx path r (add_permission_call name label accounts actions)
  remove_permission_asked :
      (name label : Bytes)
      → is_action r (text "RemovePermission") ≡ true
      → queue_name path r ≡ done name
      → required_string r (text "Label") ≡ done label
      → Asked ctx path r (remove_permission_call name label)
  purge_asked :
      (name : Bytes)
      → is_action r (text "PurgeQueue") ≡ true
      → destructive_queue ctx.public_base_url path r ≡ done name
      → Asked ctx path r (purge_call name)
  delete_queue_asked :
      (name : Bytes)
      → is_action r (text "DeleteQueue") ≡ true
      → destructive_queue ctx.public_base_url path r ≡ done name
      → Asked ctx path r (delete_queue_call name)

-- What an entry of a batch on the queue `name` asks for.
pub data EntryAsked (ctx : Context) (action name : Bytes) (entry : WireRequest)
    : Call → Type 0 where
  send_entry_asked :
      (request : SendRequest)
      → bytes_eq action (text "SendMessageBatch") ≡ true
      → parse_send_request ctx.web entry ≡ done request
      → EntryAsked ctx action name entry (send_call name request)
  delete_entry_asked :
      (handle : Bytes)
      → bytes_eq action (text "DeleteMessageBatch") ≡ true
      → required_string entry (text "ReceiptHandle") ≡ done handle
      → EntryAsked ctx action name entry (delete_call name handle)
  change_entry_asked :
      (handle : Bytes) (seconds : ℕ)
      → bytes_eq action (text "ChangeMessageVisibilityBatch") ≡ true
      → required_string entry (text "ReceiptHandle") ≡ done handle
      → EntryAsked ctx action name entry (change_visibility_call name handle (seconds * 1000))
