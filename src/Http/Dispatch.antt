-- ===== src/Http/Dispatch.antt =====
-- src/http_server.rs: `dispatch`, from the name of an action to its handler.
use lqs.Prelude.{List, [], ◌∷◌, ◌++◌, if◌then◌else◌, Bytes, text, bytes_eq}
use lqs.Http.Reply.{api_error, refused}
use lqs.Http.Wire.{WireRequest}
use lqs.Http.Maps.{is_one_of}
use lqs.Http.Answer.{ApiSuccess}
use lqs.Http.Handler.{Context, Handler, reply}
use lqs.Http.Actions.{
  create_queue_action, set_queue_attributes_action, get_queue_attributes_action,
  list_sources_action, send_message_action, delete_message_action, change_visibility_action,
}
use lqs.Http.Management.{
  list_queues_action, get_queue_url_action, destroy_action, tag_queue_action, untag_queue_action,
  list_queue_tags_action, permission_action,
}
use lqs.Http.BatchActions.{batch_action}

abbrev pub batch_actions : List Bytes
batch_actions =
    text "SendMessageBatch" ∷ text "DeleteMessageBatch" ∷ text "ChangeMessageVisibilityBatch" ∷ []

-- management_http::execute
unfoldable pub execute : Context → Bytes → WireRequest → Handler ApiSuccess
execute ctx path r =
    if bytes_eq r.action (text "ListQueues")
    then list_queues_action ctx r
    else if bytes_eq r.action (text "GetQueueUrl")
    then get_queue_url_action ctx r
    else if is_one_of (text "DeleteQueue" ∷ text "PurgeQueue" ∷ []) r.action
    then destroy_action ctx path r
    else if bytes_eq r.action (text "TagQueue")
    then tag_queue_action ctx path r
    else if bytes_eq r.action (text "UntagQueue")
    then untag_queue_action ctx path r
    else list_queue_tags_action ctx path r

abbrev pub management_actions : List Bytes
management_actions =
    text "ListQueues"
    ∷ text "GetQueueUrl"
    ∷ text "DeleteQueue"
    ∷ text "PurgeQueue"
    ∷ text "TagQueue"
    ∷ text "UntagQueue"
    ∷ text "ListQueueTags"
    ∷ []

-- The actions of src/http_server.rs itself, and the refusal of every other.
unfoldable pub dispatch_own : Context → Bytes → WireRequest → Handler ApiSuccess
dispatch_own ctx path r =
    if bytes_eq r.action (text "CreateQueue")
    then create_queue_action ctx r
    else if bytes_eq r.action (text "SendMessage")
    then send_message_action ctx path r
    else if bytes_eq r.action (text "DeleteMessage")
    then delete_message_action ctx path r
    else if bytes_eq r.action (text "ChangeMessageVisibility")
    then change_visibility_action ctx path r
    else if bytes_eq r.action (text "SetQueueAttributes")
    then set_queue_attributes_action ctx path r
    else if bytes_eq r.action (text "GetQueueAttributes")
    then get_queue_attributes_action ctx path r
    else if bytes_eq r.action (text "ListDeadLetterSourceQueues")
    then list_sources_action ctx path r
    else reply
        (refused (api_error 400 (text "InvalidAction") (text "Unsupported action: " ++ r.action)))

unfoldable pub dispatch : Context → Bytes → WireRequest → Handler ApiSuccess
dispatch ctx path r =
    if is_one_of (text "AddPermission" ∷ text "RemovePermission" ∷ []) r.action
    then permission_action ctx path r
    else if is_one_of management_actions r.action
    then execute ctx path r
    else if is_one_of batch_actions r.action
    then batch_action ctx path r
    else dispatch_own ctx path r
