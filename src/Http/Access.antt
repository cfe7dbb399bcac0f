-- ===== src/Http/Access.antt =====
-- src/security_http.rs: whether the store may be used for a request.
use lqs.Prelude.{not, ◌&&◌, Option, none, some, List, [], ◌∷◌, if◌then◌else◌, Bytes, text, bytes_eq}
use lqs.Security.Names.{RequestIdentity}
use lqs.Queue.External.{External}
use lqs.Store.Tables.{Db}
use lqs.Store.Read.{queue_exists}
use lqs.Store.Settings.{authorize_queue}
use lqs.Http.Reply.{Reply, done, ◌>>=◌, from_lqs}
use lqs.Http.Wire.{Headers, WireRequest, required_string}
use lqs.Http.Names.{queue_name}
use lqs.Http.Maps.{is_one_of}
use lqs.Http.Identity.{AuthorizationHook}

pub record AccessContext : Type 0 where
  pub identity : RequestIdentity
  pub action : Bytes
  pub queue : Option Bytes

unfoldable pub queue_actions : List Bytes
queue_actions =
    text "SendMessage"
    ∷ text "ReceiveMessage"
    ∷ text "DeleteMessage"
    ∷ text "ChangeMessageVisibility"
    ∷ text "SendMessageBatch"
    ∷ text "DeleteMessageBatch"
    ∷ text "ChangeMessageVisibilityBatch"
    ∷ text "GetQueueAttributes"
    ∷ text "SetQueueAttributes"
    ∷ text "ListDeadLetterSourceQueues"
    ∷ text "DeleteQueue"
    ∷ text "PurgeQueue"
    ∷ text "TagQueue"
    ∷ text "UntagQueue"
    ∷ text "ListQueueTags"
    ∷ text "AddPermission"
    ∷ text "RemovePermission"
    ∷ []

abbrev found {ℓ} : {A : Type ℓ} → Reply A → Reply (Option A)
found r = r >>= λ a. done (some a)

-- The queue that the policy check is about.
unfoldable pub access_queue : Bytes → WireRequest → Reply (Option Bytes)
access_queue path r =
    if is_one_of (text "CreateQueue" ∷ text "GetQueueUrl" ∷ []) r.action
    then found (required_string r (text "QueueName"))
    else if is_one_of queue_actions r.action
    then found (queue_name path r)
    else done none

unfoldable pub access_context :
    AuthorizationHook → Bytes → WireRequest → Headers → Bytes → Bytes → Reply AccessContext
access_context hook path r headers uri body = do
  queue ← access_queue path r
  identity ← from_lqs (
      hook (record {
        action = r.action;
        queue_name = queue;
        headers = headers;
        method = text "POST";
        uri = uri;
        body = body;
      }))
  done (record { identity = identity; action = r.action; queue = queue })

unfoldable pub authorize_name : External → Db → AccessContext → Bytes → Reply (Unit {0})
authorize_name ext db access name =
    if bytes_eq access.action (text "CreateQueue") && not (queue_exists db name)
    then done tt
    else from_lqs (authorize_queue ext db name access.identity access.action)

-- `authorize`, which runs under the lock before each use of the store
unfoldable pub authorize : External → Db → AccessContext → Reply (Unit {0})
authorize ext db access = elim access.queue [
  | none ↦ done tt
  | some name ↦ authorize_name ext db access name
]
