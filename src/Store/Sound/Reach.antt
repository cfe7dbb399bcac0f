-- ===== src/Store/Sound/Reach.antt =====
-- The store as a transition system: one step is one call on it, in any order.
use lqs.Prelude.{ℕ, Option, List, Bytes}
use lqs.Queue.Types.{QueueType, QueueOptions, QueueUpdate, SendRequest, RedrivePolicy}
use lqs.Queue.External.{External}
use lqs.Queue.Validate.{QueueTags}
use lqs.Store.Tables.{Db, empty_db}
use lqs.Store.Send.{send}
use lqs.Store.Visibility.{delete, change_visibility}
use lqs.Store.Redrive.{set_redrive_policy, redrive_dead_letters}
use lqs.Store.Receive.Page.{Request, receive_page}
use lqs.Store.Settings.{create_queue, set_queue_attributes, add_permission, remove_permission}
use lqs.Store.Manage.{tag_queue, untag_queue}
use lqs.Store.Remove.{purge_queue, delete_queue}
use lqs.Store.Sound.Rows.{IsSound}
use lqs.Store.Sound.Send.{
  send-IsSound, delete-IsSound, change_visibility-IsSound, redrive_dead_letters-IsSound,
}
use lqs.Store.Sound.Page.{receive_page-IsSound}
use lqs.Store.Sound.Manage.{
  set_redrive_policy-IsSound, create_queue-IsSound, set_queue_attributes-IsSound,
  purge_queue-IsSound, delete_queue-IsSound,
}
use lqs.Store.Sound.Labels.{
  tag_queue-IsSound, untag_queue-IsSound, add_permission-IsSound, remove_permission-IsSound,
}

-- The calls that can change the tables. A batch is a sequence of single calls.
pub data Call : Type 0 where
  create_queue_call : Bytes → QueueType → QueueOptions → QueueTags → Call
  set_attributes_call : Bytes → QueueUpdate → Call
  set_redrive_policy_call : Bytes → Option RedrivePolicy → Call
  send_call : Bytes → SendRequest → Call
  receive_call : Request → Call
  delete_call : Bytes → Bytes → Call
  change_visibility_call : Bytes → Bytes → ℕ → Call
  redrive_call : Bytes → Bytes → ℕ → Call
  tag_call : Bytes → QueueTags → Call
  untag_call : Bytes → List Bytes → Call
  add_permission_call : Bytes → Bytes → List Bytes → List Bytes → Call
  remove_permission_call : Bytes → Bytes → Call
  purge_call : Bytes → Call
  delete_queue_call : Bytes → Call

-- The tables after a call at the time `now`, whether it succeeds or fails.
unfoldable pub perform : External → ℕ → Db → Call → Db
perform ext now db (create_queue_call name kind options tags) =
    (create_queue ext db name kind options tags now).0
perform ext now db (set_attributes_call name change) =
    (set_queue_attributes ext db name change now).0
perform ext now db (set_redrive_policy_call name policy) = (set_redrive_policy db name policy now).0
perform ext now db (send_call name request) = (send ext db name request now).0
perform ext now db (receive_call request) = (receive_page ext db request).0
perform ext now db (delete_call name handle) = (delete db name handle).0
perform ext now db (change_visibility_call name handle timeout) =
    (change_visibility db name handle timeout now).0
perform ext now db (redrive_call dlq source maximum) =
    (redrive_dead_letters db dlq source maximum now).0
perform ext now db (tag_call name tags) = (tag_queue ext db name tags).0
perform ext now db (untag_call name keys) = (untag_queue ext db name keys).0
perform ext now db (add_permission_call name label accounts actions) =
    (add_permission ext db name label accounts actions now).0
perform ext now db (remove_permission_call name label) = (remove_permission ext db name label now).0
perform ext now db (purge_call name) = (purge_queue db name now).0
perform ext now db (delete_queue_call name) = (delete_queue db name now).0

-- The tables that a sequence of calls can lead to. The clock is free: it may stand still or go back.
pub data Reachable (ext : External) : Db → Type 0 where
  start : Reachable ext empty_db
  step :
      (db : Db)
      → (now : ℕ) → (call : Call) → Reachable ext db
      → Reachable ext (perform ext now db call)

perform-IsSound :
    (ext : External) (now : ℕ) (db : Db) (call : Call)
    → IsSound db
    → IsSound (perform ext now db call)
unfolding perform
perform-IsSound ext now db (create_queue_call name kind options tags) v =
    create_queue-IsSound ext db name kind options tags now v
perform-IsSound ext now db (set_attributes_call name change) v =
    set_queue_attributes-IsSound ext db name change now v
perform-IsSound ext now db (set_redrive_policy_call name policy) v =
    set_redrive_policy-IsSound db name policy now v
perform-IsSound ext now db (send_call name request) v = send-IsSound ext db name request now v
perform-IsSound ext now db (receive_call request) v = receive_page-IsSound ext db request v
perform-IsSound ext now db (delete_call name handle) v = delete-IsSound db name handle v
perform-IsSound ext now db (change_visibility_call name handle timeout) v =
    change_visibility-IsSound db name handle timeout now v
perform-IsSound ext now db (redrive_call dlq source maximum) v =
    redrive_dead_letters-IsSound db dlq source maximum now v
perform-IsSound ext now db (tag_call name tags) v = tag_queue-IsSound ext db v name tags
perform-IsSound ext now db (untag_call name keys) v = untag_queue-IsSound ext db v name keys
perform-IsSound ext now db (add_permission_call name label accounts actions) v =
    add_permission-IsSound ext db v name label accounts actions now
perform-IsSound ext now db (remove_permission_call name label) v =
    remove_permission-IsSound ext db v name label now
perform-IsSound ext now db (purge_call name) v = purge_queue-IsSound db name now v
perform-IsSound ext now db (delete_queue_call name) v = delete_queue-IsSound db name now v

-- Every store that calls can lead to, in any order and at any times, successful or not, is sound: the
-- messages stand in strictly ascending sequence, no sequence is above the last one given, every
-- message's queue exists, and every message's id has the form of an issued one.
pub Reachable-IsSound : (ext : External) (db : Db) → Reachable ext db → IsSound db
Reachable-IsSound ext db start = record { ascending = tt; rows = tt }
Reachable-IsSound ext db (step before now call r) =
    perform-IsSound ext now before call (Reachable-IsSound ext before r)
