-- ===== src/Store/Sound/Self/Reach.antt =====
-- src/sqlite_lqs.rs: the redrive policies of the stores that calls lead to.
use lqs.Prelude.{
  ℕ, false, ◌≡◌, ◌≢◌, subst, find, Bytes, bytes_eq, bytes_eq→≡, Option-cases, inl, inr,
}
use lqs.Prelude.Query.{All-In, find-some, find-In}
use lqs.Error.{out_of_fuel}
use lqs.Queue.External.{External}
use lqs.Store.Tables.{Db, PolicyRow}
use lqs.Store.Read.{read_redrive_policy}
use lqs.Store.Receive.Page.{Request, receive_page}
use lqs.Store.Laws.Ends.{Elsewhere}
use lqs.Store.Laws.Reply.{receive_page-ends}
use lqs.Store.Sound.Reach.{
  Call, create_queue_call, set_attributes_call, set_redrive_policy_call, send_call, receive_call,
  delete_call, change_visibility_call, redrive_call, tag_call, untag_call, add_permission_call,
  remove_permission_call, purge_call, delete_queue_call, perform, Reachable, start, step,
}
use lqs.Store.Sound.Self.{send-policies, delete-policies, change_visibility-policies}
use lqs.Store.Sound.Self.Work.{redrive_dead_letters-policies, receive_page-policies}
use lqs.Store.Sound.Self.Policies.{
  NamesAnother, NoSelf, same_policies, set_redrive_policy-NoSelf, create_queue-NoSelf,
  set_queue_attributes-NoSelf, delete_queue-NoSelf,
}
use lqs.Store.Sound.Self.Labels.{
  tag_queue-policies, untag_queue-policies, add_permission-policies, remove_permission-policies,
  purge_queue-policies,
}

perform-NoSelf :
    (ext : External) (now : ℕ) (db : Db) (call : Call)
    → NoSelf db
    → NoSelf (perform ext now db call)
unfolding perform
perform-NoSelf ext now db (create_queue_call name kind options tags) v =
    create_queue-NoSelf ext db name kind options tags now v
perform-NoSelf ext now db (set_attributes_call name change) v =
    set_queue_attributes-NoSelf ext db name change now v
perform-NoSelf ext now db (set_redrive_policy_call name policy) v =
    set_redrive_policy-NoSelf db name policy now v
perform-NoSelf ext now db (send_call name request) v =
    same_policies (send-policies ext db name request now) v
perform-NoSelf ext now db (receive_call request) v =
    same_policies (receive_page-policies ext db request) v
perform-NoSelf ext now db (delete_call name handle) v =
    same_policies (delete-policies db name handle) v
perform-NoSelf ext now db (change_visibility_call name handle timeout) v =
    same_policies (change_visibility-policies db name handle timeout now) v
perform-NoSelf ext now db (redrive_call dlq source maximum) v =
    same_policies (redrive_dead_letters-policies db dlq source maximum now) v
perform-NoSelf ext now db (tag_call name tags) v =
    same_policies (tag_queue-policies ext db name tags) v
perform-NoSelf ext now db (untag_call name keys) v =
    same_policies (untag_queue-policies ext db name keys) v
perform-NoSelf ext now db (add_permission_call name label accounts actions) v =
    same_policies (add_permission-policies ext db name label accounts actions now) v
perform-NoSelf ext now db (remove_permission_call name label) v =
    same_policies (remove_permission-policies ext db name label now) v
perform-NoSelf ext now db (purge_call name) v = same_policies (purge_queue-policies db name now) v
perform-NoSelf ext now db (delete_queue_call name) v = delete_queue-NoSelf db name now v

-- In every store that calls can lead to, in any order and at any times, successful or not, no redrive
-- policy names its own queue as the dead-letter queue.
pub Reachable-NoSelf : (ext : External) (db : Db) → Reachable ext db → NoSelf db
Reachable-NoSelf ext db start = tt
Reachable-NoSelf ext db (step before now call r) =
    perform-NoSelf ext now before call (Reachable-NoSelf ext before r)

read_redrive_policy-Elsewhere :
    (db : Db) (name : Bytes) → NoSelf db → Elsewhere name (read_redrive_policy db name)
unfolding read_redrive_policy
read_redrive_policy-Elsewhere db name v =
    let of_name = λ (r : PolicyRow). bytes_eq r.source_queue name in
    elim (Option-cases (find of_name db.redrive_policies)) [
      | inl e ↦ rw e tt
      | inr (r, e) ↦
          let same = bytes_eq→≡ r.source_queue name (find-some of_name db.redrive_policies e) in
          let away =
            All-In NamesAnother db.redrive_policies v (find-In of_name db.redrive_policies e) in
          rw e (subst (λ n. bytes_eq r.policy.dead_letter_queue n ≡ false) same away)
    ]

-- In every store that calls can lead to, `receive_page` on any queue comes to an answer, a page or an
-- error of the store, and never runs out of fuel.
pub receive_page-Reachable-ends :
    (ext : External) (db : Db) (r : Request)
    → Reachable ext db
    → (receive_page ext db r).1 ≢ out_of_fuel
receive_page-Reachable-ends ext db r k =
    receive_page-ends ext db r
      (read_redrive_policy-Elsewhere db r.queue_name (Reachable-NoSelf ext db k))
