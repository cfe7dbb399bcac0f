-- ===== src/Store/Sound/Self/Policies.antt =====
-- src/sqlite_lqs.rs and src/management.rs: the calls that set and drop redrive policies.
use lqs.Prelude.{
  ℕ, false, not, ◌||◌, ◌≡◌, sym, subst, ◌∙◌, Option, none, some, List, [], ◌∷◌, All, arith,
  in_range, select, update, Bytes, bytes_eq, Bool-cases, inl, inr,
}
use lqs.Prelude.Query.{All-select}
use lqs.Error.{ok, >>=-eq-ok, >>-eq-ok, fail_if, fail_if-eq-ok}
use lqs.Queue.Types.{QueueType, QueueOptions, QueueUpdate, QueueConfig, RedrivePolicy}
use lqs.Queue.External.{External}
use lqs.Queue.Validate.{QueueTags, resolve_queue_update}
use lqs.Security.Settings.{QueueSecurity}
use lqs.Store.Tables.{PolicyRow, Db}
use lqs.Store.Read.{ms, queue_type, read_queue_config, is_queue}
use lqs.Store.Messages.{delete_messages}
use lqs.Store.Redrive.{
  put_policy, write_redrive_policy, touch_queue, set_policy_body, set_redrive_policy,
}
use lqs.Store.Settings.{
  write_security, insert_queue, create_body, create_queue, with_update, write_policy_if,
  delay_again, update_body, set_queue_attributes,
}
use lqs.Store.Remove.{concerns, detach, drop_queue, delete_queue_body, delete_queue}
use lqs.Store.Sound.Send.{transaction-keeps}
use lqs.Store.Sound.Manage.{ok_fst}
use lqs.Store.Sound.Self.{expire_messages-policies}

-- The dead-letter queue of a policy is not its source queue.
abbrev pub NamesAnother : PolicyRow → Type 0
NamesAnother r = bytes_eq r.policy.dead_letter_queue r.source_queue ≡ false

abbrev pub NoSelf : Db → Type 0
NoSelf db = All NamesAnother db.redrive_policies

pub same_policies : {ps qs : List PolicyRow} → qs ≡ ps → All NamesAnother ps → All NamesAnother qs
same_policies e v = subst (All NamesAnother) (sym e) v

put_policy-NamesAnother :
    (name : Bytes) (policy : RedrivePolicy) (rows : List PolicyRow)
    → bytes_eq policy.dead_letter_queue name ≡ false
    → All NamesAnother rows
    → All NamesAnother (put_policy name policy rows)
unfolding put_policy
put_policy-NamesAnother name policy [] h v = (h, tt)
put_policy-NamesAnother name policy (r ∷ rs) h v =
    elim (Bool-cases (bytes_eq r.source_queue name)) [
      | inl e ↦ rw (e, put_policy) (h, v.1)
      | inr e ↦ rw (e, put_policy) (v.0, put_policy-NamesAnother name policy rs h v.1)
    ]

write_redrive_policy-NoSelf :
    (db : Db) (name : Bytes) (policy : Option RedrivePolicy) (db' : Db)
    → write_redrive_policy db name policy ≡ ok db'
    → NoSelf db
    → NoSelf db'
unfolding write_redrive_policy
write_redrive_policy-NoSelf db name none db' h v =
    let (kind, k, h1) = >>=-eq-ok (queue_type db name) _ h in
    let kept = λ (r : PolicyRow). not (bytes_eq r.source_queue name) in
    let same : db'.redrive_policies ≡ select kept db.redrive_policies = ground arith in
    same_policies same (All-select NamesAnother kept db.redrive_policies v)
write_redrive_policy-NoSelf db name (some policy) db' h v =
    let (kind, k, h1) = >>=-eq-ok (queue_type db name) _ h in
    let wrong =
      not (in_range 1 1000 policy.max_receive_count) || bytes_eq policy.dead_letter_queue name in
    let (fits, h2) = >>-eq-ok (fail_if wrong _) _ h1 in
    let valid = fail_if-eq-ok wrong _ fits in
    let away : bytes_eq policy.dead_letter_queue name ≡ false = ground arith in
    let same : db'.redrive_policies ≡ put_policy name policy db.redrive_policies = ground arith in
    same_policies same (put_policy-NamesAnother name policy db.redrive_policies away v)

pub write_security-policies :
    (ext : External) (db : Db) (name : Bytes) (settings : QueueSecurity) (db' : Db)
    → write_security ext db name settings ≡ ok db'
    → db'.redrive_policies ≡ db.redrive_policies
unfolding write_security
write_security-policies ext db name settings db' h = ground arith

-- Setting a redrive policy names another queue.
pub set_redrive_policy-NoSelf :
    (db : Db) (name : Bytes) (policy : Option RedrivePolicy) (now : ℕ)
    → NoSelf db
    → NoSelf (set_redrive_policy db name policy now).0
unfolding set_redrive_policy set_policy_body touch_queue
set_redrive_policy-NoSelf db name policy now v =
    transaction-keeps NoSelf db (set_policy_body db name policy now) v λ db' a h.
      let (db1, e, h1) = >>=-eq-ok (write_redrive_policy db name policy) _ h in
      subst NoSelf (ok_fst _ db' tt a h1) (write_redrive_policy-NoSelf db name policy db1 e v)

insert_queue-NoSelf :
    (ext : External) (db : Db) (name : Bytes) (kind : QueueType) (options : QueueOptions)
    (tags : QueueTags) (now : ℕ) (db' : Db)
    → insert_queue ext db name kind options tags now ≡ ok db'
    → NoSelf db
    → NoSelf db'
unfolding insert_queue
insert_queue-NoSelf ext db name kind options tags now db' h v =
    let (fresh, h1) = >>-eq-ok _ _ h in
    let (db2, e, h2) = >>=-eq-ok (write_security ext _ name options.security) _ h1 in
    write_redrive_policy-NoSelf _ name options.redrive_policy db' h2
      (same_policies (write_security-policies ext _ name options.security db2 e) v)

-- A created queue is not its own dead-letter queue.
pub create_queue-NoSelf :
    (ext : External) (db : Db) (name : Bytes) (kind : QueueType) (options : QueueOptions)
    (tags : QueueTags) (now : ℕ)
    → NoSelf db
    → NoSelf (create_queue ext db name kind options tags now).0
unfolding create_queue create_body
create_queue-NoSelf ext db name kind options tags now v =
    transaction-keeps NoSelf db (create_body ext db name kind options tags now) v λ db' a h.
      let (valid, h1) = >>-eq-ok _ _ h in
      let (free, h2) = >>-eq-ok _ _ h1 in
      let (db2, e, h3) = >>=-eq-ok (insert_queue ext _ name kind options tags now) _ h2 in
      subst NoSelf (ok_fst _ db' tt a h3)
        (insert_queue-NoSelf ext _ name kind options tags now db2 e v)

write_policy_if-NoSelf :
    (db : Db) (name : Bytes) (policy : Option (Option RedrivePolicy)) (db' : Db)
    → write_policy_if db name policy ≡ ok db'
    → NoSelf db
    → NoSelf db'
write_policy_if-NoSelf db name none db' h v =
    let same : db ≡ db' = ground arith in subst NoSelf same v
write_policy_if-NoSelf db name (some policy) db' h v =
    write_redrive_policy-NoSelf db name policy db' h v

delay_again-policies :
    (current : QueueConfig) (name : Bytes) (delay : ℕ) (db : Db)
    → (delay_again current name delay db).redrive_policies ≡ db.redrive_policies
unfolding delay_again
delay_again-policies current name delay db = ground arith

-- New attributes do not make a queue its own dead-letter queue.
pub set_queue_attributes-NoSelf :
    (ext : External) (db : Db) (name : Bytes) (change : QueueUpdate) (now : ℕ)
    → NoSelf db
    → NoSelf (set_queue_attributes ext db name change now).0
unfolding set_queue_attributes update_body
set_queue_attributes-NoSelf ext db name change now v =
    transaction-keeps NoSelf db (update_body ext db name change now) v λ db' a h.
      let (current, c, h1) = >>=-eq-ok (read_queue_config db name) _ h in
      let (resolved, r, h2) = >>=-eq-ok (resolve_queue_update ext current change) _ h1 in
      let (db1, e, h3) = >>=-eq-ok (write_security ext db name resolved.security) _ h2 in
      let w1 = same_policies (write_security-policies ext db name resolved.security db1 e) v in
      let db2 = record db1 {
        queues = update (is_queue name) (with_update resolved now) db1.queues;
      } in
      let (db3, p, h4) = >>=-eq-ok (write_policy_if db2 name resolved.redrive_policy) _ h3 in
      let w3 = write_policy_if-NoSelf db2 name resolved.redrive_policy db3 p w1 in
      let delayed = delay_again current name resolved.delay db3 in
      subst NoSelf (ok_fst _ db' tt a h4) (
        same_policies
          (expire_messages-policies delayed name (ms now)
            ∙ delay_again-policies current name resolved.delay db3)
          w3)

-- Deleting a queue leaves no policy that names its own queue.
pub delete_queue-NoSelf :
    (db : Db) (name : Bytes) (now : ℕ) → NoSelf db → NoSelf (delete_queue db name now).0
unfolding delete_queue delete_queue_body detach drop_queue delete_messages
delete_queue-NoSelf db name now v =
    transaction-keeps NoSelf db (delete_queue_body db name now) v λ db' a h.
      let (config, c, h1) = >>=-eq-ok (read_queue_config db name) _ h in
      let rest = select (λ r. not (concerns name r)) db.redrive_policies in
      subst NoSelf (ok_fst _ db' tt a h1) (
        All-select NamesAnother (λ r. not (bytes_eq r.source_queue name)) rest
          (All-select NamesAnother (λ r. not (concerns name r)) db.redrive_policies v))
