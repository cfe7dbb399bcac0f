-- ===== src/Store/Sound/Manage.antt =====
-- The operations on queues keep the store sound: creation, new attributes, permissions, redrive
-- policies, tags, purging and deletion.
use lqs.Prelude.{
  ℕ, Bool, true, false, not, ◌&&◌, Option, none, some, List, [], ◌∷◌, ◌++◌, ◌≡◌, refl, subst, inl,
  inr, arith, any, select, update, Bytes, bytes_eq, bytes_eq→≡, Bool-cases, not-eq-true, ◌==◌,
}
use lqs.Prelude.Query.{All-imp, All-In, All-of, In-select, any-In, any-true, select-In}
use lqs.Error.{Result, ok, >>=-eq-ok, >>-eq-ok, or_fail}
use lqs.Queue.Types.{QueueType, QueueOptions, QueueUpdate, QueueConfig, RedrivePolicy, is_fifo}
use lqs.Queue.External.{External}
use lqs.Queue.Validate.{QueueTags, resolve_queue_update}
use lqs.Security.Settings.{QueueSecurity}
use lqs.Store.Tables.{QueueRow, Db}
use lqs.Store.Read.{ms, is_queue, in_queue, read_queue_config, find_queue}
use lqs.Store.Messages.{delete_messages}
use lqs.Store.Redrive.{write_redrive_policy, touch_queue, set_policy_body, set_redrive_policy}
use lqs.Store.Settings.{
  write_security, new_row, insert_queue, create_body, create_queue, with_update, write_policy_if,
  delay_again, update_body, set_queue_attributes,
}
use lqs.Store.Remove.{
  purge_rows, purge_body, purge_queue, detach, drop_queue, delete_queue_body, delete_queue,
}
use lqs.Store.Sound.Rows.{
  IsSound, RowOk, delete_messages-IsSound, update_rows-IsSound, expire_messages-IsSound,
}
use lqs.Store.Sound.Send.{transaction-keeps, same_rows-IsSound}

-- Other queues may come and change, as long as the names that messages use stay.
queues-IsSound :
    (db db' : Db)
    → db'.messages ≡ db.messages
    → db'.last_sequence ≡ db.last_sequence
    → ((name : Bytes)
        → any (is_queue name) db.queues ≡ true
        → any (is_queue name) db'.queues ≡ true)
    → IsSound db
    → IsSound db'
queues-IsSound db db' m l q v = record {
  ascending = rw m v.ascending;
  rows =
      rw (m, l)
        (All-imp (RowOk db.last_sequence db.queues) (RowOk db.last_sequence db'.queues) db.messages
          (λ x r. (r.0, q x.queue_name r.1, r.2)) v.rows);
}

any-append_left :
    (p : QueueRow → Bool) (qs rs : List QueueRow) → any p qs ≡ true → any p (qs ++ rs) ≡ true
unfolding any
any-append_left p [] rs h = cc
any-append_left p (q ∷ qs) rs h = ground (arith, any-append_left p qs rs)

any-update :
    (name : Bytes) (p : QueueRow → Bool) (f : QueueRow → QueueRow) (qs : List QueueRow)
    → ((q : QueueRow) → (f q).name ≡ q.name)
    → any (is_queue name) qs ≡ true
    → any (is_queue name) (update p f qs) ≡ true
unfolding any update
any-update name p f [] k h = cc
any-update name p f (q ∷ qs) k h = ground (arith, k q, any-update name p f qs k)

write_security-rows :
    (ext : External) (db : Db) (name : Bytes) (settings : QueueSecurity) (db' : Db)
    → write_security ext db name settings ≡ ok db'
    → (db'.queues ≡ db.queues)
      × (db'.messages ≡ db.messages)
      × (db'.last_sequence ≡ db.last_sequence)
unfolding write_security
write_security-rows ext db name settings db' h = ground arith

write_redrive_policy-rows :
    (db : Db) (name : Bytes) (policy : Option RedrivePolicy) (db' : Db)
    → write_redrive_policy db name policy ≡ ok db'
    → (db'.queues ≡ db.queues)
      × (db'.messages ≡ db.messages)
      × (db'.last_sequence ≡ db.last_sequence)
unfolding write_redrive_policy
write_redrive_policy-rows db name none db' h = ground arith
write_redrive_policy-rows db name (some policy) db' h = ground arith

pub touch_queue-IsSound :
    (db : Db) (name : Bytes) (now : ℕ) → IsSound db → IsSound (touch_queue name now db)
unfolding touch_queue
touch_queue-IsSound db name now v =
    queues-IsSound db _ refl refl (λ n h. any-update n (is_queue name) _ db.queues (λ r. refl) h) v

policy-IsSound :
    (db : Db) (name : Bytes) (policy : Option RedrivePolicy) (db' : Db)
    → write_redrive_policy db name policy ≡ ok db'
    → IsSound db
    → IsSound db'
policy-IsSound db name policy db' h v =
    let (q, m, l) = write_redrive_policy-rows db name policy db' h in
    same_rows-IsSound db db' q m l v

pub security-IsSound :
    (ext : External) (db : Db) (name : Bytes) (settings : QueueSecurity) (db' : Db)
    → write_security ext db name settings ≡ ok db'
    → IsSound db
    → IsSound db'
security-IsSound ext db name settings db' h v =
    let (q, m, l) = write_security-rows ext db name settings db' h in
    same_rows-IsSound db db' q m l v

pub ok_fst :
    {A : Type 0} (x y : Db) (a b : A) → ◌≡◌ {A = Result (Db × A)} (ok (x, a)) (ok (y, b)) → x ≡ y
ok_fst x y a b h = ground arith

-- Setting a redrive policy keeps the store sound.
pub set_redrive_policy-IsSound :
    (db : Db) (name : Bytes) (policy : Option RedrivePolicy) (now : ℕ)
    → IsSound db
    → IsSound (set_redrive_policy db name policy now).0
unfolding set_redrive_policy set_policy_body
set_redrive_policy-IsSound db name policy now v =
    transaction-keeps IsSound db (set_policy_body db name policy now) v λ db' a h.
      let (db1, e, h1) = >>=-eq-ok (write_redrive_policy db name policy) _ h in
      subst IsSound (ok_fst _ db' tt a h1)
        (touch_queue-IsSound db1 name now (policy-IsSound db name policy db1 e v))

insert_queue-IsSound :
    (ext : External) (db : Db) (name : Bytes) (kind : QueueType) (options : QueueOptions)
    (tags : QueueTags) (now : ℕ) (db' : Db)
    → insert_queue ext db name kind options tags now ≡ ok db'
    → IsSound db
    → IsSound db'
unfolding insert_queue
insert_queue-IsSound ext db name kind options tags now db' h v =
    let (fresh, h1) = >>-eq-ok _ _ h in
    let db1 = record db { queues = db.queues ++ new_row name kind options now ∷ [] } in
    let w1 : IsSound db1 =
      queues-IsSound db db1 refl refl (λ n k. any-append_left (is_queue n) db.queues _ k) v in
    let (db2, e, h2) = >>=-eq-ok (write_security ext db1 name options.security) _ h1 in
    let w2 = security-IsSound ext db1 name options.security db2 e w1 in
    policy-IsSound _ name options.redrive_policy db' h2 (same_rows-IsSound db2 _ refl refl refl w2)

-- Creating a queue keeps the store sound.
pub create_queue-IsSound :
    (ext : External) (db : Db) (name : Bytes) (kind : QueueType) (options : QueueOptions)
    (tags : QueueTags) (now : ℕ)
    → IsSound db
    → IsSound (create_queue ext db name kind options tags now).0
unfolding create_queue create_body
create_queue-IsSound ext db name kind options tags now v =
    transaction-keeps IsSound db (create_body ext db name kind options tags now) v λ db' a h.
      let (valid, h1) = >>-eq-ok _ _ h in
      let (free, h2) = >>-eq-ok _ _ h1 in
      let (db2, e, h3) = >>=-eq-ok (insert_queue ext _ name kind options tags now) _ h2 in
      subst IsSound (ok_fst _ db' tt a h3) (
        insert_queue-IsSound ext _ name kind options tags now db2 e
          (same_rows-IsSound db _ refl refl refl v))

delay_again-IsSound :
    (current : QueueConfig) (name : Bytes) (delay : ℕ) (db : Db)
    → IsSound db
    → IsSound (delay_again current name delay db)
unfolding delay_again
delay_again-IsSound current name delay db v =
    elim (Bool-cases (is_fifo current.queue_type && not (delay == current.delay_ms))) [
      | inl e ↦
          rw (e, delay_again) (update_rows-IsSound db v _ _ (λ m. refl) (λ m. refl) (λ m. refl))
      | inr e ↦ rw (e, delay_again) v
    ]

write_policy_if-IsSound :
    (db : Db) (name : Bytes) (policy : Option (Option RedrivePolicy)) (db' : Db)
    → write_policy_if db name policy ≡ ok db'
    → IsSound db
    → IsSound db'
write_policy_if-IsSound db name none db' h v =
    let same : db ≡ db' = ground arith in subst IsSound same v
write_policy_if-IsSound db name (some policy) db' h v = policy-IsSound db name policy db' h v

-- Changing a queue's attributes keeps the store sound.
pub set_queue_attributes-IsSound :
    (ext : External) (db : Db) (name : Bytes) (change : QueueUpdate) (now : ℕ)
    → IsSound db
    → IsSound (set_queue_attributes ext db name change now).0
unfolding set_queue_attributes update_body
set_queue_attributes-IsSound ext db name change now v =
    transaction-keeps IsSound db (update_body ext db name change now) v λ db' a h.
      let (current, c, h1) = >>=-eq-ok (read_queue_config db name) _ h in
      let (resolved, r, h2) = >>=-eq-ok (resolve_queue_update ext current change) _ h1 in
      let (db1, e, h3) = >>=-eq-ok (write_security ext db name resolved.security) _ h2 in
      let w1 = security-IsSound ext db name resolved.security db1 e v in
      let db2 = record db1 {
        queues = update (is_queue name) (with_update resolved now) db1.queues;
      } in
      let w2 : IsSound db2 =
        queues-IsSound db1 db2 refl refl
          (λ n k.
            any-update n (is_queue name) (with_update resolved now) db1.queues
              (λ q. unfold with_update in refl) k)
          w1 in
      let (db3, p, h4) = >>=-eq-ok (write_policy_if db2 name resolved.redrive_policy) _ h3 in
      subst IsSound (ok_fst _ db' tt a h4) (
        expire_messages-IsSound _
          (delay_again-IsSound current name resolved.delay db3
            (write_policy_if-IsSound db2 name resolved.redrive_policy db3 p w2))
          name (ms now))

purge_rows-IsSound :
    (name : Bytes) (now : ℕ) (db : Db) → IsSound db → IsSound (purge_rows name now db)
unfolding purge_rows
purge_rows-IsSound name now db v =
    queues-IsSound (delete_messages (in_queue name) db) _ refl refl
      (λ n h. any-update n (is_queue name) _ _ (λ r. refl) h)
      (delete_messages-IsSound db v (in_queue name))

-- Purging a queue keeps the store sound.
pub purge_queue-IsSound :
    (db : Db) (name : Bytes) (now : ℕ) → IsSound db → IsSound (purge_queue db name now).0
unfolding purge_queue purge_body
purge_queue-IsSound db name now v =
    transaction-keeps IsSound db (purge_body db name now) v λ db' a h.
      let (config, c, h1) = >>=-eq-ok (read_queue_config db name) _ h in
      let (q, f, h2) = >>=-eq-ok (or_fail (find_queue db name) _) _ h1 in
      let (cool, h3) = >>-eq-ok _ _ h2 in
      subst IsSound (ok_fst _ db' tt a h3) (purge_rows-IsSound name now db v)

detach-IsSound : (name : Bytes) (now : ℕ) (db : Db) → IsSound db → IsSound (detach name now db)
unfolding detach
detach-IsSound name now db v =
    queues-IsSound db _ refl refl (λ n h. any-update n _ _ db.queues (λ r. refl) h) v

other_queue_stays :
    (n name : Bytes) (qs : List QueueRow)
    → bytes_eq n name ≡ false
    → any (is_queue n) qs ≡ true
    → any (is_queue n) (select (λ q. not (is_queue name q)) qs) ≡ true
other_queue_stays n name qs differs h =
    let (q, i, t) = any-true (is_queue n) qs h in
    let same = bytes_eq→≡ q.name n t in
    any-In (is_queue n) _ (select-In (λ r. not (is_queue name r)) qs i (rw (same, differs))) t

-- The messages of a dropped queue go with it, and the others keep their queues.
drop_queue-IsSound : (name : Bytes) (db : Db) → IsSound db → IsSound (drop_queue name db)
unfolding drop_queue delete_messages
drop_queue-IsSound name db v =
    let w = delete_messages-IsSound db v (in_queue name) in
    record {
      ascending = unfold delete_messages in w.ascending;
      rows = All-of (RowOk _ _) (select (λ m. not (in_queue name m)) db.messages) (λ m i.
          let (j, t) = In-select (λ m. not (in_queue name m)) db.messages i in
          let r = All-In (RowOk db.last_sequence db.queues) db.messages v.rows j in
          (r.0, other_queue_stays m.queue_name name db.queues (not-eq-true _ t) r.1, r.2));
    }

-- Deleting a queue keeps the store sound: no message is left without its queue.
pub delete_queue-IsSound :
    (db : Db) (name : Bytes) (now : ℕ) → IsSound db → IsSound (delete_queue db name now).0
unfolding delete_queue delete_queue_body
delete_queue-IsSound db name now v =
    transaction-keeps IsSound db (delete_queue_body db name now) v λ db' a h.
      let (config, c, h1) = >>=-eq-ok (read_queue_config db name) _ h in
      subst IsSound (ok_fst _ db' tt a h1) (
        same_rows-IsSound (drop_queue name (detach name now db)) _ refl refl refl
          (drop_queue-IsSound name _ (detach-IsSound name now db v)))
