-- ===== src/Store/Laws/Handles.antt =====
-- src/sqlite_lqs.rs `delete` and `change_visibility`: what a receipt handle is good for.
use lqs.Prelude.{
  Bool, false, not, ◌&&◌, List, [], ◌∷◌, ◌≡◌, refl, ◌∙◌, inl, inr, arith, if◌then◌else◌, ◌==◌,
  Bool-cases, count, select, Bytes,
}
use lqs.Prelude.Query.{count-select}
use lqs.Error.{ok, err, invalid_receipt_handle}
use lqs.Queue.Types.{QueueConfig}
use lqs.Store.Tables.{Message, Db}
use lqs.Store.Read.{read_queue_config, read_security, find_queue, read_redrive_policy}
use lqs.Store.Messages.{delete_messages}
use lqs.Store.Visibility.{has_receipt, delete}

count-never : {A : Type 0} (p : A → Bool) (xs : List A) → ((x : A) → p x ≡ false) → count p xs ≡ 0
unfolding count
count-never p [] h = refl
count-never p (x ∷ xs) h = ground (arith, h x, count-never p xs h)

select-all :
    {A : Type 0} (p : A → Bool) (xs : List A) → count p xs ≡ 0 → select (λ x. not (p x)) xs ≡ xs
unfolding count select
select-all p [] h = refl
select-all p (x ∷ xs) h = elim (Bool-cases (p x)) [
  | inl e ↦ absurd (ground (arith, e, h))
  | inr e ↦ rw (e, select-all p xs (rw e at h)) refl
]

no_receipt_left :
    (db : Db) (name handle : Bytes)
    → count (has_receipt name handle) (delete_messages (has_receipt name handle) db).messages ≡ 0
unfolding delete_messages
no_receipt_left db name handle =
    let p = has_receipt name handle in
    let e = count-select p (λ m. not (p m)) db.messages in
    let z =
      count-never (λ m. not (p m) && p m) db.messages
        (λ m. elim (Bool-cases (p m)) [ inl t ↦ rw t refl | inr t ↦ rw t refl ]) in
    omega (arith, e, z)

pub config-delete_messages :
    (db : Db) (p : Message → Bool) (name : Bytes)
    → read_queue_config (delete_messages p db) name ≡ read_queue_config db name
unfolding delete_messages read_queue_config find_queue read_security read_redrive_policy
config-delete_messages db p name = refl

-- What `delete` does once the queue's attributes have been read.
pub delete-of :
    (db : Db) (name handle : Bytes) (config : QueueConfig)
    → read_queue_config db name ≡ ok config
    → delete db name handle ≡ (
      delete_messages (has_receipt name handle) db,
      if count (has_receipt name handle) db.messages == 1
          then ok tt
          else err (invalid_receipt_handle handle),
    )
unfolding delete
delete-of db name handle config c = rw (c, delete) refl

-- Deleting with a handle that names exactly one message of the queue succeeds, removes that one
-- message and no other one of any queue, and afterwards the same handle is invalid: the second
-- deletion is refused and changes no message.
pub delete-once :
    (db : Db) (name handle : Bytes) (config : QueueConfig)
    → read_queue_config db name ≡ ok config
    → count (has_receipt name handle) db.messages ≡ 1
    → ((delete db name handle).1 ≡ ok tt)
      × ((delete db name handle).0.messages
          ≡ select (λ m. not (has_receipt name handle m)) db.messages)
      × ((delete (delete db name handle).0 name handle).1 ≡ err (invalid_receipt_handle handle))
delete-once db name handle config c one =
    let db1 = delete_messages (has_receipt name handle) db in
    let first : delete db name handle ≡ (db1, ok tt) =
      rw (delete-of db name handle config c, one) refl in
    let c1 = config-delete_messages db (has_receipt name handle) name ∙ c in
    let second : delete db1 name handle
        ≡ (delete_messages (has_receipt name handle) db1, err (invalid_receipt_handle handle)) =
      rw (delete-of db1 name handle config c1, no_receipt_left db name handle) refl in
    (rw first refl, rw first (unfold delete_messages in refl), rw (first, second) refl)

-- Deleting with a handle that names no message of the queue is refused and leaves every message where
-- it was.
pub delete-unknown :
    (db : Db) (name handle : Bytes) (config : QueueConfig)
    → read_queue_config db name ≡ ok config
    → count (has_receipt name handle) db.messages ≡ 0
    → ((delete db name handle).1 ≡ err (invalid_receipt_handle handle))
      × ((delete db name handle).0.messages ≡ db.messages)
delete-unknown db name handle config c none_of =
    let e : delete db name handle
        ≡ (delete_messages (has_receipt name handle) db, err (invalid_receipt_handle handle)) =
      rw (delete-of db name handle config c, none_of) refl in
    (
      rw e refl,
      rw e (unfold delete_messages in select-all (has_receipt name handle) db.messages none_of),
    )
