-- ===== src/Store/Laws/Quotas.antt =====
-- Limits on what one call can do: src/management.rs (tags, purging).
use lqs.Prelude.{
  ltb→le, ℕ, ◌≤◌, Bool, true, not, some, List, [], ◌∷◌, ◌≡◌, refl, sym, ap, ◌∙◌, inl, inr, arith,
  ltb, Bool-cases, count, find, update, select, Bytes, bytes_eq,
}
use lqs.Prelude.Word.{saturating_add_i64}
use lqs.Error.{
  LqsError, Result, ok, err, out_of_fuel, >>=-eq-ok, >>-eq-ok, fail_if, fail_if-eq-ok, or_fail,
  or_fail-eq-ok, purge_queue_in_progress,
}
use lqs.Queue.External.{External}
use lqs.Queue.Types.{QueueConfig}
use lqs.Queue.Validate.{QueueTags}
use lqs.Store.Tables.{QueueRow, TagRow, Db}
use lqs.Store.Read.{
  is_queue, in_queue, read_security, read_redrive_policy, ms, transaction, read_queue_config,
  find_queue,
}
use lqs.Store.Messages.{delete_messages}
use lqs.Store.Settings.{write_tags}
use lqs.Store.Manage.{is_tag_of, tag_body, tag_queue}
use lqs.Store.Remove.{purge_body, purge_rows, purge_queue}

-- A call that succeeded has committed its body's result.
pub transaction-eq-ok :
    {A : Type 0} (db : Db) (body : Result (Db × A)) (a : A)
    → (transaction db body).1 ≡ ok a
    → body ≡ ok ((transaction db body).0, a)
transaction-eq-ok db (ok (db', b)) a h = ground arith
transaction-eq-ok db (err e) a h = cc
transaction-eq-ok db out_of_fuel a h = cc

-- A failed call leaves the tables as they were.
pub transaction-eq-err :
    {A : Type 0} (db : Db) (body : Result (Db × A)) (e : LqsError)
    → (transaction db body).1 ≡ err e
    → (transaction db body).0 ≡ db
transaction-eq-err db (ok (db', b)) e h = cc
transaction-eq-err db (err x) e h = refl
transaction-eq-err db out_of_fuel e h = refl

pub ok_pair_fst :
    (x y : Db) (a b : Unit {0}) → ◌≡◌ {A = Result (Db × Unit {0})} (ok (x, a)) (ok (y, b)) → x ≡ y
ok_pair_fst x y a b h = ground arith

tags_of_ok :
    (name : Bytes) (db : Db) (rows : List TagRow) (db' : Db)
    → (◌≡◌ {A = Result (Db × Unit {0})} (ok (record db { queue_tags = rows }, tt)) (ok (db', tt)))
    → db'.queue_tags ≡ rows
tags_of_ok name db rows db' h = ground arith

-- When `tag_queue` succeeds, the queue has at most 50 tags.
pub tag_queue-limit :
    (ext : External) (db : Db) (name : Bytes) (tags : QueueTags)
    → (tag_queue ext db name tags).1 ≡ ok tt
    → count (is_tag_of name) (tag_queue ext db name tags).0.queue_tags ≤ 50
unfolding tag_queue tag_body
tag_queue-limit ext db name tags h =
    let h0 = transaction-eq-ok db (tag_body ext db name tags) tt h in
    let rows = write_tags name tags db.queue_tags in
    let (given, h1) = >>-eq-ok _ _ h0 in
    let (valid, h2) = >>-eq-ok _ _ h1 in
    let (config, c, h3) = >>=-eq-ok (read_queue_config db name) _ h2 in
    let (room, h4) = >>-eq-ok (fail_if (ltb 50 (count (is_tag_of name) rows)) _) _ h3 in
    let small = fail_if-eq-ok (ltb 50 (count (is_tag_of name) rows)) _ room in
    rw (tags_of_ok name db (write_tags name tags db.queue_tags) _ h4) (ltb→le _ _ small)

purge_body-ok :
    (db : Db) (name : Bytes) (now : ℕ) (db' : Db) (a : Unit {0})
    → purge_body db name now ≡ ok (db', a)
    → db' ≡ purge_rows name now db
unfolding purge_body
purge_body-ok db name now db' a h =
    let (config, c, h1) = >>=-eq-ok (read_queue_config db name) _ h in
    let (q, f, h2) = >>=-eq-ok (or_fail (find_queue db name) _) _ h1 in
    let (cool, h3) = >>-eq-ok _ _ h2 in sym (ok_pair_fst _ db' tt a h3)

find-purged :
    (name : Bytes) (f : QueueRow → QueueRow) (qs : List QueueRow) (q : QueueRow)
    → ((r : QueueRow) → (f r).name ≡ r.name)
    → find (is_queue name) qs ≡ some q
    → find (is_queue name) (update (is_queue name) f qs) ≡ some (f q)
unfolding find update
find-purged name f [] q k h = cc
find-purged name f (r ∷ qs) q k h = elim (Bool-cases (is_queue name r)) [
  | inl e ↦
      let same : r ≡ q = ground (arith, rw e at h) in
      let still : is_queue name (f r) ≡ true = ap (λ n. bytes_eq n name) (k r) ∙ e in
      rw (e, still) (ap (λ x. some (f x)) same)
  | inr e ↦ rw (e, e) (find-purged name f qs q k (rw e at h))
]

purged_config :
    (db : Db) (name : Bytes) (now : ℕ) (config : QueueConfig) (q : QueueRow)
    → read_queue_config db name ≡ ok config
    → find_queue db name ≡ some q
    → (find_queue (purge_rows name now db) name ≡ some (record q { last_purge_ms = some (ms now) }))
      × (read_queue_config (purge_rows name now db) name ≡ ok config)
unfolding purge_rows find_queue read_queue_config delete_messages read_security read_redrive_policy
purged_config db name now config q c f =
    let e =
      find-purged name (λ r. record r { last_purge_ms = some (ms now) }) db.queues q (λ r. refl)
        f in
    (e, rw e (rw f at c))

cooled_body :
    (db : Db) (name : Bytes) (later t : ℕ) (config : QueueConfig) (q : QueueRow)
    → read_queue_config db name ≡ ok config
    → find_queue db name ≡ some (record q { last_purge_ms = some t })
    → ltb (ms later) (saturating_add_i64 t 60000) ≡ true
    → purge_body db name later ≡ err purge_queue_in_progress
unfolding purge_body
cooled_body db name later t config q c f soon = rw (c, f, soon, purge_body) refl

cooled :
    (db : Db) (name : Bytes) (later : ℕ)
    → purge_body db name later ≡ err purge_queue_in_progress
    → purge_queue db name later ≡ (db, err purge_queue_in_progress)
unfolding purge_queue
cooled db name later h = rw h refl

count-deleted_all :
    {A : Type 0} (p : A → Bool) (xs : List A) → count p (select (λ x. not (p x)) xs) ≡ 0
unfolding count select
count-deleted_all p [] = refl
count-deleted_all p (x ∷ xs) = elim (Bool-cases (p x)) [
  | inl e ↦ rw e (count-deleted_all p xs)
  | inr e ↦ rw (e, e) (count-deleted_all p xs)
]

no_message_left :
    (db : Db) (name : Bytes) (now : ℕ) → count (in_queue name) (purge_rows name now db).messages ≡ 0
unfolding purge_rows delete_messages
no_message_left db name now = count-deleted_all (in_queue name) db.messages

-- A purge that succeeds leaves no message in the queue, and a second purge less than 60 seconds later
-- is refused and changes nothing.
pub purge_queue-cooldown :
    (db : Db) (name : Bytes) (now later : ℕ)
    → (purge_queue db name now).1 ≡ ok tt
    → ltb (ms later) (saturating_add_i64 (ms now) 60000) ≡ true
    → (count (in_queue name) (purge_queue db name now).0.messages ≡ 0)
      × (purge_queue (purge_queue db name now).0 name later
          ≡ ((purge_queue db name now).0, err purge_queue_in_progress))
unfolding purge_queue purge_body
purge_queue-cooldown db name now later h soon =
    let h0 = transaction-eq-ok db (purge_body db name now) tt h in
    let (config, c, h1) = >>=-eq-ok (read_queue_config db name) _ h0 in
    let (q, f, h2) = >>=-eq-ok (or_fail (find_queue db name) _) _ h1 in
    let e = purge_body-ok db name now _ tt h0 in
    let (f1, c1) = purged_config db name now config q c (or_fail-eq-ok _ _ f) in
    (
      rw e (no_message_left db name now),
      rw e (
          cooled (purge_rows name now db) name later
            (cooled_body (purge_rows name now db) name later (ms now) config q c1 f1 soon)),
    )
