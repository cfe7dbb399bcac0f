-- ===== src/Store/Laws/Moves.antt =====
-- src/sqlite_lqs.rs `redrive_dead_letters`: what it takes from which queue, and when it stops.
use lqs.Prelude.{
  ℕ, zero, suc, ◌+◌, ◌≤◌, ◌<◌, Bool, true, false, not, ◌≡◌, refl, sym, ap, subst, none, List, [],
  ◌∷◌, ◌++◌, In, inl, inr, arith, count, find, select, if◌then◌else◌, Bytes, bytes_eq, bytes_eq→≡,
  Option-cases,
}
use lqs.Prelude.Query.{count-append, find-In, find-some}
use lqs.Error.{ok, >>=-eq-ok, >>-eq-ok}
use lqs.Queue.Types.{QueueType}
use lqs.Store.Tables.{Message, Db}
use lqs.Store.Read.{ms, in_queue, queue_type}
use lqs.Store.Messages.{expire_messages, delete_messages, has_sequence, moved_row, move_message}
use lqs.Store.Redrive.{is_movable, redrive_loop, redrive_body, redrive_dead_letters}
use lqs.Store.Sound.Rows.{
  Ascending, IsSound, In-above, insert_row-eq-ok, move_message-Moved, move_message-IsSound,
  expire_messages-IsSound,
}
use lqs.Store.Laws.Quotas.{transaction-eq-ok}

-- `k` if the test holds.
abbrev pub times : Bool → ℕ → ℕ
times b k = if b then k else 0

others_stay :
    (s lo : ℕ) (ms : List Message)
    → Ascending lo ms
    → s ≤ lo
    → select (λ y. not (has_sequence s y)) ms ≡ ms
unfolding select
others_stay s lo [] a h = refl
others_stay s lo (m ∷ ms) a h =
    let other : has_sequence s m ≡ false = ground (arith, a.0) in
    rw (other, others_stay s m.sequence ms a.1 (omega (arith, a.0))) refl

-- In ascending rows one row has the sequence of `m`, and its deletion takes that row alone.
count-without :
    (q : Message → Bool) (lo : ℕ) (ms : List Message) (m : Message)
    → Ascending lo ms
    → In m ms
    → count q (select (λ y. not (has_sequence m.sequence y)) ms) + times (q m) 1 ≡ count q ms
unfolding count select
count-without q lo [] m a (_, i) = absurd i
count-without q lo (x ∷ ms) m a (inl e) =
    let this : has_sequence m.sequence x ≡ true = rw e (ground arith) in
    rw (this, others_stay m.sequence x.sequence ms a.1 (rw e (omega arith))) (rw e (ground arith))
count-without q lo (x ∷ ms) m a (inr i) =
    let above = In-above x.sequence ms m a.1 i in
    let other : has_sequence m.sequence x ≡ false = ground (arith, above) in
    let rest = count-without q x.sequence ms m a.1 i in rw other (ground (arith, rest))

-- One move takes a message from its queue to the destination, and leaves every other queue as full.
move_message-count :
    (db : Db) (m : Message) (dlq source : Bytes) (now : ℕ) (db' : Db) (moved : ℕ) (name : Bytes)
    → IsSound db
    → In m db.messages
    → m.queue_name ≡ dlq
    → move_message db m.sequence source now true true ≡ ok (db', moved)
    → count (in_queue name) db'.messages + times (bytes_eq dlq name) 1
      ≡ count (in_queue name) db.messages + times (bytes_eq source name) 1
unfolding count moved_row delete_messages
move_message-count db m dlq source now db' moved name v i q h =
    let (x, delay, found, s, ins) =
      move_message-Moved db m.sequence source now true true db' moved h in
    let row = moved_row x moved source now delay true true in
    let rest = select (λ y. not (has_sequence m.sequence y)) db.messages in
    let added = (insert_row-eq-ok _ row db' ins).1 in
    let rows : db'.messages ≡ rest ++ row ∷ [] = ap (λ (d : Db). d.messages) added in
    let less = count-without (in_queue name) 0 db.messages m v.ascending i in
    let less' : count (in_queue name) rest + times (bytes_eq dlq name) 1
        ≡ count (in_queue name) db.messages =
      subst
        (λ n.
          count (in_queue name) rest + times (bytes_eq n name) 1
          ≡ count (in_queue name) db.messages)
        q less in
    let more = count-append (in_queue name) rest (row ∷ []) in
    let one : count (in_queue name) (row ∷ []) ≡ times (bytes_eq source name) 1 = ground arith in
    rw (rows, more, one) (omega (arith, less'))

one_more :
    (b c : Bool) (before middle after n moved : ℕ)
    → middle + times b 1 ≡ before + times c 1
    → after + times b n + times c (moved + 1) ≡ middle + times c n + times b (moved + 1)
    → after + times b n + times c moved ≡ before + times c n + times b moved
one_more true true x y z n k h j = omega (arith, h, j)
one_more true false x y z n k h j = omega (arith, h, j)
one_more false true x y z n k h j = omega (arith, h, j)
one_more false false x y z n k h j = omega (arith, h, j)

from_zero :
    (b c : Bool) (before after n : ℕ)
    → after + times b n + times c 0 ≡ before + times c n + times b 0
    → after + times b n ≡ before + times c n
from_zero true true x y n h = omega (arith, h)
from_zero true false x y n h = omega (arith, h)
from_zero false true x y n h = omega (arith, h)
from_zero false false x y n h = omega (arith, h)

module _ (dlq source : Bytes) (kind : QueueType) (now : ℕ) where
  movable_queue :
      (db : Db) (m : Message) → is_movable db dlq source kind now m ≡ true → m.queue_name ≡ dlq
  unfolding is_movable
  movable_queue db m h =
      let same : bytes_eq m.queue_name dlq ≡ true = ground (arith, h) in
      bytes_eq→≡ m.queue_name dlq same

  redrive_loop-moves :
      (left : ℕ) (db : Db) (moved : ℕ) (db' : Db) (n : ℕ) (name : Bytes)
      → IsSound db
      → redrive_loop dlq source kind now left db moved ≡ ok (db', n)
      → (n ≤ left + moved)
        × (moved ≤ n)
        × (n < left + moved → find (is_movable db' dlq source kind now) db'.messages ≡ none)
        × (count (in_queue name) db'.messages
              + times (bytes_eq dlq name) n
              + times (bytes_eq source name) moved
            ≡ count (in_queue name) db.messages
              + times (bytes_eq source name) n
              + times (bytes_eq dlq name) moved)
  unfolding redrive_loop
  redrive_loop-moves zero db moved db' n name v h =
      let same : moved ≡ n = ground arith in
      let kept : db ≡ db' = ground arith in
      (
        omega (arith, same),
        omega (arith, same),
        λ l. absurd (omega (arith, same, l)),
        rw (sym kept, same) (omega arith),
      )
  redrive_loop-moves (suc left) db moved db' n name v h =
      elim (Option-cases (find (is_movable db dlq source kind now) db.messages)) [
        | inl e ↦
            let same : moved ≡ n = ground (arith, rw (e, redrive_loop) at h) in
            let kept : db ≡ db' = cc (rw (e, redrive_loop) at h) in
            (
              omega (arith, same),
              omega (arith, same),
              λ l.
                  subst (λ (d : Db). find (is_movable d dlq source kind now) d.messages ≡ none) kept
                    e,
              rw (sym kept, same) (omega arith),
            )
        | inr (m, e) ↦
            let (step, s, h1) =
              >>=-eq-ok (move_message db m.sequence source now true true) _
                (rw (e, redrive_loop) at h) in
            let w = move_message-IsSound db v m.sequence source now true true step.0 step.1 s in
            let (a, b, c, d) = redrive_loop-moves left step.0 (moved + 1) db' n name w h1 in
            let here =
              movable_queue db m (find-some (is_movable db dlq source kind now) db.messages e) in
            let one =
              move_message-count db m dlq source now step.0 step.1 name v
                (find-In (is_movable db dlq source kind now) db.messages e) here s in
            (
              omega (arith, a),
              omega (arith, b),
              λ l. c (omega (arith, l)),
              one_more (bytes_eq dlq name) (bytes_eq source name) _ _ _ n moved one d,
            )
      ]

redrive_body-moves :
    (db : Db) (dlq source : Bytes) (max_messages now : ℕ) (db' : Db) (n : ℕ) (kind : QueueType)
    (name : Bytes)
    → IsSound db
    → queue_type db source ≡ ok kind
    → redrive_body db dlq source max_messages now ≡ ok (db', n)
    → (n ≤ max_messages)
      × (n < max_messages → find (is_movable db' dlq source kind (ms now)) db'.messages ≡ none)
      × (count (in_queue name) db'.messages + times (bytes_eq dlq name) n
          ≡ count
              (in_queue name)
              (expire_messages (expire_messages db dlq (ms now)) source (ms now)).messages
            + times (bytes_eq source name) n)
unfolding redrive_body
redrive_body-moves db dlq source max_messages now db' n kind name v t h =
    let h1 = rw t at h in
    let (other, k, h2) = >>=-eq-ok (queue_type db dlq) _ h1 in
    let (fits, h3) = >>-eq-ok _ _ h2 in
    let base = expire_messages (expire_messages db dlq (ms now)) source (ms now) in
    let w : IsSound base =
      expire_messages-IsSound _ (expire_messages-IsSound db v dlq (ms now)) source (ms now) in
    let (a, b, c, d) =
      redrive_loop-moves dlq source kind (ms now) max_messages base 0 db' n name w h3 in
    (
      omega (arith, a),
      λ l. c (omega (arith, l)),
      from_zero (bytes_eq dlq name) (bytes_eq source name) _ _ n d,
    )

-- If a redrive of dead letters on a sound store succeeds, it has moved as many messages as it says, at
-- most as many as it was asked to: so many are missing from the dead-letter queue, so many more are in
-- the source queue, and every other queue has as many as before, messages that had expired in the two
-- queues not counted. If it moved fewer, no message that could be moved is left.
pub redrive_dead_letters-moves :
    (db : Db) (dlq source : Bytes) (max_messages now n : ℕ) (kind : QueueType) (name : Bytes)
    → IsSound db
    → queue_type db source ≡ ok kind
    → (redrive_dead_letters db dlq source max_messages now).1 ≡ ok n
    → (n ≤ max_messages)
      × (n < max_messages
          → find
              (is_movable
                (redrive_dead_letters db dlq source max_messages now).0
                dlq
                source
                kind
                (ms now))
              (redrive_dead_letters db dlq source max_messages now).0.messages
            ≡ none)
      × (count (in_queue name) (redrive_dead_letters db dlq source max_messages now).0.messages
            + times (bytes_eq dlq name) n
          ≡ count
              (in_queue name)
              (expire_messages (expire_messages db dlq (ms now)) source (ms now)).messages
            + times (bytes_eq source name) n)
unfolding redrive_dead_letters
redrive_dead_letters-moves db dlq source max_messages now n kind name v t h =
    redrive_body-moves db dlq source max_messages now _ n kind name v t
      (transaction-eq-ok db (redrive_body db dlq source max_messages now) n h)
