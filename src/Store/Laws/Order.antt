-- ===== src/Store/Laws/Order.antt =====
-- The order in which src/sqlite_lqs.rs `next_receivable` hands out messages.
use lqs.Prelude.{
  ℕ, ◌≤◌, ◌<◌, Bool, true, false, ◌&&◌, Option, some, List, ◌≡◌, sym, inl, inr, arith, Option-cases,
  find, In, Bytes, bytes_eq_refl,
}
use lqs.Prelude.Query.{find-some, find-In, any-false}
use lqs.Queue.Types.{standard, fifo}
use lqs.Store.Tables.{Message, Db}
use lqs.Store.Receive.Next.{
  is_receivable, is_selected, sql_eq, blocks, is_eligible, preferred_first, next_message,
}
use lqs.Store.Sound.Rows.{IsSound, find-least}

-- What the choice on a FIFO queue returns is eligible, whatever group it prefers.
pub preferred_first_sound :
    (preferred : Option Bytes) (p : Message → Bool) (ms : List Message) (m : Message)
    → preferred_first preferred p ms ≡ some m
    → In m ms × (p m ≡ true)
unfolding preferred_first
preferred_first_sound preferred p ms m h =
    elim (Option-cases (find (λ x. p x && sql_eq x.group_id preferred) ms)) [
      | inl e ↦ (find-In p ms (rw e at h), find-some p ms (rw e at h))
      | inr (x, e) ↦
          let same : x ≡ m = ground (arith, e, h) in
          let t = find-some (λ x. p x && sql_eq x.group_id preferred) ms e in
          (
            rw (sym same) (find-In (λ x. p x && sql_eq x.group_id preferred) ms e),
            rw (sym same) (ground (arith, t)),
          )
    ]

blocks-of-earlier :
    (selected : List ℕ) (m e : Message) (g : Bytes)
    → e.queue_name ≡ m.queue_name
    → m.group_id ≡ some g
    → e.group_id ≡ some g
    → e.sequence < m.sequence
    → blocks selected m e ≡ false
    → is_selected selected e.sequence ≡ true
unfolding blocks sql_eq
blocks-of-earlier selected m e g q h k l b =
    ground (arith, rw (q, h, k) at b, bytes_eq_refl m.queue_name, bytes_eq_refl g)

-- The message that `next_receivable` chooses on a FIFO queue is stored, is receivable, and was not
-- selected by this call before, and every earlier message of the same queue and group was: no
-- message overtakes another one of its group, and one in flight or delayed blocks its group.
pub next_message-fifo_order :
    (db : Db) (name : Bytes) (now : ℕ) (selected : List ℕ) (preferred : Option Bytes) (m : Message)
    → next_message db name fifo now selected preferred ≡ some m
    → In m db.messages
      × (is_receivable name now m ≡ true)
      × (is_selected selected m.sequence ≡ false)
      × ((e : Message)
          → (g : Bytes) → In e db.messages
          → e.queue_name ≡ m.queue_name
          → m.group_id ≡ some g
          → e.group_id ≡ some g
          → e.sequence < m.sequence
          → is_selected selected e.sequence ≡ true)
unfolding next_message is_eligible
next_message-fifo_order db name now selected preferred m h =
    let (i, t) =
      preferred_first_sound preferred (is_eligible db.messages name now selected) db.messages m h in
    (
      i,
      ground arith,
      ground arith,
      λ e g j q a b l.
          blocks-of-earlier selected m e g q a b l
            (any-false (blocks selected m) db.messages (ground arith) j),
    )

-- In a sound store the message that `next_receivable` chooses on a standard queue is stored and
-- receivable, and no receivable message of the queue has a smaller sequence.
pub next_message-standard_order :
    (db : Db) (name : Bytes) (now : ℕ) (selected : List ℕ) (preferred : Option Bytes) (m : Message)
    → IsSound db
    → next_message db name standard now selected preferred ≡ some m
    → In m db.messages
      × (is_receivable name now m ≡ true)
      × ((e : Message)
          → In e db.messages
          → is_receivable name now e ≡ true
          → m.sequence ≤ e.sequence)
unfolding next_message
next_message-standard_order db name now selected preferred m v h = (
  find-In (is_receivable name now) db.messages h,
  find-some (is_receivable name now) db.messages h,
  λ e i t. find-least (is_receivable name now) 0 db.messages m e v.ascending h i t,
)
