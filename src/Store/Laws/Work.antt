-- ===== src/Store/Laws/Work.antt =====
-- src/sqlite_lqs.rs: a redrive takes a message out of its queue, and a delivery leaves it there.
use lqs.Prelude.{
  ℕ, ◌≤◌, ◌<◌, Bool, true, false, not, ◌&&◌, Option, some, List, [], ◌∷◌, ◌++◌, ◌≡◌, refl, inl, inr,
  arith, ==_refl, Bool-cases, count, select, update, In, Bytes, bytes_eq,
}
use lqs.Prelude.Query.{count-select, count-split, count-append, find-In, find-some}
use lqs.Error.{ok, >>=-eq-ok}
use lqs.Queue.Types.{QueueType, standard, fifo, is_fifo, RedrivePolicy, ReceivedMessage}
use lqs.Queue.External.{External}
use lqs.Store.Tables.{Message, Db}
use lqs.Store.Read.{in_queue}
use lqs.Store.Messages.{
  delete_messages, update_messages, has_sequence, move_message, moved_row, insert_row,
}
use lqs.Store.Receive.Next.{Candidate, candidate_of, is_receivable, is_eligible, next_message}
use lqs.Store.Receive.Deliver.{deliver_candidate, redrive_candidate, delivered, insert_origin}
use lqs.Store.Sound.Rows.{insert_row-eq-ok, move_message-Moved}
use lqs.Store.Sound.Receive.{deliver_candidate-db}
use lqs.Store.Laws.Order.{preferred_first_sound}

count-positive :
    {A : Type 0} (p : A → Bool) (xs : List A) (x : A) → In x xs → p x ≡ true → 1 ≤ count p xs
unfolding count
count-positive p [] x (_, i) t = absurd i
count-positive p (y ∷ xs) x (inl e) t = ground (arith, rw e at t)
count-positive p (y ∷ xs) x (inr i) t = ground (arith, count-positive p xs x i t)

count-update :
    {A : Type 0} (p q : A → Bool) (f : A → A) (xs : List A)
    → ((x : A) → p (f x) ≡ p x)
    → count p (update q f xs) ≡ count p xs
unfolding count update
count-update p q f [] h = refl
count-update p q f (x ∷ xs) h = elim (Bool-cases (q x)) [
  | inl e ↦ rw (e, h x, count-update p q f xs h) refl
  | inr e ↦ rw (e, count-update p q f xs h) refl
]

-- Deleting a row that passes makes the count smaller.
count-deleted :
    {A : Type 0} (p q : A → Bool) (xs : List A) (x : A)
    → In x xs
    → p x ≡ true
    → q x ≡ true
    → count p (select (λ y. not (q y)) xs) < count p xs
count-deleted p q xs x i t u =
    let both : q x && p x ≡ true = rw (t, u) refl in
    omega (
      arith,
      count-split p q xs,
      count-select p (λ y. not (q y)) xs,
      count-positive (λ y. q y && p y) xs x i both,
    )

-- The message chosen is a message of the queue.
pub next_message-here :
    (db : Db) (name : Bytes) (kind : QueueType) (now : ℕ) (selected : List ℕ)
    (preferred : Option Bytes) (m : Message)
    → next_message db name kind now selected preferred ≡ some m
    → In m db.messages × (in_queue name m ≡ true)
unfolding next_message is_eligible is_receivable
next_message-here db name standard now selected preferred m h = (
  find-In (is_receivable name now) db.messages h,
  let t = find-some (is_receivable name now) db.messages h in ground arith,
)
next_message-here db name fifo now selected preferred m h =
    let (i, t) =
      preferred_first_sound preferred (is_eligible db.messages name now selected) db.messages m h in
    (i, ground arith)

moved-count :
    (name destination : Bytes) (db : Db) (m row : Message) (db' : Db)
    → bytes_eq destination name ≡ false
    → row.queue_name ≡ destination
    → In m db.messages
    → in_queue name m ≡ true
    → insert_row (delete_messages (has_sequence m.sequence) db) row ≡ ok db'
    → count (in_queue name) db'.messages < count (in_queue name) db.messages
unfolding delete_messages count
moved-count name destination db m row db' differs to i t h =
    let (here, e) = insert_row-eq-ok _ row db' h in
    let kept = select (λ x. not (has_sequence m.sequence x)) db.messages in
    let all : db'.messages ≡ kept ++ row ∷ [] = rw e refl in
    let away : in_queue name row ≡ false = rw to differs in
    let less =
      count-deleted (in_queue name) (has_sequence m.sequence) db.messages m i t
        (==_refl m.sequence) in
    let added = count-append (in_queue name) kept (row ∷ []) in
    rw (all, added, away) (omega (arith, less))

-- A redrive to another queue leaves fewer messages.
pub redrive_candidate-count :
    (db : Db) (name : Bytes) (kind : QueueType) (m : Message) (policy : RedrivePolicy) (now : ℕ)
    (db' : Db)
    → bytes_eq policy.dead_letter_queue name ≡ false
    → In m db.messages
    → in_queue name m ≡ true
    → redrive_candidate db name kind (candidate_of m) policy now ≡ ok db'
    → count (in_queue name) db'.messages < count (in_queue name) db.messages
unfolding redrive_candidate insert_origin moved_row
redrive_candidate-count db name kind m policy now db' differs i t h =
    let ((db1, moved), e, h1) =
      >>=-eq-ok (move_message db m.sequence policy.dead_letter_queue now (is_fifo kind) false) _
        h in
    let (x, delay, found, at_end, ins) =
      move_message-Moved db m.sequence policy.dead_letter_queue now (is_fifo kind) false db1 moved
        e in
    let same : db'.messages ≡ db1.messages = ground arith in
    rw same (moved-count name policy.dead_letter_queue db m _ db1 differs refl i t ins)

pub deliver_candidate-count :
    (ext : External) (db : Db) (name : Bytes) (kind : QueueType) (c : Candidate)
    (visibility now : ℕ) (db' : Db) (r : ReceivedMessage)
    → deliver_candidate ext db kind c visibility now ≡ ok (db', r)
    → count (in_queue name) db'.messages ≡ count (in_queue name) db.messages
unfolding update_messages delivered
deliver_candidate-count ext db name kind c visibility now db' r h =
    let (handle, until, e) = deliver_candidate-db ext db kind c visibility now db' r h in
    rw e (count-update (in_queue name) _ _ db.messages (λ m. refl))
