-- ===== src/Store/Sound/Rows.antt =====
-- What a sound store is, and that the statements on `messages` keep it so.
use lqs.Prelude.{
  ℕ, ◌≤◌, ◌<◌, Bool, true, false, some, List, [], ◌∷◌, ◌++◌, ◌≡◌, refl, sym, subst, inl, inr, arith,
  Bool-cases, Option-cases, any, select, find, update, All, In, Bytes,
}
use lqs.Prelude.Query.{All-In, All-select, All-update, All-append, All-imp, find-In}
use lqs.Error.{Result, ok, ◌>>=◌, >>=-eq-ok, or_fail-eq-ok, or_fail}
use lqs.Store.Tables.{QueueRow, Message, Db}
use lqs.Store.Read.{find_queue, queue_exists, is_queue}
use lqs.Store.Messages.{
  delete_messages, expire_messages, next_sequence, message_id_of, insert_row, has_sequence,
  moved_row, moved_delay, move_message,
}

-- The rows stand in the order of their sequence, above `lo`.
abbrev pub Ascending : ℕ → List Message → Type 0
Ascending lo [] = Unit
Ascending lo (m ∷ ms) = (lo < m.sequence) × Ascending m.sequence ms

-- A row's sequence was given out, its queue exists, and its id was made from a sequence given out.
abbrev pub RowOk : ℕ → List QueueRow → Message → Type 0
RowOk last queues m =
    (m.sequence ≤ last)
    × (any (is_queue m.queue_name) queues ≡ true)
    × ((k : ℕ) × (k ≤ last) × (m.message_id ≡ message_id_of k))

pub record IsSound (db : Db) : Type 0 where
  pub ascending : Ascending 0 db.messages
  pub rows : All (RowOk db.last_sequence db.queues) db.messages

Ascending-mono : {a b : ℕ} (ms : List Message) → a ≤ b → Ascending b ms → Ascending a ms
Ascending-mono [] h s = tt
Ascending-mono (m ∷ ms) h s = (omega arith, s.1)

pub Ascending-select :
    (p : Message → Bool) (lo : ℕ) (ms : List Message) → Ascending lo ms → Ascending lo (select p ms)
unfolding select
Ascending-select p lo [] s = tt
Ascending-select p lo (m ∷ ms) s = elim (Bool-cases (p m)) [
  | inl e ↦ rw e (s.0, Ascending-select p m.sequence ms s.1)
  | inr e ↦ rw e (
      Ascending-mono {a = lo} {b = m.sequence} (select p ms) (omega arith)
        (Ascending-select p m.sequence ms s.1))
]

pub Ascending-update :
    (p : Message → Bool) (f : Message → Message) (lo : ℕ) (ms : List Message)
    → ((m : Message) → (f m).sequence ≡ m.sequence)
    → Ascending lo ms
    → Ascending lo (update p f ms)
unfolding update
Ascending-update p f lo [] k s = tt
Ascending-update p f lo (m ∷ ms) k s = elim (Bool-cases (p m)) [
  | inl e ↦ rw (e, k m) (s.0, Ascending-update p f m.sequence ms k s.1)
  | inr e ↦ rw e (s.0, Ascending-update p f m.sequence ms k s.1)
]

Ascending-append :
    (lo last : ℕ) (ms : List Message) (row : Message)
    → Ascending lo ms
    → All (λ m. m.sequence ≤ last) ms
    → lo < row.sequence
    → last < row.sequence
    → Ascending lo (ms ++ row ∷ [])
Ascending-append lo last [] row s b h k = (h, tt)
Ascending-append lo last (m ∷ ms) row s b h k =
    (s.0, Ascending-append m.sequence last ms row s.1 b.1 (omega arith) k)

pub In-above :
    (lo : ℕ) (ms : List Message) (e : Message) → Ascending lo ms → In e ms → lo < e.sequence
In-above lo [] e s (_, i) = absurd i
In-above lo (m ∷ ms) e s (inl q) = rw q (s.0)
In-above lo (m ∷ ms) e s (inr i) = omega (arith, s.0, In-above m.sequence ms e s.1 i)

-- The first row that passes is the one with the least sequence.
pub find-least :
    (p : Message → Bool) (lo : ℕ) (ms : List Message) (m e : Message)
    → Ascending lo ms
    → find p ms ≡ some m
    → In e ms
    → p e ≡ true
    → m.sequence ≤ e.sequence
unfolding find
find-least p lo [] m e s h (_, i) t = absurd i
find-least p lo (x ∷ ms) m e s h i t = elim (Bool-cases (p x)) [
  | inl q ↦
      let same : x ≡ m = ground (arith, q) in
      subst (λ (y : Message). y.sequence ≤ e.sequence) same
        (elim i [
          | inl here ↦ rw here (omega arith)
          | inr j ↦ omega (arith, In-above x.sequence ms e s.1 j)
        ])
  | inr q ↦ elim i [
    | inl here ↦ cc (q, t, here)
    | inr j ↦ find-least p x.sequence ms m e s.1 (rw q at h) j t
  ]
]

-- A successful INSERT: the queue is there, and the row is the last one.
pub insert_row-eq-ok :
    (db : Db) (row : Message) (db' : Db)
    → insert_row db row ≡ ok db'
    → (queue_exists db row.queue_name ≡ true)
      × (db' ≡ record db { messages = db.messages ++ row ∷ []; last_sequence = row.sequence })
unfolding insert_row
insert_row-eq-ok db row db' h = ground arith

module _ (db : Db) (v : IsSound db) where
  pub delete_messages-IsSound : (p : Message → Bool) → IsSound (delete_messages p db)
  unfolding delete_messages
  delete_messages-IsSound p = record {
    ascending = Ascending-select _ 0 db.messages v.ascending;
    rows = All-select (RowOk db.last_sequence db.queues) _ db.messages v.rows;
  }

  -- An update that keeps the three columns which a sound row is about.
  pub update_rows-IsSound :
      (p : Message → Bool) (f : Message → Message)
      → ((m : Message) → (f m).sequence ≡ m.sequence)
      → ((m : Message) → (f m).queue_name ≡ m.queue_name)
      → ((m : Message) → (f m).message_id ≡ m.message_id)
      → IsSound (record db { messages = update p f db.messages })
  update_rows-IsSound p f a b c = record {
    ascending = Ascending-update p f 0 db.messages a v.ascending;
    rows =
        All-update (RowOk db.last_sequence db.queues) p f db.messages
          (λ m h. (rw (a m) h.0, rw (b m) h.1, rw (c m) h.2)) v.rows;
  }

  pub expire_messages-IsSound : (name : Bytes) (now : ℕ) → IsSound (expire_messages db name now)
  unfolding expire_messages
  expire_messages-IsSound name now = elim (Option-cases (find_queue db name)) [
    | inl e ↦ rw e v
    | inr (q, e) ↦ rw e (delete_messages-IsSound _)
  ]

  -- A new row gets the next sequence and is put at the end.
  pub insert_row-IsSound :
      (row : Message) (db' : Db)
      → row.sequence ≡ next_sequence db
      → ((k : ℕ) × (k ≤ row.sequence) × (row.message_id ≡ message_id_of k))
      → insert_row db row ≡ ok db'
      → IsSound db'
  unfolding next_sequence queue_exists
  insert_row-IsSound row db' e k h =
      let (here, same) = insert_row-eq-ok db row db' h in
      let last : db.last_sequence ≤ row.sequence = omega arith in
      subst IsSound (sym same) (record {
        ascending =
            Ascending-append 0 db.last_sequence db.messages row v.ascending
              (All-imp (RowOk db.last_sequence db.queues) (λ m. m.sequence ≤ db.last_sequence)
                db.messages (λ m r. r.0) v.rows)
              (omega arith) (omega arith);
        rows =
            All-append (RowOk row.sequence db.queues) db.messages (row ∷ [])
              (All-imp (RowOk db.last_sequence db.queues) (RowOk row.sequence db.queues) db.messages
                (λ m r. (omega (arith, r.0, last), r.1, (r.2.0, omega (arith, r.2.1, last), r.2.2)))
                v.rows)
              ((omega arith, here, k), tt);
      })

module _ (db : Db) (sequence : ℕ) (destination : Bytes) (now : ℕ) (reset identity : Bool) where
  abbrev rest_of_move : Message → ℕ → Result (Db × ℕ)
  rest_of_move m delay = do
    let db1 = delete_messages (has_sequence sequence) db
    let moved = next_sequence db1
    db2 ← insert_row db1 (moved_row m moved destination now delay reset identity)
    ok (db2, moved)

  -- A successful move: the row that was found, its delay, and the insertion after the deletion.
  abbrev pub Moved : Db → ℕ → Type 0
  Moved db' moved =
      (m : Message) × (delay : ℕ) × (find (has_sequence sequence) db.messages ≡ some m)
      × (moved ≡ next_sequence (delete_messages (has_sequence sequence) db))
      × (insert_row (delete_messages (has_sequence sequence) db)
            (moved_row m moved destination now delay reset identity)
          ≡ ok db')

  Moved-rest :
      (m : Message) (delay : ℕ) (db' : Db) (moved : ℕ)
      → find (has_sequence sequence) db.messages ≡ some m
      → rest_of_move m delay ≡ ok (db', moved)
      → Moved db' moved
  Moved-rest m delay db' moved found h = (m, delay, found, ground arith, ground arith)

  pub move_message-Moved :
      (db' : Db) (moved : ℕ)
      → move_message db sequence destination now reset identity ≡ ok (db', moved)
      → Moved db' moved
  unfolding move_message
  move_message-Moved db' moved h =
      let (m, found, h1) = >>=-eq-ok (or_fail (find (has_sequence sequence) db.messages) _) _ h in
      let (delay, d, h2) =
        >>=-eq-ok (moved_delay (delete_messages (has_sequence sequence) db) destination identity)
          (rest_of_move m) h1 in
      Moved-rest m delay db' moved (or_fail-eq-ok _ _ found) h2

issued :
    (m : Message) (last moved delay now : ℕ) (destination : Bytes) (reset identity : Bool)
    → ((k : ℕ) × (k ≤ last) × (m.message_id ≡ message_id_of k))
    → last ≤ moved
    → (k : ℕ) × (k ≤ moved)
      × ((moved_row m moved destination now delay reset identity).message_id ≡ message_id_of k)
unfolding moved_row
issued m last moved delay now destination reset true k h = (moved, omega arith, refl)
issued m last moved delay now destination reset false k h = (k.0, omega arith, k.2)

module _ (db : Db) (v : IsSound db) where
  pub move_message-IsSound :
      (sequence : ℕ) (destination : Bytes) (now : ℕ) (reset identity : Bool) (db' : Db) (moved : ℕ)
      → move_message db sequence destination now reset identity ≡ ok (db', moved)
      → IsSound db'
  unfolding moved_row next_sequence delete_messages
  move_message-IsSound sequence destination now reset identity db' moved h =
      let (m, delay, found, e, ins) =
        move_message-Moved db sequence destination now reset identity db' moved h in
      let here = find-In (has_sequence sequence) db.messages found in
      let row = All-In (RowOk db.last_sequence db.queues) db.messages v.rows here in
      insert_row-IsSound _ (delete_messages-IsSound db v (has_sequence sequence)) _ db' e
        (issued m db.last_sequence moved delay now destination reset identity row.2 (omega arith))
        ins
