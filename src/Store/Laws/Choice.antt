-- ===== src/Store/Laws/Choice.antt =====
-- src/sqlite_lqs.rs `next_receivable`: when there is no message to choose.
use lqs.Prelude.{
  ℕ, ◌≤◌, ◌<◌, Bool, true, false, ◌&&◌, ◌≡◌, ◌≢◌, refl, ap, Option, none, some, List, [], ◌∷◌, In,
  ◌↔◌, inl, inr, arith, leb, any, find, Bool-cases, Option-cases, Bytes, bytes_eq, bytes_eq→≡,
  bytes_eq_refl,
}
use lqs.Prelude.Query.{find-none, find-In, find-some, any-In, any-true}
use lqs.Queue.Types.{standard, fifo}
use lqs.Store.Tables.{Message, Db}
use lqs.Store.Receive.Next.{
  is_visible, is_receivable, is_selected, sql_eq, blocks, is_eligible, preferred_first,
  next_message,
}

-- The time of a delivery's end, if there was one, is past.
abbrev pub IsShown : Option ℕ → ℕ → Type 0
IsShown none now = Unit
IsShown (some until) now = until ≤ now

-- The message is in the queue, its delay has passed, and no delivery hides it.
abbrev pub IsAvailable : Bytes → ℕ → Message → Type 0
IsAvailable name now m =
    (m.queue_name ≡ name) × (m.available_at_ms ≤ now) × IsShown m.invisible_until_ms now

-- `e` is an earlier message of the queue and group of `m` that the call has not taken.
abbrev pub StandsBefore : List ℕ → Message → Message → Type 0
StandsBefore selected m e =
    (e.queue_name ≡ m.queue_name)
    × ((g : Bytes) × (e.group_id ≡ some g) × (m.group_id ≡ some g))
    × (e.sequence < m.sequence)
    × (is_selected selected e.sequence ≡ false)

-- The message is available and not taken, and no earlier one of its group still waits.
abbrev pub IsNext : List Message → Bytes → ℕ → List ℕ → Message → Type 0
IsNext messages name now selected m =
    IsAvailable name now m
    × (is_selected selected m.sequence ≡ false)
    × ((e : Message) → In e messages → ¬ StandsBefore selected m e)

IsShown-is_visible : (o : Option ℕ) (now : ℕ) → IsShown o now ↔ (is_visible o now ≡ true)
IsShown-is_visible none now = (λ u. refl, λ h. tt)
IsShown-is_visible (some t) now = (λ h. ground (arith, h), λ h. ground (arith, h))

IsAvailable-is_receivable :
    (name : Bytes) (now : ℕ) (m : Message)
    → IsAvailable name now m ↔ (is_receivable name now m ≡ true)
unfolding is_receivable
IsAvailable-is_receivable name now m =
    let (there, back) = IsShown-is_visible m.invisible_until_ms now in
    (
      λ (q, a, s).
          let same : bytes_eq m.queue_name name ≡ true = rw q (bytes_eq_refl name) in
          ground (arith, same, a, there s),
      λ h.
          let same : bytes_eq m.queue_name name ≡ true = ground (arith, h) in
          let time : leb m.available_at_ms now ≡ true = ground (arith, h) in
          let seen : is_visible m.invisible_until_ms now ≡ true = ground (arith, h) in
          (bytes_eq→≡ m.queue_name name same, ground (arith, time), back seen),
    )

sql_eq-true : (a b : Option Bytes) → sql_eq a b ≡ true → (g : Bytes) × (a ≡ some g) × (b ≡ some g)
unfolding sql_eq
sql_eq-true none b h = absurd (cc h)
sql_eq-true (some x) none h = absurd (cc h)
sql_eq-true (some x) (some y) h = (y, ap some (bytes_eq→≡ x y h), refl)

sql_eq-same : (a b : Option Bytes) (g : Bytes) → a ≡ some g → b ≡ some g → sql_eq a b ≡ true
unfolding sql_eq
sql_eq-same a b g h k = rw (h, k, sql_eq) (bytes_eq_refl g)

StandsBefore-blocks :
    (selected : List ℕ) (m e : Message) → StandsBefore selected m e ↔ (blocks selected m e ≡ true)
unfolding blocks
StandsBefore-blocks selected m e = (
  λ (q, (g, a, b), l, n).
      let same : bytes_eq e.queue_name m.queue_name ≡ true = rw q (bytes_eq_refl m.queue_name) in
      ground (arith, same, sql_eq-same e.group_id m.group_id g a b, l, n),
  λ h.
      let same : bytes_eq e.queue_name m.queue_name ≡ true = ground (arith, h) in
      let group : sql_eq e.group_id m.group_id ≡ true = ground (arith, h) in
      (
        bytes_eq→≡ e.queue_name m.queue_name same,
        sql_eq-true e.group_id m.group_id group,
        ground (arith, h),
        ground (arith, h),
      ),
)

IsNext-is_eligible :
    (messages : List Message) (name : Bytes) (now : ℕ) (selected : List ℕ) (m : Message)
    → IsNext messages name now selected m ↔ (is_eligible messages name now selected m ≡ true)
unfolding is_eligible
IsNext-is_eligible messages name now selected m =
    let (there, back) = IsAvailable-is_receivable name now m in
    (
      λ (a, n, f).
          let free : any (blocks selected m) messages ≡ false =
            elim (Bool-cases (any (blocks selected m) messages)) [
              | inl t ↦
                  let (e, i, b) = any-true (blocks selected m) messages t in
                  absurd (f e i ((StandsBefore-blocks selected m e).1 b))
              | inr t ↦ t
            ] in
          ground (arith, there a, n, free),
      λ h.
          let r : is_receivable name now m ≡ true = ground (arith, h) in
          let free : any (blocks selected m) messages ≡ false = ground (arith, h) in
          (
            back r,
            ground (arith, h),
            λ e i s.
                let some_one =
                  any-In (blocks selected m) messages i ((StandsBefore-blocks selected m e).0 s) in
                cc (some_one, free),
          ),
    )

none_of :
    (p : Message → Bool) (ms : List Message)
    → ((m : Message) → In m ms → p m ≢ true)
    → find p ms ≡ none
unfolding find
none_of p [] k = refl
none_of p (m ∷ ms) k = elim (Bool-cases (p m)) [
  | inl e ↦ absurd (k m (inl refl) e)
  | inr e ↦ rw (e, find) (none_of p ms (λ x i. k x (inr i)))
]

none_with :
    (p q : Message → Bool) (ms : List Message) (x : Message)
    → ((y : Message) → q y ≡ true → p y ≡ true)
    → find q ms ≡ some x
    → find p ms ≢ none
none_with p q ms x imp e h = cc (find-none p ms h (find-In q ms e), imp x (find-some q ms e))

find-eq-none :
    (p : Message → Bool) (ms : List Message)
    → (find p ms ≡ none) ↔ ((m : Message) → In m ms → p m ≢ true)
find-eq-none p ms = (λ h m i t. cc (find-none p ms h i, t), λ k. none_of p ms k)

preferred_first-eq-none :
    (preferred : Option Bytes) (p : Message → Bool) (ms : List Message)
    → (preferred_first preferred p ms ≡ none) ↔ (find p ms ≡ none)
unfolding preferred_first
preferred_first-eq-none preferred p ms =
    let q = λ (x : Message). p x && sql_eq x.group_id preferred in
    elim (Option-cases (find q ms)) [
      | inl e ↦ rw (e, preferred_first) (λ h. h, λ h. h)
      | inr (x, e) ↦ (
        λ h. absurd (ground (arith, e, h)),
        λ h. absurd (none_with p q ms x (λ y t. ground (arith, t)) e h),
      )
    ]

-- Nothing is chosen exactly when nothing can be: on a standard queue when no stored message is in the
-- queue, past its delay and not hidden by a delivery, and on a FIFO queue when each such message was
-- taken by this call or has before it, in its queue and group, one that the call has not taken.
pub next_message-eq-none :
    (db : Db) (name : Bytes) (now : ℕ) (selected : List ℕ) (preferred : Option Bytes)
    → ((next_message db name standard now selected preferred ≡ none)
        ↔ ((m : Message) → In m db.messages → ¬ IsAvailable name now m))
      × ((next_message db name fifo now selected preferred ≡ none)
          ↔ ((m : Message) → In m db.messages → ¬ IsNext db.messages name now selected m))
unfolding next_message
next_message-eq-none db name now selected preferred =
    let ms = db.messages in
    let eligible = is_eligible ms name now selected in
    let (out, back) = find-eq-none (is_receivable name now) ms in
    let (out', back') = find-eq-none eligible ms in
    let (first, first') = preferred_first-eq-none preferred eligible ms in
    (
      (
        λ h m i a. out h m i ((IsAvailable-is_receivable name now m).0 a),
        λ k. back (λ m i t. k m i ((IsAvailable-is_receivable name now m).1 t)),
      ),
      (
        λ h m i a. out' (first h) m i ((IsNext-is_eligible ms name now selected m).0 a),
        λ k. first' (back' (λ m i t. k m i ((IsNext-is_eligible ms name now selected m).1 t))),
      ),
    )
