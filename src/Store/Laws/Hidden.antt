-- ===== src/Store/Laws/Hidden.antt =====
-- src/sqlite_lqs.rs `change_visibility`: until when a message is hidden.
use lqs.Prelude.{
  ℕ, Bool, true, ◌≡◌, refl, sym, ◌∙◌, ap, Option, none, some, List, [], ◌∷◌, In, inl, inr, arith,
  ltb, leb, count, update, Bytes, Bool-cases,
}
use lqs.Prelude.Word.{saturating_add_i64}
use lqs.Prelude.Query.{count_mono}
use lqs.Error.{ok, Result-cases}
use lqs.Store.Tables.{Message, QueueRow, Db}
use lqs.Store.Read.{ms, find_queue, read_queue_config}
use lqs.Store.Messages.{update_messages}
use lqs.Store.Receive.Next.{is_visible}
use lqs.Store.Visibility.{has_receipt, changes, with_deadline, change_rows, change_visibility}

-- Where as many rows are changed as pass a test that the changed ones pass, each that passes is one.
update-changed :
    {A : Type 0} (hit p : A → Bool) (f : A → A) (xs : List A) (y : A)
    → ((x : A) → hit x ≡ true → p x ≡ true)
    → count hit xs ≡ count p xs
    → In y (update hit f xs)
    → p y ≡ true
    → (x : A) × (y ≡ f x)
unfolding count update
update-changed hit p f [] y k c (_, i) t = absurd i
update-changed hit p f (x ∷ xs) y k c i t =
    let fewer = count_mono hit p xs k in
    elim (Bool-cases (hit x)) [
      | inl e ↦
          let rest : count hit xs ≡ count p xs = ground (arith, c, e, k x e) in
          elim (rw e at i) [ inl q ↦ (x, q) | inr j ↦ update-changed hit p f xs y k rest j t ]
      | inr e ↦ elim (Bool-cases (p x)) [
        | inl u ↦ absurd (ground (arith, c, e, u, fewer))
        | inr u ↦
            let rest : count hit xs ≡ count p xs = ground (arith, c, e, u) in
            elim (rw e at i) [
              | inl q ↦ absurd (ground (arith, t, u, ap p q))
              | inr j ↦ update-changed hit p f xs y k rest j t
            ]
      ]
    ]

changes-has_receipt :
    (name handle : Bytes) (now : ℕ) (q : Option QueueRow) (m : Message)
    → changes name handle now q m ≡ true
    → has_receipt name handle m ≡ true
changes-has_receipt name handle now none m h = cc h
changes-has_receipt name handle now (some q) m h = ground arith

-- A change of visibility that succeeds has changed one row.
change_visibility-eq-ok :
    (db : Db) (name handle : Bytes) (timeout now : ℕ)
    → (change_visibility db name handle timeout now).1 ≡ ok tt
    → (count (changes name handle (ms now) (find_queue db name)) db.messages ≡ 1)
      × ((change_visibility db name handle timeout now).0.messages
          ≡ update
              (changes name handle (ms now) (find_queue db name))
              (with_deadline (saturating_add_i64 (ms now) (ms timeout)))
              db.messages)
unfolding change_visibility change_rows update_messages
change_visibility-eq-ok db name handle timeout now h = elim (Bool-cases (ltb 43200000 timeout)) [
  | inl e ↦ absurd (ground (arith, h, e))
  | inr e ↦ elim (Result-cases (read_queue_config db name)) [
    | inl (config, c) ↦
        let done = rw (e, c, change_visibility) at h in
        (ground (arith, done), rw (e, c, change_visibility) refl)
    | inr (inl (x, c)) ↦ absurd (ground (arith, rw (e, c, change_visibility) at h))
    | inr (inr c) ↦ absurd (ground (arith, rw (e, c, change_visibility) at h))
  ]
]

-- If a handle names exactly one message of the queue and a change of its visibility succeeds, that
-- message is hidden until the time of the call and the timeout together, saturated, and visible from
-- then on.
pub change_visibility-hides :
    (db : Db) (name handle : Bytes) (timeout now : ℕ) (m : Message) (t : ℕ)
    → count (has_receipt name handle) db.messages ≡ 1
    → (change_visibility db name handle timeout now).1 ≡ ok tt
    → In m (change_visibility db name handle timeout now).0.messages
    → has_receipt name handle m ≡ true
    → is_visible m.invisible_until_ms t ≡ leb (saturating_add_i64 (ms now) (ms timeout)) t
change_visibility-hides db name handle timeout now m t one h i r =
    let hit = changes name handle (ms now) (find_queue db name) in
    let until = saturating_add_i64 (ms now) (ms timeout) in
    let (single, rows) = change_visibility-eq-ok db name handle timeout now h in
    let (x, q) =
      update-changed hit (has_receipt name handle) (with_deadline until) db.messages m
        (λ y k. changes-has_receipt name handle (ms now) (find_queue db name) y k)
        (single ∙ sym one) (rw rows at i) r in
    ap (λ (y : Message). is_visible y.invisible_until_ms t) q
