-- ===== src/Store/Laws/Sources.antt =====
-- src/sqlite_lqs.rs `list_dead_letter_source_queues`: its names and their order.
use lqs.Prelude.{
  true, false, ◌≡◌, refl, sym, ◌∙◌, ap, List, [], ◌∷◌, In, ◌⊎◌, inl, inr, ◌↔◌, map, select, arith,
  Bytes, bytes_eq, bytes_lt, Bool-cases,
}
use lqs.Prelude.Query.{In-select, select-In}
use lqs.Error.{ok, >>=-eq-ok}
use lqs.Store.Tables.{PolicyRow, Db}
use lqs.Store.Read.{queue_type}
use lqs.Store.Redrive.{insert_sorted, sort_names, list_dead_letter_source_queues}

-- No name is before the one that precedes it.
abbrev NotAfter : Bytes → List Bytes → Type 0
NotAfter x [] = Unit
NotAfter x (y ∷ ys) = bytes_lt y x ≡ false

abbrev pub Ordered : List Bytes → Type 0
Ordered [] = Unit
Ordered (x ∷ xs) = NotAfter x xs × Ordered xs

bytes_lt-asym : (x y : Bytes) → bytes_lt x y ≡ true → bytes_lt y x ≡ false
unfolding bytes_lt
bytes_lt-asym [] [] h = refl
bytes_lt-asym [] (b ∷ y) h = refl
bytes_lt-asym (a ∷ x) [] h = cc h
bytes_lt-asym (a ∷ x) (b ∷ y) h = ground (arith, bytes_lt-asym x y)

insert_sorted-NotAfter :
    (x y : Bytes) (ys : List Bytes)
    → bytes_lt x y ≡ false
    → NotAfter y ys
    → NotAfter y (insert_sorted x ys)
unfolding insert_sorted
insert_sorted-NotAfter x y [] h n = h
insert_sorted-NotAfter x y (z ∷ ys) h n = elim (Bool-cases (bytes_lt z x)) [
  | inl e ↦ rw (e, insert_sorted) n
  | inr e ↦ rw (e, insert_sorted) h
]

insert_sorted-Ordered : (x : Bytes) (ys : List Bytes) → Ordered ys → Ordered (insert_sorted x ys)
unfolding insert_sorted
insert_sorted-Ordered x [] o = (tt, tt)
insert_sorted-Ordered x (y ∷ ys) (n, o) = elim (Bool-cases (bytes_lt y x)) [
  | inl e ↦
      rw (e, insert_sorted)
        (insert_sorted-NotAfter x y ys (bytes_lt-asym y x e) n, insert_sorted-Ordered x ys o)
  | inr e ↦ rw (e, insert_sorted) (e, (n, o))
]

sort_names-Ordered : (xs : List Bytes) → Ordered (sort_names xs)
unfolding sort_names
sort_names-Ordered [] = tt
sort_names-Ordered (x ∷ xs) = insert_sorted-Ordered x (sort_names xs) (sort_names-Ordered xs)

insert_sorted-In : (n x : Bytes) (ys : List Bytes) → In n (insert_sorted x ys) ↔ ((n ≡ x) ⊎ In n ys)
unfolding insert_sorted
insert_sorted-In n x [] = (λ i. i, λ i. i)
insert_sorted-In n x (y ∷ ys) = elim (Bool-cases (bytes_lt y x)) [
  | inr e ↦ rw (e, insert_sorted) (λ i. i, λ i. i)
  | inl e ↦
      let (there, back) = insert_sorted-In n x ys in
      rw (e, insert_sorted)
        (
          λ i. elim i [
            | inl q ↦ inr (inl q)
            | inr j ↦ elim (there j) [ inl q ↦ inl q | inr k ↦ inr (inr k) ]
          ],
          λ i. elim i [
            | inl q ↦ inr (back (inl q))
            | inr j ↦ elim j [ inl q ↦ inl q | inr k ↦ inr (back (inr k)) ]
          ],
        )
]

sort_names-In : (n : Bytes) (xs : List Bytes) → In n (sort_names xs) ↔ In n xs
unfolding sort_names
sort_names-In n [] = (λ i. i, λ i. i)
sort_names-In n (x ∷ xs) =
    let (there, back) = insert_sorted-In n x (sort_names xs) in
    let (down, up) = sort_names-In n xs in
    (
      λ i. elim (there i) [ inl q ↦ inl q | inr j ↦ inr (down j) ],
      λ i. elim i [ inl q ↦ back (inl q) | inr j ↦ back (inr (up j)) ],
    )

In-sources :
    (n : Bytes) (rows : List PolicyRow)
    → In n (map (λ (r : PolicyRow). r.source_queue) rows)
      ↔ ((r : PolicyRow) × In r rows × (r.source_queue ≡ n))
In-sources n [] = (λ (u, i). absurd i, λ (r, (u, i), q). absurd i)
In-sources n (r ∷ rows) =
    let (there, back) = In-sources n rows in
    (
      λ i. elim i [
        | inl q ↦ (r, inl refl, sym q)
        | inr j ↦ let (s, k, q) = there j in (s, inr k, q)
      ],
      λ (s, i, q). elim i [
        | inl e ↦ inl (sym q ∙ ap (λ (t : PolicyRow). t.source_queue) e)
        | inr j ↦ inr (back (s, j, q))
      ],
    )

-- A list of source queues that is given is in ascending order, and a name is on it exactly when a
-- policy of that queue sends to the queue that was asked about.
pub list_dead_letter_source_queues-eq-ok :
    (db : Db) (name : Bytes) (names : List Bytes)
    → list_dead_letter_source_queues db name ≡ ok names
    → Ordered names
      × ((n : Bytes)
          → In n names ↔ (
              (r : PolicyRow) × In r db.redrive_policies
              × (r.source_queue ≡ n)
              × (bytes_eq r.policy.dead_letter_queue name ≡ true)))
unfolding list_dead_letter_source_queues
list_dead_letter_source_queues-eq-ok db name names h =
    let (kind, k, h1) = >>=-eq-ok (queue_type db name) _ h in
    let sends = λ (r : PolicyRow). bytes_eq r.policy.dead_letter_queue name in
    let rows = select sends db.redrive_policies in
    let sources = map (λ (r : PolicyRow). r.source_queue) rows in
    let same : sort_names sources ≡ names = ground arith in
    rw (sym same) (
      sort_names-Ordered sources,
      λ n. (
        λ i.
            let (r, j, q) = (In-sources n rows).0 ((sort_names-In n sources).0 i) in
            let (l, t) = In-select sends db.redrive_policies j in (r, l, q, t),
        λ (r, l, q, t).
            (sort_names-In n sources).1
              ((In-sources n rows).1 (r, select-In sends db.redrive_policies l t, q)),
      ),
    )
