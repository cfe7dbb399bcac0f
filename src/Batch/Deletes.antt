-- ===== src/Batch/Deletes.antt =====
-- src/batch.rs `delete_batch`: what a batch of deletions leaves.
use lqs.Prelude.{
  Bool, true, not, ◌||◌, List, [], ◌∷◌, ◌≡◌, ◌≢◌, refl, sym, ◌∙◌, ap, inl, inr, arith, any, select,
  map, Bytes, Bool-cases,
}
use lqs.Error.{Result, ok, out_of_fuel, Result-cases}
use lqs.Queue.Types.{QueueConfig}
use lqs.Store.Tables.{Message, Db}
use lqs.Store.Read.{read_queue_config}
use lqs.Store.Messages.{delete_messages}
use lqs.Store.Visibility.{has_receipt, delete}
use lqs.Store.Laws.Handles.{config-delete_messages, delete-of}
use lqs.Batch.{BatchEntry, BatchResult, run_entries, check_batch, run_batch, delete_batch}

-- An entry names the message by its handle.
abbrev pub is_named : Bytes → List (BatchEntry Bytes) → Message → Bool
is_named name entries m = any (λ (e : BatchEntry Bytes). has_receipt name e.value m) entries

select-select :
    (p q : Message → Bool) (ms : List Message)
    → select (λ m. not (q m)) (select (λ m. not (p m)) ms) ≡ select (λ m. not (p m || q m)) ms
unfolding select
select-select p q [] = refl
select-select p q (m ∷ ms) = elim (Bool-cases (p m)) [
  | inl e ↦ rw (e, select-select p q ms) refl
  | inr e ↦ elim (Bool-cases (q m)) [
    | inl f ↦ rw (e, f, select-select p q ms) refl
    | inr f ↦ rw (e, f, select-select p q ms) refl
  ]
]

select-true : (ms : List Message) → select (λ m. true) ms ≡ ms
unfolding select
select-true [] = refl
select-true (m ∷ ms) = ap (λ xs. m ∷ xs) (select-true ms)

delete-answers :
    (db : Db) (name handle : Bytes) (config : QueueConfig)
    → read_queue_config db name ≡ ok config
    → (delete db name handle).1 ≢ out_of_fuel
unfolding delete
delete-answers db name handle config c = rw (c, delete) (λ h. ground (arith, h))

module _ (name : Bytes) (config : QueueConfig) where
  run_entries-messages :
      (es : List (BatchEntry Bytes)) (db : Db) (r : BatchResult (Unit {0}))
      → read_queue_config db name ≡ ok config
      → (run_entries (λ db' handle. delete db' name handle) db r es).0.messages
        ≡ select (λ m. not (is_named name es m)) db.messages
  unfolding run_entries any delete_messages
  run_entries-messages [] db r c = sym (select-true db.messages)
  run_entries-messages (e ∷ es) db r c =
      let p = has_receipt name e.value in
      let d = (delete db name e.value).0 in
      let left : d ≡ delete_messages p db =
        ap (λ (x : Db × Result (Unit {0})). x.0) (delete-of db name e.value config c) in
      let c1 : read_queue_config d name ≡ ok config =
        ap (λ (x : Db). read_queue_config x name) left ∙ config-delete_messages db p name ∙ c in
      let after = λ (b : BatchResult (Unit {0})).
        run_entries-messages es d b c1
        ∙ ap (λ (x : Db). select (λ m. not (is_named name es m)) x.messages) left
        ∙ select-select p (is_named name es) db.messages in
      elim (Result-cases (delete db name e.value).1) [
        | inl (u, k) ↦ rw (k, run_entries) (after _)
        | inr (inl (x, k)) ↦ rw (k, run_entries) (after _)
        | inr (inr k) ↦ absurd (delete-answers db name e.value config c k)
      ]

-- A batch of deletions on an existing queue that is not refused as a whole leaves exactly the messages
-- that no entry names by its handle in that queue, whichever entries failed and wherever they stand.
pub delete_batch-messages :
    (db : Db) (name : Bytes) (entries : List (BatchEntry Bytes)) (config : QueueConfig)
    (result : BatchResult (Unit {0}))
    → read_queue_config db name ≡ ok config
    → (delete_batch db name entries).1 ≡ ok result
    → (delete_batch db name entries).0.messages
      ≡ select (λ m. not (is_named name entries m)) db.messages
unfolding delete_batch run_batch
delete_batch-messages db name entries config result c h =
    elim (Result-cases (check_batch db name (map (λ e. e.id) entries))) [
      | inl (u, k) ↦ rw k (run_entries-messages name config entries db _ c)
      | inr (inl (x, k)) ↦ absurd (cc (rw k at h))
      | inr (inr k) ↦ absurd (cc (rw k at h))
    ]
