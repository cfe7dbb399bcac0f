-- ===== src/Batch.antt =====
-- src/batch.rs: batches of sends, deletions and visibility changes. Each entry commits by itself, in
-- input order.
pub mod Ids
pub mod Once
pub mod Deletes
use lqs.Prelude.{
  ℕ, ◌+◌, Bool, true, false, not, ◌&&◌, ◌||◌, List, [], ◌∷◌, ◌++◌, map, if◌then◌else◌, ltb,
  in_range, ◌==◌, length, is_empty, all, any, Bytes, text, bytes_eq, is_ascii_alphanumeric,
}
use lqs.Prelude.Word.{saturating_add}
use lqs.Error.{LqsError, Result, ok, err, out_of_fuel, ◌>>=◌, ◌>>◌, fail_if, invalid_batch}
use lqs.Attributes.{payload_size}
use lqs.Queue.Types.{SendRequest, SendResult, max_message_bytes}
use lqs.Queue.External.{External}
use lqs.Store.Tables.{Db}
use lqs.Store.Read.{read_queue_config}
use lqs.Store.Send.{send}
use lqs.Store.Visibility.{delete, change_visibility}

pub record BatchEntry (T : Type 0) : Type 0 where
  pub id : Bytes
  pub value : T

pub record BatchResult (T : Type 0) : Type 0 where
  pub successful : List (BatchEntry T)
  pub failed : List (BatchEntry LqsError)

pub record VisibilityChange : Type 0 where
  pub receipt_handle : Bytes
  pub timeout_ms : ℕ

abbrev pub is_id_byte : ℕ → Bool
is_id_byte b = is_ascii_alphanumeric b || b == b'-' || b == b'_'

unfoldable pub valid_entry_id : Bytes → Bool
valid_entry_id id = in_range 1 80 (length id) && all is_id_byte id

-- The loop over the ids; `seen` is the set of those before.
unfoldable pub check_ids : List Bytes → List Bytes → Result (Unit {0})
check_ids seen [] = ok tt
check_ids seen (id ∷ ids) = do
  fail_if (not (valid_entry_id id)) (invalid_batch (text "InvalidBatchEntryId"))
  fail_if (any (bytes_eq id) seen) (invalid_batch (text "BatchEntryIdsNotDistinct"))
  check_ids (id ∷ seen) ids

unfoldable pub validate_batch_ids : List Bytes → Result (Unit {0})
validate_batch_ids ids = do
  fail_if (is_empty ids) (invalid_batch (text "EmptyBatchRequest"))
  fail_if (ltb 10 (length ids)) (invalid_batch (text "TooManyEntriesInBatchRequest"))
  check_ids [] ids

unfoldable pub total_size : ℕ → List ℕ → ℕ
total_size sum [] = sum
total_size sum (n ∷ ns) = total_size (saturating_add sum n) ns

unfoldable pub validate_batch_size : List ℕ → Result (Unit {0})
validate_batch_size sizes =
    fail_if (ltb max_message_bytes (total_size 0 sizes))
      (invalid_batch (text "BatchRequestTooLong"))

-- The entries in input order, each on the tables that the ones before it left.
unfoldable pub run_entries :
    {T R : Type 0}
    → (Db → T → Db × Result R)
    → Db
    → BatchResult R
    → List (BatchEntry T)
    → Db × Result (BatchResult R)
run_entries op db result [] = (db, ok result)
run_entries op db result (e ∷ es) =
    let (db', outcome) = op db e.value in
    elim outcome [
      | ok v ↦
          run_entries op db'
            (record result {
              successful = result.successful ++ record { id = e.id; value = v } ∷ [];
            })
            es
      | err x ↦
          run_entries op db'
            (record result { failed = result.failed ++ record { id = e.id; value = x } ∷ [] }) es
      | out_of_fuel ↦ (db', out_of_fuel)
    ]

-- What precedes the loop: the ids, and that the queue exists.
unfoldable pub check_batch : Db → Bytes → List Bytes → Result (Unit {0})
check_batch db name ids = do validate_batch_ids ids; config ← read_queue_config db name; ok tt

abbrev pub after_check {ℓ} : {A : Type ℓ} → Db → Result (Unit {0}) → Db × Result A → Db × Result A
after_check db (ok _) r = r
after_check db (err e) r = (db, err e)
after_check db out_of_fuel r = (db, out_of_fuel)

unfoldable pub run_batch :
    {T R : Type 0}
    → (Db → T → Db × Result R)
    → Db
    → Bytes
    → List (BatchEntry T)
    → Db × Result (BatchResult R)
run_batch op db name entries =
    after_check db (check_batch db name (map (λ e. e.id) entries))
      (run_entries op db (record { successful = []; failed = [] }) entries)

unfoldable pub send_batch :
    External → Db → Bytes → List (BatchEntry SendRequest) → ℕ → Db × Result (BatchResult SendResult)
send_batch ext db name entries now =
    after_check db
      (validate_batch_size
        (map (λ e. payload_size e.value.body e.value.message_attributes) entries))
      (run_batch (λ db' request. send ext db' name request now) db name entries)

unfoldable pub delete_batch :
    Db → Bytes → List (BatchEntry Bytes) → Db × Result (BatchResult (Unit {0}))
delete_batch db name entries = run_batch (λ db' handle. delete db' name handle) db name entries

unfoldable pub change_visibility_batch :
    Db → Bytes → List (BatchEntry VisibilityChange) → ℕ → Db × Result (BatchResult (Unit {0}))
change_visibility_batch db name entries now =
    run_batch (λ db' change. change_visibility db' name change.receipt_handle change.timeout_ms now)
      db name entries
