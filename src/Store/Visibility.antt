-- ===== src/Store/Visibility.antt =====
-- src/sqlite_lqs.rs: `delete` and `change_visibility`, the calls that take a receipt handle.
-- `receipt_handle` is UNIQUE, so the number of changed rows is the number of rows that pass.
use lqs.Prelude.{
  ℕ, ◌+◌, Bool, false, ◌&&◌, Option, none, some, if◌then◌else◌, ltb, ◌==◌, any, count, Bytes, text,
  option_eq,
}
use lqs.Prelude.Word.{saturating_add_i64}
use lqs.Error.{
  Result, ok, err, out_of_fuel, invalid_receipt_handle, invalid_delivery_options,
  message_not_inflight,
}
use lqs.Store.Tables.{QueueRow, Message, Db}
use lqs.Store.Read.{ms, find_queue, in_queue, in_flight, read_queue_config}
use lqs.Store.Messages.{delete_messages, update_messages}

-- `queue_name = ?1 AND receipt_handle = ?2`
unfoldable pub has_receipt : Bytes → Bytes → Message → Bool
has_receipt name handle m = in_queue name m && option_eq m.receipt_handle (some handle)

-- With more than one row the DELETE has taken effect all the same, and the error is returned.
unfoldable pub delete : Db → Bytes → Bytes → Db × Result (Unit {0})
delete db name handle = elim (read_queue_config db name) [
  | ok config ↦ (
    delete_messages (has_receipt name handle) db,
    if count (has_receipt name handle) db.messages == 1
        then ok tt
        else err (invalid_receipt_handle handle),
  )
  | err e ↦ (db, err e)
  | out_of_fuel ↦ (db, out_of_fuel)
]

-- The rows that `change_visibility` updates: in flight under this handle, and not expired.
abbrev pub changes : Bytes → Bytes → ℕ → Option QueueRow → Message → Bool
changes name handle now none m = false
changes name handle now (some q) m =
    has_receipt name handle m && in_flight name now q.message_retention_ms m

abbrev pub with_deadline : ℕ → Message → Message
with_deadline until m = record m {
  invisible_until_ms = some until;
  visibility_revision = m.visibility_revision + 1;
}

unfoldable pub change_rows : Db → Bytes → Bytes → ℕ → ℕ → Db × Result (Unit {0})
change_rows db name handle timeout now =
    let hit = changes name handle (ms now) (find_queue db name) in
    (
      update_messages hit (with_deadline (saturating_add_i64 (ms now) (ms timeout))) db,
      if count hit db.messages == 1
          then ok tt
          else if any (has_receipt name handle) db.messages
          then err message_not_inflight
          else err (invalid_receipt_handle handle),
    )

unfoldable pub change_visibility : Db → Bytes → Bytes → ℕ → ℕ → Db × Result (Unit {0})
change_visibility db name handle timeout now =
    if ltb 43200000 timeout
    then (db, err (invalid_delivery_options (text "visibility timeout must be 0-43200000ms")))
    else (elim (read_queue_config db name) [
      | ok config ↦ change_rows db name handle timeout now
      | err e ↦ (db, err e)
      | out_of_fuel ↦ (db, out_of_fuel)
    ])
