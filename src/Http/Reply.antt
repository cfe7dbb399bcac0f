-- ===== src/Http/Reply.antt =====
-- src/http_server.rs: `ApiError`, and results that carry it.
use lqs.Prelude.{ℕ, Bool, true, false, Option, none, some, ◌++◌, Bytes, text}
use lqs.Error.{
  LqsError, access_denied, purge_queue_in_progress, queue_deleted_recently, queue_already_exists,
  queue_not_found, invalid_receipt_handle, database, invalid_batch, over_limit,
  message_not_inflight, Result, ok, err, out_of_fuel,
}
use lqs.Error.Display.{display}

-- A `StatusCode` is its number.
pub record ApiError : Type 0 where
  pub status : ℕ
  pub code : Bytes
  pub message : Bytes

-- `ApiError::new`
abbrev pub api_error : ℕ → Bytes → Bytes → ApiError
api_error status code message = record { status = status; code = code; message = message }

unfoldable pub missing : Bytes → ApiError
missing parameter =
    api_error 400 (text "MissingParameter")
      (text "The request must contain the parameter " ++ (parameter ++ text "."))

unfoldable pub invalid_parameter : Bytes → Bytes → ApiError
invalid_parameter parameter reason =
    api_error 400 (text "InvalidParameterValue")
      (text "Invalid value for " ++ (parameter ++ (text ": " ++ (reason ++ text "."))))

abbrev status_and_code : LqsError → ℕ × Bytes
status_and_code access_denied = (403, text "AccessDenied")
status_and_code purge_queue_in_progress = (400, text "AWS.SimpleQueueService.PurgeQueueInProgress")
status_and_code queue_deleted_recently = (400, text "AWS.SimpleQueueService.QueueDeletedRecently")
status_and_code (queue_already_exists name) = (400, text "QueueNameExists")
status_and_code (queue_not_found name) = (400, text "AWS.SimpleQueueService.NonExistentQueue")
status_and_code (invalid_receipt_handle handle) = (400, text "ReceiptHandleIsInvalid")
status_and_code (database message) = (500, text "InternalError")
status_and_code (invalid_batch code) = (400, code)
status_and_code over_limit = (400, text "OverLimit")
status_and_code message_not_inflight = (400, text "MessageNotInflight")
status_and_code _ = (400, text "InvalidParameterValue")

unfoldable pub map_lqs_error : LqsError → ApiError
map_lqs_error error =
    let (status, code) = status_and_code error in api_error status code (display error)

-- `Result<A, ApiError>`. `stuck` belongs to the model only, as `out_of_fuel` of `Result` does.
pub data Reply {ℓ} (A : Type ℓ) : Type ℓ where
  done : A → Reply A
  refused : ApiError → Reply A
  stuck : Reply A

infixl 5 ◌>>=◌ ◌>>◌
-- `?` on a result that carries an `ApiError` already
abbrev pub ◌>>=◌ {κ ℓ} : {S : Type κ} {T : Type ℓ} → Reply S → (S → Reply T) → Reply T
stuck >>= rest = stuck
refused e >>= rest = refused e
done v >>= rest = rest v

abbrev pub ◌>>◌ {κ} : {T : Type κ} → Reply (Unit {0}) → Reply T → Reply T
first >> rest = first >>= λ nothing. rest

-- `?` with `impl From<LqsError> for ApiError`
abbrev pub from_lqs {ℓ} : {A : Type ℓ} → Result A → Reply A
from_lqs (ok a) = done a
from_lqs (err e) = refused (map_lqs_error e)
from_lqs out_of_fuel = stuck

-- `if test { return Err(e) }`
abbrev pub refuse_if : Bool → ApiError → Reply (Unit {0})
refuse_if true e = refused e
refuse_if false e = done tt

-- `ok_or_else(|| e)?`
abbrev pub or_refuse {ℓ} : {A : Type ℓ} → Option A → ApiError → Reply A
or_refuse none e = refused e
or_refuse (some a) e = done a

-- `option.map(f).transpose()?`
abbrev pub traverse {κ ℓ} : {A : Type κ} {B : Type ℓ} → (A → Reply B) → Option A → Reply (Option B)
traverse f none = done none
traverse f (some a) = f a >>= λ b. done (some b)
