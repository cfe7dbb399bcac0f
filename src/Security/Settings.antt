-- ===== src/Security/Settings.antt =====
-- src/security.rs: `QueueSecurity`, its validation and its partial update.
pub mod Encryption
use lqs.Prelude.{
  ℕ, Bool, true, false, not, ◌&&◌, ◌||◌, Option, none, some, if◌then◌else◌, ltb, in_range, length,
  is_empty, all, Bytes, text, is_ascii_graphic,
}
use lqs.Error.{Result, ok, err, ◌>>=◌, ◌>>◌, fail_if}
use lqs.Security.Json.{Json}
use lqs.Security.Names.{invalid}
use lqs.Security.Policy.{parse_policy}

pub record QueueSecurity : Type 0 where
  pub policy : Option Bytes
  pub sqs_managed_sse_enabled : Bool
  pub kms_master_key_id : Option Bytes
  pub kms_data_key_reuse_period_seconds : ℕ

-- `QueueSecurity::default`
abbrev pub default_security : QueueSecurity
default_security = record {
  policy = none;
  sqs_managed_sse_enabled = false;
  kms_master_key_id = none;
  kms_data_key_reuse_period_seconds = 300;
}

-- `policy = some none` removes the policy.
pub record SecurityUpdate : Type 0 where
  pub policy : Option (Option Bytes)
  pub sqs_managed_sse_enabled : Option Bool
  pub kms_master_key_id : Option Bytes
  pub kms_data_key_reuse_period_seconds : Option ℕ

abbrev pub unwrap_or {ℓ} : {A : Type ℓ} → Option A → A → A
unwrap_or none d = d
unwrap_or (some a) d = a

unfoldable pub validate_key : Option Bytes → Bool → Result (Unit {0})
validate_key none sse = ok tt
validate_key (some key) sse = do
  fail_if (is_empty key || ltb 2048 (length key) || not (all is_ascii_graphic key))
      (invalid (text "KmsMasterKeyId must be 1-2048 printable ASCII bytes"))
  fail_if sse (invalid (text "SSE-SQS and KMS cannot both be enabled"))

unfoldable pub validate_policy : (Bytes → Option Json) → Option Bytes → Result (Unit {0})
validate_policy parse none = ok tt
validate_policy parse (some policy) = do root ← parse_policy parse policy; ok tt

unfoldable pub validate_security : (Bytes → Option Json) → QueueSecurity → Result (Unit {0})
validate_security parse s = do
  fail_if (not (in_range 60 86400 s.kms_data_key_reuse_period_seconds))
      (invalid (text "KmsDataKeyReusePeriodSeconds must be 60-86400"))
  validate_key s.kms_master_key_id s.sqs_managed_sse_enabled
  validate_policy parse s.policy

abbrev names_key : Option Bytes → Bool
names_key none = false
names_key (some key) = not (is_empty key)

-- `Some("")` disables the key, and a key switches the managed encryption off.
unfoldable pub with_key : Option Bytes → QueueSecurity → QueueSecurity
with_key none s = s
with_key (some key) s =
    if is_empty key
    then record s { kms_master_key_id = none }
    else record s { kms_master_key_id = some key; sqs_managed_sse_enabled = false }

unfoldable pub with_sse : Option Bool → Option Bytes → QueueSecurity → Result QueueSecurity
with_sse none key s = ok s
with_sse (some enabled) key s =
    if enabled && names_key key
    then err (invalid (text "SSE-SQS and KMS cannot both be enabled"))
    else if enabled
    then ok (record s { sqs_managed_sse_enabled = true; kms_master_key_id = none })
    else ok (record s { sqs_managed_sse_enabled = false })

-- `QueueSecurity::updated`
unfoldable pub updated :
    (Bytes → Option Json) → QueueSecurity → SecurityUpdate → Result QueueSecurity
updated parse s u = do
  let plain = record s {
    policy = unwrap_or u.policy s.policy;
    kms_data_key_reuse_period_seconds =
        unwrap_or u.kms_data_key_reuse_period_seconds s.kms_data_key_reuse_period_seconds;
  }
  result ←
      with_sse u.sqs_managed_sse_enabled u.kms_master_key_id (with_key u.kms_master_key_id plain)
  validate_security parse result
  ok result
