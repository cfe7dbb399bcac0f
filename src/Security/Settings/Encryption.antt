-- ===== src/Security/Settings/Encryption.antt =====
-- src/security.rs `QueueSecurity::updated`: one kind of encryption at most.
use lqs.Prelude.{
  Bool, true, false, not, ◌||◌, Option, none, some, ◌≡◌, refl, subst, ◌⊎◌, inl, inr, arith, ltb,
  in_range, length, is_empty, all, Bytes, is_ascii_graphic,
}
use lqs.Error.{ok, >>=-eq-ok, >>-eq-ok, fail_if, fail_if-eq-ok}
use lqs.Security.Json.{Json}
use lqs.Security.Settings.{
  QueueSecurity, SecurityUpdate, validate_key, validate_security, with_sse, updated,
}

-- No key is named, or the managed encryption is off; and the reuse period is in its range.
abbrev pub Exclusive : QueueSecurity → Type 0
Exclusive s =
    ((s.kms_master_key_id ≡ none) ⊎ (s.sqs_managed_sse_enabled ≡ false))
    × (in_range 60 86400 s.kms_data_key_reuse_period_seconds ≡ true)

validate_key-excludes :
    (key : Option Bytes) (sse : Bool) → validate_key key sse ≡ ok tt → (key ≡ none) ⊎ (sse ≡ false)
unfolding validate_key
validate_key-excludes none sse h = inl refl
validate_key-excludes (some key) sse h =
    let (printable, h1) =
      >>-eq-ok (fail_if (is_empty key || ltb 2048 (length key) || not (all is_ascii_graphic key)) _)
        _ h in
    inr (fail_if-eq-ok _ _ h1)

in_its_range : (b : Bool) → not b ≡ false → b ≡ true
in_its_range b h = ground arith

validate_security-Exclusive :
    (parse : Bytes → Option Json) (s : QueueSecurity)
    → validate_security parse s ≡ ok tt
    → Exclusive s
unfolding validate_security
validate_security-Exclusive parse s h =
    let (range, h1) =
      >>-eq-ok (fail_if (not (in_range 60 86400 s.kms_data_key_reuse_period_seconds)) _) _ h in
    let (key, h2) = >>-eq-ok (validate_key s.kms_master_key_id s.sqs_managed_sse_enabled) _ h1 in
    (
      validate_key-excludes s.kms_master_key_id s.sqs_managed_sse_enabled key,
      in_its_range _ (fail_if-eq-ok _ _ range),
    )

ok_same : (a b : QueueSecurity) → ok a ≡ ok b → a ≡ b
ok_same a b h = cc

-- Whatever the present settings and the update are, settings that `updated` returns never have both
-- the managed encryption and a KMS key, and their key reuse period is 60 to 86400 seconds.
pub updated-Exclusive :
    (parse : Bytes → Option Json) (s : QueueSecurity) (u : SecurityUpdate) (r : QueueSecurity)
    → updated parse s u ≡ ok r
    → Exclusive r
unfolding updated
updated-Exclusive parse s u r h =
    let (result, e, h1) =
      >>=-eq-ok (with_sse u.sqs_managed_sse_enabled u.kms_master_key_id _) _ h in
    let (valid, h2) = >>-eq-ok (validate_security parse result) _ h1 in
    subst Exclusive (ok_same result r h2) (validate_security-Exclusive parse result valid)
