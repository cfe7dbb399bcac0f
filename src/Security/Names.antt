-- ===== src/Security/Names.antt =====
-- src/security.rs: actions, principals and request identities.
use lqs.Prelude.{
  ℕ, Bool, false, not, ◌&&◌, ◌||◌, List, [], ◌∷◌, ◌++◌, map, if◌then◌else◌, ltb, leb, in_range,
  ◌==◌, length, is_empty, all, Bytes, text, bytes_eq, is_ascii_digit, is_ascii_graphic,
  is_ascii_alphanumeric, starts_with, split, splitn,
}
use lqs.Error.{Result, ok, err, access_denied, invalid_security_settings, LqsError, fail_if}

pub data RequestIdentity : Type 0 where
  anonymous : RequestIdentity
  aws : Bytes → RequestIdentity

unfoldable pub arn_prefix : Bytes
arn_prefix = text "arn:aws:sqs:us-east-1:000000000000:"

abbrev pub invalid : Bytes → LqsError
invalid reason = invalid_security_settings reason

unfoldable pub permission_action : Bytes → Bytes
permission_action action =
    if bytes_eq action (text "SendMessageBatch")
    then text "SendMessage"
    else if bytes_eq action (text "DeleteMessageBatch")
    then text "DeleteMessage"
    else if bytes_eq action (text "ChangeMessageVisibilityBatch")
    then text "ChangeMessageVisibility"
    else action

unfoldable pub actions : List Bytes
actions = map text (
    "AddPermission" ∷ "RemovePermission" ∷ "CreateQueue" ∷ "DeleteQueue" ∷ "GetQueueAttributes"
    ∷ "GetQueueUrl" ∷ "ListDeadLetterSourceQueues" ∷ "ListQueues" ∷ "ListQueueTags" ∷ "PurgeQueue"
    ∷ "ReceiveMessage" ∷ "SendMessage" ∷ "DeleteMessage" ∷ "ChangeMessageVisibility"
    ∷ "SetQueueAttributes" ∷ "TagQueue" ∷ "UntagQueue" ∷ "StartMessageMoveTask"
    ∷ "CancelMessageMoveTask" ∷ "ListMessageMoveTasks" ∷ [])

unfoldable pub account : Bytes → Bool
account value = length value == 12 && all is_ascii_digit value

abbrev is_principal_byte : ℕ → Bool
is_principal_byte b = is_ascii_graphic b && not (b == b'*') && not (b == b'?')

abbrev long_with : Bytes → Bytes → Bool
long_with prefix part = starts_with part prefix && ltb 5 (length part)

-- The six parts of `arn:aws:iam::<account>:<entity>`.
unfoldable pub iam_parts : List Bytes → Bool
iam_parts (a ∷ b ∷ c ∷ d ∷ e ∷ f ∷ []) =
    bytes_eq a (text "arn")
    && bytes_eq b (text "aws")
    && bytes_eq c (text "iam")
    && is_empty d
    && account e
    && (bytes_eq f (text "root") || long_with (text "user/") f || long_with (text "role/") f)
iam_parts _ = false

unfoldable pub valid_principal : Bytes → Bool
valid_principal value =
    bytes_eq value (b'*' ∷ [])
    || account value
    || (iam_parts (splitn 5 b':' value) && leb (length value) 2048 && all is_principal_byte value)

-- `RequestIdentity::aws`
unfoldable pub aws_identity : Bytes → Result RequestIdentity
aws_identity value =
    if not (valid_principal value) || bytes_eq value (b'*' ∷ [])
    then err access_denied
    else ok (aws value)

-- `.split(':').nth(4).unwrap_or("")`
abbrev nth_4 : List Bytes → Bytes
nth_4 (_ ∷ _ ∷ _ ∷ _ ∷ e ∷ _) = e
nth_4 _ = []

unfoldable pub identity_account : Bytes → Bytes
identity_account identity = if account identity then identity else nth_4 (split b':' identity)

unfoldable pub principal_matches : Bytes → RequestIdentity → Bool
principal_matches principal anonymous = bytes_eq principal (b'*' ∷ [])
principal_matches principal (aws identity) =
    bytes_eq principal (b'*' ∷ [])
    || bytes_eq principal identity
    || (account principal && bytes_eq principal (identity_account identity))
    || bytes_eq principal (text "arn:aws:iam::" ++ (identity_account identity ++ text ":root"))

abbrev is_label_byte : ℕ → Bool
is_label_byte b = is_ascii_alphanumeric b || b == b'-' || b == b'_'

unfoldable pub validate_label : Bytes → Result (Unit {0})
validate_label label =
    fail_if (not (in_range 1 80 (length label)) || not (all is_label_byte label))
      (invalid (text "Label must be 1-80 ASCII alphanumeric, hyphen or underscore characters"))
