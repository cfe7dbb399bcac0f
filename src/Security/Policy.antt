-- ===== src/Security/Policy.antt =====
-- src/security.rs: `strings`, `statements`, `parse_policy`. `parse` is `serde_json::from_str`.
use lqs.Prelude.{
  ℕ, ◌+◌, Bool, true, false, not, ◌&&◌, ◌||◌, Option, none, some, List, [], ◌∷◌, ◌++◌,
  if◌then◌else◌, ltb, ◌==◌, length, all, any, Bytes, text, bytes_eq, contains_text,
  is_ascii_graphic, to_ascii_lowercase, starts_with, split,
}
use lqs.Error.{Result, ok, err, ◌>>=◌, ◌>>◌, fail_if, or_fail}
use lqs.Security.Json.{
  Json, string, array, object, Items, Fields, to_list, keys, get_field, get, or_null, is_text,
}
use lqs.Security.Names.{invalid, actions, valid_principal}
use lqs.Security.Glob.{glob}

abbrev member : List Bytes → Bytes → Bool
member names name = any (bytes_eq name) names

-- `.as_str().filter(|s| !s.is_empty())`
abbrev nonempty_text : Json → Option Bytes
nonempty_text (string []) = none
nonempty_text (string (b ∷ s)) = some (b ∷ s)
nonempty_text _ = none

unfoldable pub texts : List Json → Result (List Bytes)
texts [] = ok []
texts (v ∷ vs) = do
  s ← or_fail (nonempty_text v) (invalid (text "policy lists must contain nonempty strings"))
  rest ← texts vs
  ok (s ∷ rest)

unfoldable pub strings : Json → Result (List Bytes)
strings (string (b ∷ s)) = ok ((b ∷ s) ∷ [])
strings (array (Items.cons v vs)) = texts (v ∷ to_list vs)
strings _ = err (invalid (text "policy fields must be a nonempty string or string list"))

unfoldable pub as_statements : Json → Result (List Json)
as_statements (array values) = ok (to_list values)
as_statements (object fs) = ok (object fs ∷ [])
as_statements _ = err (invalid (text "Policy.Statement must be an object or array"))

unfoldable pub statements : Json → Result (List Json)
statements policy = as_statements (or_null (get policy (text "Statement")))

unfoldable pub as_object : Json → Option Fields
as_object (object fs) = some fs
as_object _ = none

abbrev is_string : Json → Bool
is_string (string _) = true
is_string _ = false

abbrev absent_or : (Json → Bool) → Option Json → Bool
absent_or p none = true
absent_or p (some v) = p v

unfoldable pub supported_root : Fields → Bool
supported_root root =
    all (member (text "Version" ∷ text "Id" ∷ text "Statement" ∷ [])) (keys root)
    && absent_or (λ v. is_text v (text "2012-10-17") || is_text v (text "2008-10-17"))
        (get_field root (text "Version"))
    && absent_or is_string (get_field root (text "Id"))

-- What the loop over the statements carries: the Sids seen and the number of principals.
pub record Seen : Type 0 where
  pub ids : List Bytes
  pub principals : ℕ

unfoldable pub check_sid : Option Json → List Bytes → Result (List Bytes)
check_sid none ids = ok ids
check_sid (some v) ids = do
  sid ← or_fail (nonempty_text v) (invalid (text "Sid must be a nonempty string"))
  fail_if (member ids sid) (invalid (text "statement Sids must be unique"))
  ok (sid ∷ ids)

-- `Some("Allow" | "Deny")`
unfoldable pub valid_effect : Option Json → Bool
valid_effect none = false
valid_effect (some v) = is_text v (text "Allow") || is_text v (text "Deny")

unfoldable pub only_aws : Fields → Result Json
only_aws fs = elim (get_field fs (text "AWS")) [
  | none ↦ err (invalid (text "only AWS principals or wildcard are supported"))
  | some v ↦
      if length (keys fs) == 1
      then ok v
      else err (invalid (text "only AWS principals or wildcard are supported"))
]

unfoldable pub wildcard_only : Json → Result Json
wildcard_only v =
    if is_text v (text "*")
    then ok v
    else err (invalid (text "use Principal.AWS for account or IAM identities"))

unfoldable pub principal_value : Json → Result Json
principal_value (object fs) = only_aws fs
principal_value v = wildcard_only v

unfoldable pub known_action : Bytes → Bool
known_action pattern =
    any (λ action. glob (to_ascii_lowercase pattern) (to_ascii_lowercase (text "sqs:" ++ action)))
      actions

unfoldable pub valid_resource : Bytes → Bool
valid_resource resource =
    bytes_eq resource (text "*")
    || (starts_with resource (text "arn:aws:sqs:")
        && length (split b':' resource) == 6
        && not (contains_text resource (text "${"))
        && all is_ascii_graphic resource)

unfoldable pub supported_fields : Fields → Bool
supported_fields item =
    all
      (member
        (text "Sid" ∷ text "Effect" ∷ text "Principal" ∷ text "Action" ∷ text "Resource" ∷ []))
      (keys item)

unfoldable pub check_statement : Json → Seen → Result Seen
check_statement value seen = do
  item ← or_fail (as_object value) (invalid (text "statements must be objects"))
  fail_if (not (supported_fields item)) (
      invalid (
        text
          "Condition, NotAction, NotResource, NotPrincipal and other unsupported fields are rejected"))
  ids ← check_sid (get_field item (text "Sid")) seen.ids
  fail_if (not (valid_effect (get_field item (text "Effect"))))
      (invalid (text "Effect must be Allow or Deny"))
  given ← or_fail (get_field item (text "Principal")) (invalid (text "Principal is required"))
  principal ← principal_value given
  values ← strings principal
  let principals = seen.principals + length values
  fail_if (ltb 50 principals || not (all valid_principal values))
      (invalid (text "invalid or too many AWS principals"))
  patterns ← strings (or_null (get_field item (text "Action")))
  fail_if (ltb 7 (length patterns) || not (all known_action patterns))
      (invalid (text "Action must match supported sqs actions (maximum seven per statement)"))
  resources ← strings (or_null (get_field item (text "Resource")))
  fail_if (not (all valid_resource resources))
      (invalid (text "Resource must be an SQS ARN pattern or wildcard"))
  ok (record { ids = ids; principals = principals })

unfoldable pub check_statements : List Json → Seen → Result (Unit {0})
check_statements [] seen = ok tt
check_statements (v ∷ vs) seen = do seen' ← check_statement v seen; check_statements vs seen'

unfoldable pub parse_policy : (Bytes → Option Json) → Bytes → Result Json
parse_policy parse encoded = do
  fail_if (ltb 8192 (length encoded)) (invalid (text "Policy is limited to 8192 bytes"))
  policy ← or_fail (parse encoded) (invalid (text "Policy must be JSON"))
  root ← or_fail (as_object policy) (invalid (text "Policy must be an object"))
  fail_if (not (supported_root root)) (invalid (text "unsupported policy field or version"))
  items ← statements policy
  fail_if (ltb 20 (length items)) (invalid (text "Policy is limited to 20 statements"))
  check_statements items (record { ids = []; principals = 0 })
  ok policy
