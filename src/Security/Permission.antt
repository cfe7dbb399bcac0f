-- ===== src/Security/Permission.antt =====
-- src/security.rs: `add_permission` and `remove_permission`. `parse` and `print` are
-- `serde_json::from_str` and `Value::to_string`.
use lqs.Prelude.{
  Bool, not, ◌||◌, Option, none, some, List, [], ◌∷◌, ◌++◌, map, ltb, length, is_empty, all, any,
  select, Bytes, text, bytes_eq,
}
use lqs.Error.{Result, ok, ◌>>=◌, ◌>>◌, fail_if}
use lqs.Security.Json.{
  Json, string, array, object, Items, Fields, of_list, get, or_null, is_text, set_field,
}
use lqs.Security.Names.{invalid, actions, account, arn_prefix, validate_label}
use lqs.Security.Policy.{statements, parse_policy}

-- `item["Sid"] == label`
unfoldable pub has_sid : Bytes → Json → Bool
has_sid label item = is_text (or_null (get item (text "Sid"))) label

unfoldable pub grantable_action : Bytes → Bool
grantable_action action = bytes_eq action (b'*' ∷ []) || any (bytes_eq action) actions

-- The entries of an object are in key order.
unfoldable pub grant : Bytes → Bytes → List Bytes → List Bytes → Json
grant queue label accounts names = object (
    Fields.field (text "Action") (array (of_list (map (λ a. string (text "sqs:" ++ a)) names))) (
      Fields.field (text "Effect") (string (text "Allow")) (
        Fields.field (text "Principal")
          (object (Fields.field (text "AWS") (array (of_list (map string accounts))) Fields.end))
          (Fields.field (text "Resource") (string (arn_prefix ++ queue))
            (Fields.field (text "Sid") (string label) Fields.end)))))

unfoldable pub empty_policy : Json
empty_policy = object (
    Fields.field (text "Statement") (array Items.nil)
      (Fields.field (text "Version") (string (text "2012-10-17")) Fields.end))

unfoldable pub with_statements : Json → List Json → Json
with_statements (object fs) items = object (set_field (text "Statement") (array (of_list items)) fs)
with_statements v items = v

unfoldable pub existing_policy : (Bytes → Option Json) → Option Bytes → Result Json
existing_policy parse none = ok empty_policy
existing_policy parse (some encoded) = parse_policy parse encoded

unfoldable pub add_permission :
    (Bytes → Option Json)
    → (Json → Bytes)
    → Option Bytes
    → Bytes
    → Bytes
    → List Bytes
    → List Bytes
    → Result Bytes
add_permission parse print existing queue label accounts names = do
  validate_label label
  fail_if
      (is_empty accounts
        || not (all account accounts)
        || is_empty names
        || ltb 7 (length names)
        || not (all grantable_action names))
      (invalid (text "AddPermission requires account IDs and 1-7 supported action names"))
  policy ← existing_policy parse existing
  items ← statements policy
  fail_if (any (has_sid label) items) (invalid (text "permission Label already exists"))
  let encoded = print (with_statements policy (items ++ grant queue label accounts names ∷ []))
  root ← parse_policy parse encoded
  ok encoded

unfoldable pub remove_permission :
    (Bytes → Option Json) → (Json → Bytes) → Option Bytes → Bytes → Result (Option Bytes)
remove_permission parse print none label = do validate_label label; ok none
remove_permission parse print (some existing) label = do
  validate_label label
  policy ← parse_policy parse existing
  items ← statements policy
  ok (some (print (with_statements policy (select (λ item. not (has_sid label item)) items))))
