-- ===== src/Queue/External.antt =====
-- The other crates that the repository calls, as a parameter: sha2, md5, serde_json, base64, and
-- the Unicode tables of `char`.
use lqs.Prelude.{ℕ, Bool, Option, List, Bytes}
use lqs.Error.{Fallible}
use lqs.Attributes.{MessageAttributes}
use lqs.Security.Json.{Json}
use lqs.Queue.Types.{ReceivedMessage}

pub record External : Type 0 where
  -- `format!("{:x}", Sha256::digest(_))` and `format!("{:x}", md5)`
  pub sha256_hex : Bytes → Bytes
  pub md5_hex : Bytes → Bytes
  -- `serde_json::from_str::<Value>` and `Value::to_string`
  pub json_parse : Bytes → Option Json
  pub json_print : Json → Bytes
  -- `serde_json::to_string` and `from_str` at the stored types
  pub attributes_to_json : MessageAttributes → Fallible Bytes
  pub attributes_from_json : Bytes → Fallible MessageAttributes
  pub received_to_json : List ReceivedMessage → Fallible Bytes
  pub received_from_json : Bytes → Fallible (List ReceivedMessage)
  -- the ListQueues cursor: base64 of the JSON of (version, prefix, last name)
  pub cursor_encode : ℕ × Bytes × Bytes → Fallible Bytes
  pub cursor_decode : Bytes → Option (ℕ × Bytes × Bytes)
  -- `char::is_control`, `char::is_alphanumeric`, `char::is_whitespace`
  pub is_control : ℕ → Bool
  pub is_alphanumeric : ℕ → Bool
  pub is_whitespace : ℕ → Bool
