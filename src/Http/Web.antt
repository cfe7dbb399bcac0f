-- ===== src/Http/Web.antt =====
-- The other crates that the HTTP front end calls, as a parameter: axum, serde_json, serde_urlencoded
-- and base64, next to those of the store.
use lqs.Prelude.{ℕ, Option, List, Bytes}
use lqs.Error.{Fallible}
use lqs.Security.Json.{Json}
use lqs.Queue.External.{External}

pub record Web : Type 0 where
  pub external : External
  -- `serde_json::from_slice::<Value>`, with the text of its error
  pub json_from_slice : Bytes → Fallible Json
  -- `Value::as_u64` on a number
  pub number_u64 : Bytes → Option ℕ
  -- `serde_urlencoded::from_bytes` into a map: its entries in the order in which the map gives them
  pub form_decode : Bytes → Fallible (List (Bytes × Bytes))
  -- `HeaderValue::to_str`
  pub header_text : Bytes → Option Bytes
  -- base64, standard alphabet
  pub base64_encode : Bytes → Bytes
  pub base64_decode : Bytes → Option Bytes
  -- `Sha256::digest`
  pub sha256 : Bytes → Bytes
