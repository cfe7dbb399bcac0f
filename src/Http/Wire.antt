-- ===== src/Http/Wire.antt =====
-- src/http_server.rs: `WireRequest`, one request in either protocol, and its parameters.
use lqs.Prelude.{
  ℕ, Bool, Option, none, some, List, [], ◌∷◌, ◌++◌, if◌then◌else◌, any, Bytes, text, bytes_eq,
}
use lqs.Prelude.Parse.{map_get, parse_u64, after_last}
use lqs.Error.{Fallible, value, failure}
use lqs.Security.Json.{Json, number, string, get}
use lqs.Http.Reply.{api_error, missing, invalid_parameter, Reply, done, refused, ◌>>=◌, or_refuse}
use lqs.Http.Web.{Web}

pub data Protocol : Type 0 where
  json_protocol query_protocol : Protocol

-- A `HeaderMap`: its entries with lower-case names, the values of one name in their order.
abbrev pub Headers : Type 0
Headers = List (Bytes × Bytes)

abbrev pub has_header : Bytes → Headers → Bool
has_header name headers = any (λ h. bytes_eq h.0 name) headers

unfoldable pub protocol_from_headers : Headers → Protocol
protocol_from_headers headers =
    if has_header (text "x-amz-target") headers then json_protocol else query_protocol

-- `query` has the map's entries in the order in which it gives them, each key once.
pub record WireRequest : Type 0 where
  pub protocol : Protocol
  pub action : Bytes
  pub json : Option Json
  pub query : List (Bytes × Bytes)

-- `.map_err(|error| …)?` on a decoder
abbrev decoded {ℓ} : {A : Type ℓ} → Bytes → Fallible A → Reply A
decoded what (value a) = done a
decoded what (failure reason) =
    refused (api_error 400 (text "InvalidParameterValue") (what ++ reason))

abbrev header_value : Web → Option Bytes → Option Bytes
header_value web none = none
header_value web (some v) = web.header_text v

unfoldable pub parse_json : Web → Headers → Bytes → Reply WireRequest
parse_json web headers body = do
  target ←
      or_refuse (header_value web (map_get (text "x-amz-target") headers))
        (missing (text "X-Amz-Target"))
  json ← decoded (text "invalid JSON request: ") (web.json_from_slice body)
  done (record {
    protocol = json_protocol;
    action = after_last b'.' target;
    json = some json;
    query = [];
  })

unfoldable pub parse_query : Web → Bytes → Reply WireRequest
parse_query web body = do
  query ← decoded (text "invalid query request: ") (web.form_decode body)
  action ← or_refuse (map_get (text "Action") query) (missing (text "Action"))
  done (record { protocol = query_protocol; action = action; json = none; query = query })

-- `WireRequest::parse`
unfoldable pub parse_wire : Web → Headers → Bytes → Reply WireRequest
parse_wire web headers body = elim (protocol_from_headers headers) [
  | json_protocol ↦ parse_json web headers body
  | query_protocol ↦ parse_query web body
]

abbrev get_of : Option Json → Bytes → Option Json
get_of none name = none
get_of (some v) name = get v name

-- `self.json.as_ref().and_then(|json| json.get(name))`
abbrev pub json_field : WireRequest → Bytes → Option Json
json_field r name = get_of r.json name

-- `Value::as_str`
abbrev pub as_str : Json → Option Bytes
as_str (string s) = some s
as_str _ = none

abbrev as_str_of : Option Json → Option Bytes
as_str_of none = none
as_str_of (some v) = as_str v

abbrev or_query : Option Bytes → Option Bytes → Option Bytes
or_query none q = q
or_query (some s) q = some s

-- `WireRequest::string`
unfoldable pub string_of : WireRequest → Bytes → Option Bytes
string_of r name = or_query (as_str_of (json_field r name)) (map_get name r.query)

abbrev nonempty : Option Bytes → Option Bytes
nonempty none = none
nonempty (some []) = none
nonempty (some (b ∷ s)) = some (b ∷ s)

unfoldable pub required_string : WireRequest → Bytes → Reply Bytes
required_string r name = or_refuse (nonempty (string_of r name)) (missing name)

unfoldable pub optional_string : WireRequest → Bytes → Reply (Option Bytes)
optional_string r name = elim (json_field r name) [
  | none ↦ done (string_of r name)
  | some v ↦ (do
    s ← or_refuse (as_str v) (invalid_parameter name (text "must be a string"))
    done (some s))
]

-- `Value::as_u64`
abbrev pub as_u64 : Web → Json → Option ℕ
as_u64 web (number n) = web.number_u64 n
as_u64 web _ = none

abbrev unsigned_text : Bytes → Option Bytes → Reply (Option ℕ)
unsigned_text name none = done none
unsigned_text name (some s) = do
  n ← or_refuse (parse_u64 s) (invalid_parameter name (text "must be a non-negative integer"))
  done (some n)

unfoldable pub unsigned : Web → WireRequest → Bytes → Reply (Option ℕ)
unsigned web r name = elim (json_field r name) [
  | none ↦ unsigned_text name (string_of r name)
  | some v ↦ (do
    n ← or_refuse (as_u64 web v) (invalid_parameter name (text "must be a non-negative integer"))
    done (some n))
]
