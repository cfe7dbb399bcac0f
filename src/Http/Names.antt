-- ===== src/Http/Names.antt =====
-- src/http_server.rs: the queue that a request names, and the values of attributes.
use lqs.Prelude.{
  ℕ, Bool, true, false, not, ◌&&◌, ◌||◌, Option, none, some, List, ◌++◌, if◌then◌else◌, in_range,
  ◌==◌, all, length, is_empty, trim_end, Bytes, text, bytes_eq, is_ascii_alphanumeric,
}
use lqs.Prelude.Print.{decimal}
use lqs.Prelude.Parse.{before_first, after_last, strip_suffix, map_get, parse_u64}
use lqs.Security.Settings.{unwrap_or}
use lqs.Http.Reply.{
  missing, invalid_parameter, Reply, done, refused, ◌>>=◌, ◌>>◌, or_refuse, refuse_if,
}
use lqs.Http.Wire.{WireRequest, string_of}

abbrev pub is_slash : ℕ → Bool
is_slash b = b == b'/'

-- The last part of a URL's or a path's text before any `?`, its trailing slashes aside.
unfoldable pub last_segment : Bytes → Bytes
last_segment source = after_last b'/' (trim_end is_slash (before_first b'?' source))

unfoldable pub queue_name : Bytes → WireRequest → Reply Bytes
queue_name path r = do
  let name = last_segment (unwrap_or (string_of r (text "QueueUrl")) path)
  refuse_if (is_empty name) (missing (text "QueueUrl"))
  done name

abbrev pub is_name_byte : ℕ → Bool
is_name_byte b = is_ascii_alphanumeric b || b == b'-' || b == b'_'

unfoldable pub valid_queue_name : Bytes → Bool
valid_queue_name name =
    let stem = unwrap_or (strip_suffix (text ".fifo") name) name in
    in_range 1 80 (length name) && not (is_empty stem) && all is_name_byte stem

unfoldable pub validate_queue_name : Bytes → Reply (Unit {0})
validate_queue_name name = refuse_if (not (valid_queue_name name)) (
    invalid_parameter (text "QueueName") (
      text
        "must be 1-80 characters containing letters, digits, hyphens, or underscores, with an optional .fifo suffix"))

-- The entries of a `HashMap<String, String>` whose order nothing depends on, in key order.
abbrev pub Attributes : Type 0
Attributes = List (Bytes × Bytes)

abbrev bool_value : Bytes → Option Bytes → Reply (Option Bool)
bool_value name none = done none
bool_value name (some v) =
    if bytes_eq v (text "true")
    then done (some true)
    else if bytes_eq v (text "false")
    then done (some false)
    else refused (invalid_parameter name (text "must be true or false"))

unfoldable pub parse_bool_attribute : Attributes → Bytes → Reply (Option Bool)
parse_bool_attribute attributes name = bool_value name (map_get name attributes)

unfoldable pub parse_seconds : Bytes → Bytes → ℕ → ℕ → Reply ℕ
parse_seconds name v minimum maximum = do
  seconds ← or_refuse (parse_u64 v) (invalid_parameter name (text "must be an integer"))
  refuse_if (not (in_range minimum maximum seconds)) (
      invalid_parameter name
        (text "must be between " ++ (decimal minimum ++ (text " and " ++ decimal maximum))))
  done seconds
