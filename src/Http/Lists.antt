-- ===== src/Http/Lists.antt =====
-- Lists in a request: `list` of src/security_http.rs, and `tag_keys` and `destructive_queue` of
-- src/management_http.rs.
use lqs.Prelude.{
  ℕ, Bool, true, false, not, ◌&&◌, Option, none, some, List, [], ◌∷◌, ◌++◌, map, if◌then◌else◌,
  trim_end, Bytes, text, bytes_eq,
}
use lqs.Prelude.Parse.{strip_prefix, parse_index, index_insert, index_get}
use lqs.Security.Json.{Json, array, Items, to_list}
use lqs.Security.Settings.{unwrap_or}
use lqs.Http.Reply.{missing, invalid_parameter, Reply, done, ◌>>=◌, ◌>>◌, or_refuse, refuse_if}
use lqs.Http.Wire.{WireRequest, json_field, optional_string}
use lqs.Http.Names.{is_slash, queue_name, validate_queue_name}
use lqs.Http.Answer.{queue_url}
use lqs.Http.Configuration.{strings_or}

abbrev as_array : Json → Option Items
as_array (array values) = some values
as_array _ = none

-- A list of strings that a JSON request must have.
unfoldable pub required_strings : WireRequest → Bytes → Reply (List Bytes)
required_strings r name = do
  v ← or_refuse (json_field r name) (missing name)
  values ← or_refuse (as_array v) (invalid_parameter name (text "must be a string list"))
  strings_or name (text "must be a string list") (to_list values)

-- The index of a query's key: `1` for the name itself, and what follows `name.` otherwise.
unfoldable pub index_of : Bytes → Bytes → Option Bytes
index_of name key =
    if bytes_eq key name then some (b'1' ∷ []) else strip_prefix (name ++ text ".") key

abbrev is_taken : Option Bytes → Bool
is_taken none = false
is_taken (some v) = true

unfoldable pub indexed_values :
    Bytes → Bytes → List (Bytes × Bytes) → List (ℕ × Bytes) → Reply (List (ℕ × Bytes))
indexed_values parameter name [] values = done values
indexed_values parameter name ((key, v) ∷ query) values = elim (index_of name key) [
  | none ↦ indexed_values parameter name query values
  | some index ↦ (do
    n ← or_refuse (parse_index index) (invalid_parameter parameter (text "invalid index"))
    refuse_if (is_taken (index_get n values)) (invalid_parameter parameter (text "duplicate entry"))
    indexed_values parameter name query (index_insert n v values))
]

-- `list`
unfoldable pub permission_list : WireRequest → Bytes → Bytes → Reply (List Bytes)
permission_list r json_name query_name = elim r.json [
  | some v ↦ required_strings r json_name
  | none ↦ (do
    values ← indexed_values json_name query_name r.query []
    done (map (λ e. e.1) values))
]

abbrev bad_index : Option ℕ → Bool
bad_index none = true
bad_index (some n) = false

-- The keys of a query map, in the order in which it gives them.
unfoldable pub query_keys : List (Bytes × Bytes) → Reply (List Bytes)
query_keys [] = done []
query_keys ((key, v) ∷ query) = elim (index_of (text "TagKey") key) [
  | none ↦ query_keys query
  | some index ↦ (do
    refuse_if (bad_index (parse_index index))
        (invalid_parameter (text "TagKeys") (text "invalid index"))
    rest ← query_keys query
    done (v ∷ rest))
]

unfoldable pub tag_keys : WireRequest → Reply (List Bytes)
tag_keys r = elim r.json [
  | some v ↦ required_strings r (text "TagKeys")
  | none ↦ query_keys r.query
]

-- The queue of an action that destroys: named by this server's exact URL or path of it.
unfoldable pub destructive_queue : Bytes → Bytes → WireRequest → Reply Bytes
destructive_queue public_base_url path r = do
  given ← optional_string r (text "QueueUrl")
  let source = trim_end is_slash (unwrap_or given path)
  name ← queue_name path r
  validate_queue_name name
  refuse_if
      (not (bytes_eq source (queue_url public_base_url name))
        && not (bytes_eq source (queue_url [] name)))
      (invalid_parameter (text "QueueUrl") (
        text "destructive actions require this server's exact queue URL or account-qualified path"))
  done name
