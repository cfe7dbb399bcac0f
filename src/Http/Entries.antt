-- ===== src/Http/Entries.antt =====
-- src/batch_http.rs: the entries of a batch request.
use lqs.Prelude.{
  ℕ, none, some, List, [], ◌∷◌, ◌++◌, map, length, is_empty, ◌==◌, Bytes, text, map_insert,
  split_once,
}
use lqs.Prelude.Parse.{strip_prefix, parse_index, index_insert, index_get}
use lqs.Security.Json.{Json, array, to_list}
use lqs.Security.Settings.{unwrap_or}
use lqs.Attributes.{payload_size}
use lqs.Batch.{BatchEntry}
use lqs.Http.Reply.{
  api_error, invalid_parameter, Reply, done, refused, stuck, ◌>>=◌, ◌>>◌, or_refuse, refuse_if,
}
use lqs.Http.Web.{Web}
use lqs.Http.Wire.{WireRequest, json_protocol, query_protocol, json_field, string_of}
use lqs.Http.Names.{Attributes}
use lqs.Http.Messages.{parse_attributes}

abbrev json_entry : Json → WireRequest
json_entry v = record { protocol = json_protocol; action = []; json = some v; query = [] }

abbrev array_requests : Json → Reply (List WireRequest)
array_requests (array values) = done (map json_entry (to_list values))
array_requests _ = refused (invalid_parameter (text "Entries") (text "must be an array"))

-- What a query map says of the entries, by index.
unfoldable pub add_entry : Bytes → Bytes → List (ℕ × Attributes) → Reply (List (ℕ × Attributes))
add_entry rest v grouped = do
  (index, field) ←
      or_refuse (split_once (λ b. b == b'.') rest)
        (invalid_parameter (text "Entries") (text "invalid entry index"))
  n ←
      or_refuse (parse_index index)
        (invalid_parameter (text "Entries") (text "invalid entry index"))
  refuse_if (is_empty field) (invalid_parameter (text "Entries") (text "invalid entry index"))
  done (index_insert n (map_insert field v (unwrap_or (index_get n grouped) [])) grouped)

unfoldable pub group_entries :
    Bytes → List (Bytes × Bytes) → List (ℕ × Attributes) → Reply (List (ℕ × Attributes))
group_entries prefix [] grouped = done grouped
group_entries prefix ((key, v) ∷ query) grouped = elim (strip_prefix prefix key) [
  | none ↦ group_entries prefix query grouped
  | some rest ↦ add_entry rest v grouped >>= group_entries prefix query
]

abbrev query_entry : ℕ × Attributes → WireRequest
query_entry (n, query) = record {
  protocol = query_protocol;
  action = [];
  json = none;
  query = query;
}

unfoldable pub entry_requests : WireRequest → Reply (List WireRequest)
entry_requests r = elim r.json [
  | some v ↦ (do
    given ←
        or_refuse (json_field r (text "Entries"))
          (api_error 400 (text "EmptyBatchRequest") (text "batch is empty"))
    array_requests given)
  | none ↦ (do
    grouped ← group_entries (r.action ++ text "RequestEntry.") r.query []
    done (map query_entry grouped))
]

abbrev with_id : WireRequest → BatchEntry WireRequest
with_id r = record { id = unwrap_or (string_of r (text "Id")) []; value = r }

unfoldable pub entries : WireRequest → Reply (List (BatchEntry WireRequest))
entries r = do requests ← entry_requests r; done (map with_id requests)

abbrev size_with {ℓ} : {A : Type ℓ} → ℕ → (A → ℕ) → Reply A → ℕ
size_with d f (done a) = f a
size_with d f (refused e) = d
size_with d f stuck = d

-- An entry whose attributes cannot be read counts with its body alone.
unfoldable pub entry_size : Web → BatchEntry WireRequest → ℕ
entry_size web e =
    let body = unwrap_or (string_of e.value (text "MessageBody")) [] in
    size_with (length body) (payload_size body) (parse_attributes web e.value)
