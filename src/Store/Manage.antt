-- ===== src/Store/Manage.antt =====
-- src/management.rs: listing queues, their metrics and their tags.
use lqs.Prelude.{
  ℕ, ◌+◌, Bool, true, false, not, ◌&&◌, ◌||◌, Option, none, some, List, [], ◌∷◌, map, ltb, leb,
  in_range, ◌==◌, length, is_empty, select, count, take, Bytes, text, bytes_eq, bytes_lt,
  starts_with, map_insert,
}
use lqs.Error.{
  Result, ok, ◌>>=◌, ◌>>◌, fail_if, or_fail, or_database, invalid_queue_management, queue_not_found,
}
use lqs.Security.Settings.{unwrap_or}
use lqs.Queue.External.{External}
use lqs.Queue.Validate.{QueueTags, validate_tags, validate_tag_component}
use lqs.Store.Tables.{QueueRow, Message, TagRow, Db}
use lqs.Store.Read.{ms, transaction, find_queue, in_queue, is_expired, after, read_queue_config}
use lqs.Store.Redrive.{sort_names}
use lqs.Store.Receive.Next.{is_visible}
use lqs.Store.Settings.{write_tags}

pub record QueuePage : Type 0 where
  pub queue_names : List Bytes
  pub next_cursor : Option Bytes

-- Where the previous page ended, from the cursor.
unfoldable pub last_of_cursor : External → Bytes → Option Bytes → Result Bytes
last_of_cursor ext prefix none = ok []
last_of_cursor ext prefix (some encoded) = do
  fail_if (ltb 2048 (length encoded)) (invalid_queue_management (text "invalid ListQueues cursor"))
  (version, original_prefix, last) ←
      or_fail (ext.cursor_decode encoded)
        (invalid_queue_management (text "invalid ListQueues cursor"))
  fail_if
      (not (version == 1)
        || not (bytes_eq original_prefix prefix)
        || not (starts_with last prefix)
        || is_empty last)
      (invalid_queue_management (text "ListQueues cursor does not match the prefix"))
  ok last

unfoldable pub last_name : Bytes → List Bytes → Bytes
last_name d [] = d
last_name d (x ∷ xs) = last_name x xs

-- `WHERE substr(name, 1, length(prefix)) = prefix AND name > last ORDER BY name`
unfoldable pub names_after : Db → Bytes → Bytes → List Bytes
names_after db prefix last = sort_names (
    select (λ name. starts_with name prefix && bytes_lt last name)
      (map (λ (q : QueueRow). q.name) db.queues))

abbrev is_given {ℓ} : {A : Type ℓ} → Option A → Bool
is_given none = false
is_given (some a) = true

unfoldable pub next_cursor_of : External → Bool → Bytes → List Bytes → Result (Option Bytes)
next_cursor_of ext false prefix names = ok none
next_cursor_of ext true prefix names = do
  cursor ← or_database (ext.cursor_encode (1, prefix, last_name [] names))
  ok (some cursor)

unfoldable pub list_queues : External → Db → Bytes → Option ℕ → Option Bytes → Result QueuePage
list_queues ext db prefix maximum cursor = do
  let limit = unwrap_or maximum 1000
  fail_if (not (in_range 1 1000 limit))
      (invalid_queue_management (text "MaxResults must be 1-1000"))
  last ← last_of_cursor ext prefix cursor
  let names = take (limit + 1) (names_after db prefix last)
  next ← next_cursor_of ext (ltb limit (length names) && is_given maximum) prefix (take limit names)
  ok (record { queue_names = take limit names; next_cursor = next })

pub record QueueMetrics : Type 0 where
  pub visible : ℕ
  pub not_visible : ℕ
  pub delayed : ℕ
  pub created_at_ms : ℕ
  pub modified_at_ms : ℕ

-- The three WHERE clauses, over the messages of the queue that have not expired.
abbrev pub is_current : Bytes → ℕ → ℕ → Message → Bool
is_current name now retention m = in_queue name m && not (is_expired now retention m)

abbrev pub is_visible_now : Bytes → ℕ → ℕ → Message → Bool
is_visible_now name now retention m =
    is_current name now retention m
    && leb m.available_at_ms now
    && is_visible m.invisible_until_ms now

abbrev pub is_hidden_now : Bytes → ℕ → ℕ → Message → Bool
is_hidden_now name now retention m =
    is_current name now retention m && after m.invisible_until_ms now

abbrev pub is_delayed_now : Bytes → ℕ → ℕ → Message → Bool
is_delayed_now name now retention m =
    is_current name now retention m
    && ltb now m.available_at_ms
    && is_visible m.invisible_until_ms now

unfoldable pub queue_metrics : Db → Bytes → ℕ → Result QueueMetrics
queue_metrics db name now = do
  q ← or_fail (find_queue db name) (queue_not_found name)
  ok (record {
    visible = count (is_visible_now name (ms now) q.message_retention_ms) db.messages;
    not_visible = count (is_hidden_now name (ms now) q.message_retention_ms) db.messages;
    delayed = count (is_delayed_now name (ms now) q.message_retention_ms) db.messages;
    created_at_ms = q.created_at_ms;
    modified_at_ms = q.modified_at_ms;
  })

abbrev pub is_tag_of : Bytes → TagRow → Bool
is_tag_of name t = bytes_eq t.queue_name name

-- `.collect()` into the `BTreeMap`.
unfoldable pub collect_tags : List TagRow → QueueTags
collect_tags [] = []
collect_tags (t ∷ ts) = map_insert t.key t.value (collect_tags ts)

unfoldable pub list_queue_tags : Db → Bytes → Result QueueTags
list_queue_tags db name = do
  config ← read_queue_config db name
  ok (collect_tags (select (is_tag_of name) db.queue_tags))

unfoldable pub tag_body : External → Db → Bytes → QueueTags → Result (Db × Unit {0})
tag_body ext db name tags = do
  fail_if (is_empty tags) (invalid_queue_management (text "Tags must not be empty"))
  validate_tags ext tags
  config ← read_queue_config db name
  let rows = write_tags name tags db.queue_tags
  fail_if (ltb 50 (count (is_tag_of name) rows))
      (invalid_queue_management (text "LQS allows at most 50 tags per queue"))
  ok (record db { queue_tags = rows }, tt)

unfoldable pub tag_queue : External → Db → Bytes → QueueTags → Db × Result (Unit {0})
tag_queue ext db name tags = transaction db (tag_body ext db name tags)

unfoldable pub validate_keys : External → List Bytes → Result (Unit {0})
validate_keys ext [] = ok tt
validate_keys ext (key ∷ keys) = do validate_tag_component ext key true; validate_keys ext keys

unfoldable pub remove_tags : Bytes → List Bytes → List TagRow → List TagRow
remove_tags name [] rows = rows
remove_tags name (key ∷ keys) rows =
    remove_tags name keys (select (λ t. not (is_tag_of name t && bytes_eq t.key key)) rows)

unfoldable pub untag_body : External → Db → Bytes → List Bytes → Result (Db × Unit {0})
untag_body ext db name keys = do
  fail_if (is_empty keys || ltb 50 (length keys))
      (invalid_queue_management (text "TagKeys must contain 1-50 keys"))
  validate_keys ext keys
  config ← read_queue_config db name
  ok (record db { queue_tags = remove_tags name keys db.queue_tags }, tt)

unfoldable pub untag_queue : External → Db → Bytes → List Bytes → Db × Result (Unit {0})
untag_queue ext db name keys = transaction db (untag_body ext db name keys)
