-- ===== src/Examples.antt =====
-- The theorems at concrete inputs: their hypotheses can hold.
pub mod Attributes
pub mod Front
pub mod Reached
pub mod Sends
pub mod Hidden
pub mod Moves
use lqs.Store.Receive.Page.{Request, receive_page}
use lqs.Store.Laws.Reply.{receive_page-ends}
use lqs.Samples.{no_options}
use lqs.Store.Manage.{QueueMetrics, is_current}
use lqs.Store.Laws.Metrics.{queue_metrics-partition}
use lqs.Store.Settings.{new_row}
use lqs.Store.Read.{ms}
use lqs.Prelude.{
  ℕ, ◌+◌, true, false, none, some, List, [], ◌∷◌, ◌≡◌, refl, ◌≤◌, ◌≢◌, ◌↔◌, inl, In, All, length,
  select, not, is_empty, count, arith, Bytes, text, ◌<◌,
}
use lqs.Error.{Result, ok, err, out_of_fuel, invalid_receipt_handle, purge_queue_in_progress}
use lqs.Security.Json.{Json, object, field, end, string}
use lqs.Security.Names.{RequestIdentity, aws}
use lqs.Security.Authorize.{authorize}
use lqs.Security.Authorize.Verdict.{Passes, Allows, access_of, authorize-eq-ok}
use lqs.Security.Glob.{glob, glob_loop, glob_fuel}
use lqs.Security.Glob.Wildcard.{matches}
use lqs.Security.Glob.Correct.{is_plain, glob-matches, glob-star_value}
use lqs.Queue.Types.{standard, fifo, default_options, QueueConfig, ReceivedMessage}
use lqs.Store.Tables.{Message, Db, empty_db}
use lqs.Store.Read.{in_queue}
use lqs.Store.Messages.{message_id_of}
use lqs.Store.Visibility.{has_receipt, delete}
use lqs.Store.Receive.Next.{is_receivable, is_selected, is_eligible, next_message}
use lqs.Store.Receive.Collect.{collect_received}
use lqs.Store.Settings.{create_queue}
use lqs.Store.Manage.{is_tag_of, tag_queue}
use lqs.Store.Remove.{purge_queue}
use lqs.Store.Sound.Rows.{IsSound}
use lqs.Store.Sound.Send.{delete-IsSound}
use lqs.Store.Sound.Reach.{perform, start, step, create_queue_call, send_call, Reachable-IsSound}
use lqs.Store.Laws.Order.{next_message-fifo_order, next_message-standard_order}
use lqs.Store.Laws.Limit.{collect_received-length}
use lqs.Store.Laws.Ends.{collect_received-ends}
use lqs.Store.Laws.Handles.{delete-once, delete-unknown}
use lqs.Store.Laws.Quotas.{purge_queue-cooldown, tag_queue-limit}
use lqs.Batch.{BatchEntry, BatchResult, run_batch, validate_batch_ids, valid_entry_id}
use lqs.Batch.Ids.{Distinct, validate_batch_ids-eq-ok}
use lqs.Batch.Once.{named, reported, run_batch-once}
use lqs.Samples.{plain, orders, events, two_queues, request_of, fifo_options}
use lqs.Runs.{runs}

-- The store after one queue was created and one message sent.
abbrev one_sent : Db
one_sent =
    perform plain 5 (perform plain 0 empty_db (create_queue_call orders fifo fifo_options []))
      (send_call orders (request_of (1 ∷ []) (7 ∷ [])))

Reachable-IsSound_example : IsSound one_sent
Reachable-IsSound_example = Reachable-IsSound plain one_sent (
    step (perform plain 0 empty_db (create_queue_call orders fifo fifo_options [])) 5
      (send_call orders (request_of (1 ∷ []) (7 ∷ [])))
      (step empty_db 0 (create_queue_call orders fifo fifo_options []) start))

-- A message of the group 7, visible from `from`, under the handle 9.
abbrev pub row_of : Bytes → ℕ → ℕ → Message
row_of name sequence from = record {
  sequence = sequence;
  message_id = message_id_of sequence;
  queue_name = name;
  body = 1 ∷ [];
  group_id = some (7 ∷ []);
  receipt_handle = some (9 ∷ []);
  invisible_until_ms = some from;
  receive_count = 1;
  created_at_ms = 0;
  available_at_ms = 0;
  message_attributes = [];
  first_received_at_ms = some 0;
  message_deduplication_id = none;
  total_receive_count = 1;
  visibility_revision = 0;
}

abbrev two_rows : Db
two_rows = record empty_db {
  messages = row_of orders 1 10 ∷ row_of orders 2 10 ∷ [];
  last_sequence = 2;
}

next_message-fifo_order_example :
    In (row_of orders 2 10) two_rows.messages
    × (is_receivable orders 20 (row_of orders 2 10) ≡ true)
    × (is_selected (1 ∷ []) 2 ≡ false)
    × ((e : Message)
        → (g : Bytes) → In e two_rows.messages
        → e.queue_name ≡ orders
        → some (7 ∷ []) ≡ some g
        → e.group_id ≡ some g
        → e.sequence < 2
        → is_selected (1 ∷ []) e.sequence ≡ true)
unfolding runs
next_message-fifo_order_example =
    next_message-fifo_order two_rows orders 20 (1 ∷ []) (some (7 ∷ [])) (row_of orders 2 10) refl

collect_received-ends_example : collect_received plain two_queues orders fifo 3 1000 5 ≢ out_of_fuel
unfolding runs
collect_received-ends_example = collect_received-ends plain two_queues orders fifo 3 1000 5 tt

-- A policy of one statement, as serde_json reads it.
abbrev statement : Json
unfolding runs
statement = object (
    field (text "Action") (string (text "*")) (
      field (text "Effect") (string (text "Allow")) (
        field (text "Principal") (string (text "*"))
          (field (text "Resource") (string (text "*")) end))))

abbrev policy : Json
unfolding runs
policy = object (field (text "Statement") statement end)

abbrev caller : RequestIdentity
caller = aws (1 ∷ [])

authorize-eq-ok_example :
    (authorize (λ s. some policy) (some []) caller (2 ∷ []) (3 ∷ []) ≡ ok tt) ↔ (
      All (Passes (access_of caller (2 ∷ []) (3 ∷ []))) (statement ∷ [])
      × ((s : Json) × In s (statement ∷ []) × Allows (access_of caller (2 ∷ []) (3 ∷ [])) s))
unfolding runs
authorize-eq-ok_example =
    authorize-eq-ok (λ s. some policy) [] caller (2 ∷ []) (3 ∷ []) policy (statement ∷ []) refl refl

glob-matches_example :
    (glob_loop (glob_fuel (b'*' ∷ 5 ∷ []) (4 ∷ 5 ∷ [])) (b'*' ∷ 5 ∷ []) (4 ∷ 5 ∷ []) none
      ≡ some (matches (b'*' ∷ 5 ∷ []) (4 ∷ 5 ∷ [])))
    × (glob (b'*' ∷ 5 ∷ []) (4 ∷ 5 ∷ []) ≡ matches (b'*' ∷ 5 ∷ []) (4 ∷ 5 ∷ []))
unfolding runs is_plain
glob-matches_example = glob-matches (b'*' ∷ 5 ∷ []) (4 ∷ 5 ∷ []) refl

glob-star_value_example : glob (b'*' ∷ []) (b'*' ∷ 5 ∷ []) ≡ false
glob-star_value_example = glob-star_value 5 []

-- One message in the queue of `events`, in flight under the handle 9.
abbrev pub one_event : Db
one_event = record two_queues { messages = row_of events 1 10 ∷ []; last_sequence = 1 }

next_message-standard_order_example :
    In (row_of events 1 10) one_event.messages
    × (is_receivable events 20 (row_of events 1 10) ≡ true)
    × ((e : Message) → In e one_event.messages → is_receivable events 20 e ≡ true → 1 ≤ e.sequence)
unfolding runs
next_message-standard_order_example =
    next_message-standard_order one_event events 20 [] none (row_of events 1 10)
      (record {
        ascending = (omega arith, tt);
        rows = ((omega arith, refl, (1, omega arith, refl)), tt);
      })
      refl

abbrev pub event_config : QueueConfig
event_config = record {
  security = default_options.security;
  deduplication_scope = default_options.deduplication_scope;
  fifo_throughput_limit = default_options.fifo_throughput_limit;
  queue_type = standard;
  visibility_timeout_ms = default_options.visibility_timeout_ms;
  content_based_deduplication = false;
  deduplication_window_ms = default_options.deduplication_window_ms;
  redrive_policy = none;
  delay_ms = 0;
  message_retention_ms = default_options.message_retention_ms;
  maximum_message_size = default_options.maximum_message_size;
  receive_wait_time_ms = default_options.receive_wait_time_ms;
  max_in_flight = default_options.max_in_flight;
}

delete-once_example :
    ((delete one_event events (9 ∷ [])).1 ≡ ok tt)
    × ((delete one_event events (9 ∷ [])).0.messages
        ≡ select (λ m. not (has_receipt events (9 ∷ []) m)) one_event.messages)
    × ((delete (delete one_event events (9 ∷ [])).0 events (9 ∷ [])).1
        ≡ err (invalid_receipt_handle (9 ∷ [])))
unfolding runs
delete-once_example = delete-once one_event events (9 ∷ []) event_config refl refl

delete-unknown_example :
    ((delete one_event events (8 ∷ [])).1 ≡ err (invalid_receipt_handle (8 ∷ [])))
    × ((delete one_event events (8 ∷ [])).0.messages ≡ one_event.messages)
unfolding runs
delete-unknown_example = delete-unknown one_event events (8 ∷ []) event_config refl refl

abbrev pub two_entries : List (BatchEntry Bytes)
two_entries =
    record { id = b'a' ∷ []; value = 9 ∷ [] } ∷ record { id = b'b' ∷ []; value = 9 ∷ [] } ∷ []

abbrev pub outcomes : BatchResult (Unit {0})
outcomes = record {
  successful = record { id = b'a' ∷ []; value = tt } ∷ [];
  failed = record { id = b'b' ∷ []; value = invalid_receipt_handle (9 ∷ []) } ∷ [];
}

run_batch-once_example : reported (b'a' ∷ []) outcomes ≡ named (b'a' ∷ []) two_entries
unfolding runs
run_batch-once_example =
    run_batch-once (λ db handle. delete db events handle) one_event events two_entries outcomes refl
      (b'a' ∷ [])

validate_batch_ids-eq-ok_example : (validate_batch_ids ((b'a' ∷ []) ∷ (b'a' ∷ []) ∷ []) ≡ ok tt) ↔ (
    (is_empty {A = Bytes} ((b'a' ∷ []) ∷ (b'a' ∷ []) ∷ []) ≡ false)
    × (length {A = Bytes} ((b'a' ∷ []) ∷ (b'a' ∷ []) ∷ []) ≤ 10)
    × All (λ id. valid_entry_id id ≡ true) ((b'a' ∷ []) ∷ (b'a' ∷ []) ∷ [])
    × Distinct ((b'a' ∷ []) ∷ (b'a' ∷ []) ∷ []))
validate_batch_ids-eq-ok_example = validate_batch_ids-eq-ok ((b'a' ∷ []) ∷ (b'a' ∷ []) ∷ [])

purge_queue-cooldown_example :
    (count (in_queue events) (purge_queue one_event events 100).0.messages ≡ 0)
    × (purge_queue (purge_queue one_event events 100).0 events 50000
        ≡ ((purge_queue one_event events 100).0, err purge_queue_in_progress))
unfolding runs
purge_queue-cooldown_example = purge_queue-cooldown one_event events 100 50000 refl refl

-- A dead letter of `events` in another standard queue.
abbrev pub one_dead_letter : Db
unfolding runs
one_dead_letter =
    record (create_queue plain two_queues (b'd' ∷ []) standard default_options [] 0).0 {
      messages = row_of (b'd' ∷ []) 1 10 ∷ [];
      last_sequence = 1;
      dead_letter_origins = record { sequence = 1; source_queue = events } ∷ [];
    }

tag_queue-limit_example :
    count
      (is_tag_of events)
      (tag_queue plain two_queues events ((b'k' ∷ [], b'v' ∷ []) ∷ [])).0.queue_tags
    ≤ 50
unfolding runs
tag_queue-limit_example = tag_queue-limit plain two_queues events ((b'k' ∷ [], b'v' ∷ []) ∷ []) refl

abbrev page_of : Result (Db × List ReceivedMessage) → Db × List ReceivedMessage
page_of (ok page) = page
page_of (err e) = (empty_db, [])
page_of out_of_fuel = (empty_db, [])

abbrev events_page : Db × List ReceivedMessage
unfolding runs
events_page = page_of (collect_received plain one_event events standard 3 1000 20)

collect_received-length_example : length events_page.1 ≤ 3
unfolding runs
collect_received-length_example =
    collect_received-length plain one_event events standard 3 1000 20 events_page.0 events_page.1
      refl

abbrev event_metrics : QueueMetrics
event_metrics = record {
  visible = 1;
  not_visible = 0;
  delayed = 0;
  created_at_ms = 0;
  modified_at_ms = 0;
}

queue_metrics-partition_example :
    ◌≡◌ {A = ℕ} (1 + 0 + 0) (count (is_current events (ms 20) 345600000) one_event.messages)
unfolding runs
queue_metrics-partition_example =
    queue_metrics-partition one_event events 20 (new_row events standard default_options 0)
      event_metrics refl refl

abbrev pub a_request : Request
a_request = record {
  queue_name = events;
  max_messages = 3;
  options = no_options;
  now_ms = 20;
  cache_empty = true;
}

receive_page-ends_example : (receive_page plain one_event a_request).1 ≢ out_of_fuel
unfolding runs
receive_page-ends_example = receive_page-ends plain one_event a_request tt
