-- ===== src/Examples/Sends.antt =====
-- The theorem on duplicates at a concrete send.
use lqs.Prelude.{true, false, none, some, [], ◌∷◌, ◌≡◌, refl, arith}
use lqs.Error.{ok}
use lqs.Queue.Types.{fifo, QueueConfig, SendRequest, SendResult, PreparedSend}
use lqs.Store.Read.{ms}
use lqs.Store.Messages.{message_id_of, expire_messages}
use lqs.Store.Send.{send}
use lqs.Store.Laws.Duplicate.{send-duplicate}
use lqs.Examples.{event_config}
use lqs.Samples.{plain, orders, two_queues, request_of}
use lqs.Runs.{runs}

abbrev order_config : QueueConfig
order_config = record event_config { queue_type = fifo; content_based_deduplication = true }

abbrev an_order : SendRequest
an_order = request_of (1 ∷ []) (b'a' ∷ [])

abbrev prepared_order : PreparedSend
prepared_order = record {
  body = 1 ∷ [];
  group_id = some (b'a' ∷ []);
  deduplication_id = some (1 ∷ []);
  delay_ms = 0;
  attributes_json = [];
  attribute_md5 = none;
}

abbrev first_order : SendResult
unfolding runs
first_order = record {
  message_id = message_id_of 1;
  deduplicated = false;
  md5_of_message_attributes = none;
}

-- The same order again, a second later.
send-duplicate_example :
    ((send plain (send plain two_queues orders an_order 5).0 orders an_order 1005).1
      ≡ ok (record {
        message_id = message_id_of 1;
        deduplicated = true;
        md5_of_message_attributes = none;
      }))
    × ((send plain (send plain two_queues orders an_order 5).0 orders an_order 1005).0.messages
        ≡ (expire_messages (send plain two_queues orders an_order 5).0 orders (ms 1005)).messages)
unfolding runs
send-duplicate_example =
    send-duplicate plain two_queues orders an_order 5 1005 order_config prepared_order (1 ∷ [])
      first_order refl refl refl refl refl (omega arith) (omega arith)
