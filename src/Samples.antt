-- ===== src/Samples.antt =====
-- Concrete inputs that the tests and the instances of the theorems share.
use lqs.Prelude.{true, false, none, some, [], ◌∷◌, Bytes}
use lqs.Error.{value}
use lqs.Queue.Types.{standard, fifo, QueueOptions, default_options, SendRequest, ReceiveOptions}
use lqs.Queue.External.{External}
use lqs.Store.Tables.{Db, empty_db}
use lqs.Runs.{runs}
use lqs.Store.Settings.{create_queue}

-- Digests that are the text itself, and no JSON.
abbrev pub plain : External
plain = record {
  sha256_hex = λ s. s;
  md5_hex = λ s. s;
  json_parse = λ s. none;
  json_print = λ v. [];
  attributes_to_json = λ a. value [];
  attributes_from_json = λ s. value [];
  received_to_json = λ ms. value [];
  received_from_json = λ s. value [];
  cursor_encode = λ c. value [];
  cursor_decode = λ s. none;
  is_control = λ c. false;
  is_alphanumeric = λ c. true;
  is_whitespace = λ c. false;
}

abbrev pub orders : Bytes
orders = b'o' ∷ b'.' ∷ b'f' ∷ b'i' ∷ b'f' ∷ b'o' ∷ []

abbrev pub events : Bytes
events = b'e' ∷ []

abbrev pub fifo_options : QueueOptions
fifo_options = record default_options { content_based_deduplication = true }

-- One FIFO and one standard queue.
abbrev pub two_queues : Db
unfolding runs
two_queues =
    (create_queue plain (create_queue plain empty_db orders fifo fifo_options [] 0).0 events
      standard default_options [] 0).0

abbrev pub request_of : Bytes → Bytes → SendRequest
request_of body group = record {
  body = body;
  message_group_id = some group;
  deduplication_id = none;
  delay_ms = none;
  message_attributes = [];
}

abbrev pub no_options : ReceiveOptions
no_options = record { receive_request_attempt_id = none; visibility_timeout_ms = none }
