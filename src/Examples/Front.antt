-- ===== src/Examples/Front.antt =====
-- The theorems on the HTTP front end at concrete inputs.
use lqs.Prelude.{
  ℕ, zero, suc, ap, true, false, none, some, [], ◌∷◌, ◌≡◌, ◌↔◌, refl, replicate, length, ◌%◌, all,
  Bytes, text, ◌<◌, arith,
}
use lqs.Prelude.Parse.{parse_u64}
use lqs.Error.{value, ok}
use lqs.Security.Json.{Json, null, string, object, end, field}
use lqs.Security.Settings.{default_security}
use lqs.Security.Names.{anonymous, aws}
use lqs.Store.Tables.{Db, empty_db}
use lqs.Store.Sound.Reach.{perform, create_queue_call}
use lqs.Queue.Types.{standard, default_options}
use lqs.Http.Web.{Web}
use lqs.Http.Wire.{WireRequest, query_protocol}
use lqs.Http.Names.{last_segment}
use lqs.Http.Answer.{queue_url}
use lqs.Http.Handler.{Context}
use lqs.Http.Identity.{HttpAuthorizationRequest, bearer_hook, local_hook}
use lqs.Http.Requests.{ParsedReceiveRequest}
use lqs.Http.Poll.{Pass, receive_pass}
use lqs.Http.Dispatch.{dispatch}
use lqs.Http.Serve.{Server, Timing, Arrival, whole}
use lqs.Http.Xml.{xml_escape, concat_map}
use lqs.Http.Config.{ServerConfig, default_limits}
use lqs.Http.Laws.Denied.{is_done, dispatch-denied}
use lqs.Http.Laws.Escape.{escape_byte, is_plain, xml_escape-concat_map, xml_escape-plain}
use lqs.Http.Laws.Digest.{AreBytes, Presents, bearer_hook-eq-ok}
use lqs.Http.Laws.Urls.{last_segment-queue_url}
use lqs.Http.Laws.Remote.{Guarded, validate-Guarded}
use lqs.Samples.{plain, events, no_options}
use lqs.Runs.{runs}

-- Every form is a purge of the queue `e`; digests are 32 times the length of a text.
abbrev pub front : Web
front = record {
  external = plain;
  json_from_slice = λ s. value null;
  number_u64 = parse_u64;
  form_decode = λ s.
      value ((text "Action", text "PurgeQueue") ∷ (text "QueueUrl", text "/000000000000/e") ∷ []);
  header_text = λ s. some s;
  base64_encode = λ s. s;
  base64_decode = λ s. some s;
  sha256 = λ s. replicate 32 (length s % 256);
}

abbrev local_server : Server
local_server = record {
  web = front;
  public_base_url = text "http://h";
  authorization_hook = local_hook front false;
}

abbrev pub one_queue : Db
one_queue = perform plain 0 empty_db (create_queue_call events standard default_options [])

-- A pass in which others do nothing.
abbrev pub pass_at : ℕ → Pass
pass_at t = record { clock = t; checked_at = t; refused_at = t; ended_at = t; others = λ db. db }

abbrev purge_arrival : Arrival
purge_arrival = record {
  admission = none;
  is_post = true;
  path = text "/";
  uri = text "/";
  headers = [];
  body = whole [];
}

abbrev times : Timing
times = record { now = 5; start = 5; passes = pass_at 5 ∷ [] }

-- A policy that denies everything to everyone, as serde_json reads it.
abbrev deny_all : Json
unfolding runs
deny_all = object (
    field (text "Statement")
      (object (
        field (text "Action") (string (text "*")) (
          field (text "Effect") (string (text "Deny")) (
            field (text "Principal") (string (text "*"))
              (field (text "Resource") (string (text "*")) end)))))
      end)

abbrev closed : Db
closed = record one_queue {
  securities =
      record {
        queue_name = events;
        settings = record default_security { policy = some (text "{}") };
      }
      ∷ [];
}

-- A principal of another account asks to purge a queue with that policy.
abbrev stranger : Context
stranger = record {
  web = record front { external = record plain { json_parse = λ s. some deny_all } };
  public_base_url = text "http://h";
  access = record {
    identity = aws (text "111111111111");
    action = text "PurgeQueue";
    queue = some events;
  };
  now = 5;
}

abbrev purge_request : WireRequest
purge_request = record {
  protocol = query_protocol;
  action = text "PurgeQueue";
  json = none;
  query = (text "Action", text "PurgeQueue") ∷ (text "QueueUrl", text "/000000000000/e") ∷ [];
}

abbrev pub one_message : ParsedReceiveRequest
one_message = record {
  queue_name = events;
  max_messages = 1;
  selection = record { message = []; system = [] };
  options = no_options;
  requested_wait_ms = some 150;
}

dispatch-denied_example :
    (((dispatch stranger (text "/") purge_request closed).0 ≡ closed)
      × (is_done (dispatch stranger (text "/") purge_request closed).1 ≡ false))
    × (((receive_pass stranger one_message 150 155 (pass_at 5) closed).0 ≡ closed)
        × (is_done (receive_pass stranger one_message 150 155 (pass_at 5) closed).1 ≡ false))
unfolding runs perform
dispatch-denied_example =
    dispatch-denied stranger closed refl (text "/") purge_request one_message 150 155 (pass_at 5)

xml_escape-concat_map_example :
    xml_escape (text "a<&amp;'") ≡ concat_map escape_byte (text "a<&amp;'")
xml_escape-concat_map_example = xml_escape-concat_map (text "a<&amp;'")

xml_escape-plain_example : all is_plain (xml_escape (text "</Body>\"")) ≡ true
xml_escape-plain_example = xml_escape-plain (text "</Body>\"")

last_segment-queue_url_example :
    last_segment (queue_url (text "http://h") (text "o.fifo")) ≡ text "o.fifo"
unfolding runs
last_segment-queue_url_example = last_segment-queue_url (text "http://h") (text "o.fifo") refl refl

abbrev bearer_request : HttpAuthorizationRequest
bearer_request = record {
  action = text "ListQueues";
  queue_name = none;
  headers = (text "authorization", text "Bearer abc") ∷ [];
  method = text "POST";
  uri = text "/";
  body = [];
}

digest_bytes : (k n : ℕ) → n < 256 → (length (replicate k n) ≡ k) × AreBytes (replicate k n)
unfolding replicate
digest_bytes zero n h = (refl, tt)
digest_bytes (suc k) n h = let (same, bytes) = digest_bytes k n h in (ap suc same, (h, bytes))

bearer_hook-eq-ok_example :
    (bearer_hook front (text "xyz") anonymous bearer_request ≡ ok anonymous) ↔ (
      (candidate : Bytes) × Presents front bearer_request.headers candidate
      × (front.sha256 (text "xyz") ≡ front.sha256 candidate))
bearer_hook-eq-ok_example =
    bearer_hook-eq-ok front (text "xyz") anonymous bearer_request
      (λ s. digest_bytes 32 (length s % 256) (omega arith))

abbrev remote_config : ServerConfig
remote_config = record {
  trust_principal_header = false;
  allow_unauthenticated_remote = false;
  bearer_credential = some (text "0123456789abcdef0123456789abcdef");
  auth_principal = some (text "000000000000");
  http_limits = default_limits;
  database_key_file = none;
  bind_addr = record { shown = text "0.0.0.0:9324"; is_loopback = false };
  database_path = text "lqs.sqlite";
  public_base_url = text "http://h";
}

validate-Guarded_example :
    Guarded front false remote_config.bearer_credential remote_config.auth_principal
    × (false ≡ false)
unfolding runs
validate-Guarded_example =
    validate-Guarded (record { parse_addr = λ s. none; max_permits = 1000 }) front remote_config
      refl refl refl
