-- ===== src/Http/Serve.antt =====
-- src/http_server.rs: `process_post` and `handle_request`, from an arriving request to its response.
use lqs.Prelude.{
  ℕ, ◌%◌, ◌^◌, Bool, Option, none, some, List, ◌++◌, if◌then◌else◌, Bytes, text, bytes_eq,
}
use lqs.Prelude.Print.{hex_min}
use lqs.Store.Tables.{Db}
use lqs.Http.Reply.{ApiError, api_error, Reply, done, refused, stuck}
use lqs.Http.Web.{Web}
use lqs.Http.Wire.{
  Protocol, query_protocol, Headers, protocol_from_headers, WireRequest, parse_wire,
}
use lqs.Http.Identity.{AuthorizationHook}
use lqs.Http.Access.{AccessContext, access_context}
use lqs.Http.Answer.{ApiSuccess}
use lqs.Http.Handler.{Context}
use lqs.Http.Dispatch.{dispatch}
use lqs.Http.Poll.{Pass, receive_message}
use lqs.Http.Response.{Response, success_response, error_response}

pub data AdmissionError : Type 0 where
  busy rate_limited : AdmissionError

unfoldable pub admission_error : AdmissionError → ApiError
admission_error busy =
    api_error 503 (text "ServiceUnavailable") (text "too many concurrent requests")
admission_error rate_limited =
    api_error 429 (text "RequestThrottled") (text "request rate limit exceeded")

-- How the reading of a request's body ends: within its deadline and size, or not.
pub data BodyRead : Type 0 where
  whole : Bytes → BodyRead
  too_large timed_out : BodyRead

-- A request, with what the semaphore and the token bucket of `try_enter` said.
pub record Arrival : Type 0 where
  pub admission : Option AdmissionError
  pub is_post : Bool
  pub path : Bytes
  pub uri : Bytes
  pub headers : Headers
  pub body : BodyRead

-- What a server is built with.
pub record Server : Type 0 where
  pub web : Web
  pub public_base_url : Bytes
  pub authorization_hook : AuthorizationHook

-- The time of a request, the instant of its first pass, and the passes of its long poll.
pub record Timing : Type 0 where
  pub now : ℕ
  pub start : ℕ
  pub passes : List Pass

-- An outcome of a request, with the protocol to put it in.
abbrev pub Outcome : Type 0
Outcome = Protocol × Reply ApiSuccess

abbrev pub at_once : Protocol → Db × Reply ApiSuccess → Db × Option Outcome
at_once protocol (db, r) = (db, some (protocol, r))

abbrev pub eventually : Protocol → Db × Option (Reply ApiSuccess) → Db × Option Outcome
eventually protocol (db, none) = (db, none)
eventually protocol (db, some r) = (db, some (protocol, r))

unfoldable pub context_of : Server → Timing → AccessContext → Context
context_of server t access = record {
  web = server.web;
  public_base_url = server.public_base_url;
  access = access;
  now = t.now;
}

unfoldable pub run_action :
    Server → Timing → Bytes → WireRequest → Db → Reply AccessContext → Db × Option Outcome
run_action server t path r db (refused e) = (db, some (r.protocol, refused e))
run_action server t path r db stuck = (db, some (r.protocol, stuck))
run_action server t path r db (done access) =
    if bytes_eq r.action (text "ReceiveMessage")
    then eventually r.protocol
        (receive_message (context_of server t access) path r t.start t.passes db)
    else at_once r.protocol (dispatch (context_of server t access) path r db)

unfoldable pub run_request :
    Server → Timing → Arrival → Bytes → Db → Reply WireRequest → Db × Option Outcome
run_request server t a body db (refused e) = (db, some (protocol_from_headers a.headers, refused e))
run_request server t a body db stuck = (db, some (protocol_from_headers a.headers, stuck))
run_request server t a body db (done r) =
    run_action server t a.path r db
      (access_context server.authorization_hook a.path r a.headers a.uri body)

unfoldable pub process_post : Server → Timing → Arrival → Db → Db × Option Outcome
process_post server t a db = elim a.body [
  | whole body ↦ run_request server t a body db (parse_wire server.web a.headers body)
  | too_large ↦ (
    db,
    some (
      protocol_from_headers a.headers,
      refused (api_error 400 (text "InvalidParameterValue") (text "request body is too large")),
    ),
  )
  | timed_out ↦ (
    db,
    some (
      protocol_from_headers a.headers,
      refused (api_error 408 (text "RequestTimeout") (text "request body read deadline exceeded")),
    ),
  )
]

-- `next_request_id`: the counter wraps.
unfoldable pub request_id : ℕ → Bytes
request_id sequence = text "lqs-" ++ hex_min 16 (sequence % 2 ^ 64)

-- A `stuck` answer, which only the model has, gives no response.
abbrev pub respond : Web → Bytes → Db × Option Outcome → Db × Option Response
respond web id (db, none) = (db, none)
respond web id (db, some (protocol, done answer)) =
    (db, some (success_response web protocol id answer))
respond web id (db, some (protocol, refused e)) = (db, some (error_response web protocol id e))
respond web id (db, some (protocol, stuck)) = (db, none)

abbrev pub method_error : ApiError
method_error = api_error 405 (text "InvalidAction") (text "only POST requests are supported")

-- `handle_request`; `sequence` is the counter of requests before it.
unfoldable pub handle_request : Server → Timing → ℕ → Arrival → Db → Db × Option Response
handle_request server t sequence a db = elim a.admission [
  | some e ↦ (
    db,
    some (
        error_response server.web (protocol_from_headers a.headers) (request_id sequence)
          (admission_error e)),
  )
  | none ↦
      if a.is_post
      then respond server.web (request_id sequence) (process_post server t a db)
      else (db, some (error_response server.web query_protocol (request_id sequence) method_error))
]
