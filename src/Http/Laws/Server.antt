-- ===== src/Http/Laws/Server.antt =====
-- src/http_server.rs `handle_request`: from an arriving request to the calls on the store.
use lqs.Prelude.{ℕ, if◌then◌else◌, Bool, true, false, ◌≡◌, ◌⊎◌, Option, none, some, Bytes, text}
use lqs.Store.Tables.{Db}
use lqs.Http.Reply.{ApiError, api_error, Reply, done, refused}
use lqs.Http.Web.{Web}
use lqs.Http.Wire.{Protocol, WireRequest, parse_wire, protocol_from_headers, query_protocol}
use lqs.Http.Response.{Response, error_response}
use lqs.Http.Access.{AccessContext, access_context, authorize}
use lqs.Http.Answer.{ApiSuccess}
use lqs.Http.Dispatch.{dispatch}
use lqs.Http.Serve.{
  Arrival, AdmissionError, BodyRead, request_id, whole, too_large, timed_out, Server, Timing,
  Outcome, admission_error, context_of, run_request, process_post, respond, method_error,
}
use lqs.Http.Laws.Denied.{is_done}
use lqs.Http.Laws.Asked.{is_action}
use lqs.Http.Laws.Outcome.{Acts}
use lqs.Http.Laws.Polling.{Polls}

-- The outcome is an error, or `stuck`.
abbrev IsRefusal : Option Outcome → Type 0
IsRefusal none = Unit × ⊥
IsRefusal (some (protocol, x)) = is_done x ≡ false

-- The response says what was wrong; `none` is the model's `stuck`.
abbrev pub IsError : Web → Bytes → Option Response → Type 0
IsError web id response =
    (response ≡ none)
    ⊎ ((protocol : Protocol) × (e : ApiError) × (response
          ≡ some (error_response web protocol id e)))

module _ (server : Server) (t : Timing) (a : Arrival) (db : Db) where
  -- What the request `r` of the caller `access` does.
  abbrev pub Performed : WireRequest → AccessContext → Db → Type 0
  Performed r access db' =
      ((is_action r (text "ReceiveMessage") ≡ true)
        × ((out : Db × Option (Reply ApiSuccess)) × Polls (context_of server t access) a.path r
              t.start t.passes db out
            × (db' ≡ out.0)))
      ⊎ ((is_done (authorize server.web.external db access) ≡ true)
          × Acts (context_of server t access) a.path r db
              (dispatch (context_of server t access) a.path r db)
          × (db' ≡ (dispatch (context_of server t access) a.path r db).0))

  -- The request was let in, read and parsed, and its caller identified.
  abbrev pub Served : Db → Type 0
  Served db' =
      (body : Bytes) × (r : WireRequest) × (access : AccessContext) × (a.admission ≡ none)
      × (a.is_post ≡ true)
      × (a.body ≡ whole body)
      × (parse_wire server.web a.headers body ≡ done r)
      × (access_context server.authorization_hook a.path r a.headers a.uri body ≡ done access)
      × Performed r access db'

  -- Without success the tables are as they were, or `P` holds of them.
  abbrev Unless : (Db → Type 0) → Db × Option Outcome → Type 0
  Unless P out = ((out.0 ≡ db) × IsRefusal out.1) ⊎ P out.0

  -- What follows a body that was read in this way.
  abbrev post_with : BodyRead → Db × Option Outcome
  post_with (whole body) = run_request server t a body db (parse_wire server.web a.headers body)
  post_with too_large = (
    db,
    some (
      protocol_from_headers a.headers,
      refused (api_error 400 (text "InvalidParameterValue") (text "request body is too large")),
    ),
  )
  post_with timed_out = (
    db,
    some (
      protocol_from_headers a.headers,
      refused (api_error 408 (text "RequestTimeout") (text "request body read deadline exceeded")),
    ),
  )

  -- What follows admission.
  abbrev served_as : ℕ → Option AdmissionError → Bool → Db × Option Response
  served_as sequence admission is_post = elim admission [
    | some e ↦ (
      db,
      some (
          error_response server.web (protocol_from_headers a.headers) (request_id sequence)
            (admission_error e)),
    )
    | none ↦
        if is_post then respond server.web (request_id sequence) (process_post server t a db) else (
          db,
          some (error_response server.web query_protocol (request_id sequence) method_error),
        )
  ]
