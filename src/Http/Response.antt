-- ===== src/Http/Response.antt =====
-- src/http_server.rs: `response` and `into_response`, of answers and of errors.
use lqs.Prelude.{ℕ, Option, none, some, List, [], ◌∷◌, ◌++◌, Bytes, text}
use lqs.Security.Json.{string}
use lqs.Http.Reply.{ApiError}
use lqs.Http.Web.{Web}
use lqs.Http.Wire.{Protocol, json_protocol, query_protocol}
use lqs.Http.Answer.{json_of, ApiSuccess}
use lqs.Http.Xml.{element}
use lqs.Http.Body.{plain_element, json_body, xml_body}

-- An answer as it goes out; a header's value that is not valid is left out by the source.
pub record Response : Type 0 where
  pub status : ℕ
  pub headers : List (Bytes × Bytes)
  pub body : Bytes

abbrev content_type : Protocol → Bytes
content_type json_protocol = text "application/x-amz-json-1.0"
content_type query_protocol = text "text/xml; charset=utf-8"

abbrev query_error : Protocol → Bytes → List (Bytes × Bytes)
query_error json_protocol code = (text "x-amzn-query-error", code ++ text ";Sender") ∷ []
query_error query_protocol code = []

abbrev error_headers : Protocol → Option Bytes → List (Bytes × Bytes)
error_headers protocol none = []
error_headers protocol (some code) = (text "x-amzn-errortype", code) ∷ query_error protocol code

unfoldable pub response : ℕ → Protocol → Bytes → Bytes → Option Bytes → Response
response status protocol request_id body error_code = record {
  status = status;
  headers =
      (text "content-type", content_type protocol)
      ∷ (text "x-amzn-requestid", request_id)
      ∷ error_headers protocol error_code;
  body = body;
}

abbrev success_body : Web → Protocol → Bytes → ApiSuccess → Bytes
success_body web json_protocol request_id answer = json_body web answer
success_body web query_protocol request_id answer = xml_body web answer request_id

-- `ApiSuccess::into_response`
unfoldable pub success_response : Web → Protocol → Bytes → ApiSuccess → Response
success_response web protocol request_id answer =
    response 200 protocol request_id (success_body web protocol request_id answer) none

abbrev error_body : Web → Protocol → Bytes → ApiError → Bytes
error_body web json_protocol request_id e = web.external.json_print (
    json_of (
      (text "__type", string (text "com.amazonaws.sqs#" ++ e.code))
      ∷ (text "message", string e.message)
      ∷ []))
error_body web query_protocol request_id e =
    text "<?xml version=\"1.0\"?><ErrorResponse><Error><Type>Sender</Type>"
    ++ (plain_element (text "Code") e.code
        ++ (element (text "Message") e.message
            ++ (text "<Detail/></Error>"
                ++ (element (text "RequestId") request_id ++ text "</ErrorResponse>"))))

-- `ApiError::into_response`
unfoldable pub error_response : Web → Protocol → Bytes → ApiError → Response
error_response web protocol request_id e =
    response e.status protocol request_id (error_body web protocol request_id e) (some e.code)
