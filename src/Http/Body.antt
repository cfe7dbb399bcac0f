-- ===== src/Http/Body.antt =====
-- The text of an answer: `json_body` and `xml_body` of src/http_server.rs, the message
-- metadata of src/attributes_http.rs, and the results of src/batch_http.rs.
use lqs.Prelude.{
  ℕ, ◌&&◌, Bool, Option, none, some, List, [], ◌∷◌, ◌++◌, map, leb, ltb, Bytes, text, map_insert,
}
use lqs.Security.Json.{Json, boolean, string, array, of_list}
use lqs.Attributes.{
  MessageAttribute, MessageAttributeValue, MessageAttributes, message_attributes_md5,
}
use lqs.Queue.Types.{SendResult, ReceivedMessage}
use lqs.Batch.{BatchEntry}
use lqs.Http.Reply.{ApiError}
use lqs.Http.Web.{Web}
use lqs.Http.Answer.{
  JsonMap, json_of, json_texts, json_text_map, put_text, ApiBatchResult, ApiSuccess, management,
  batch, queue_created, message_sent, messages_received, message_deleted, visibility_changed,
  attributes_set, attributes_read, sources_listed,
}
use lqs.Http.Xml.{element, concat_map}

abbrev value_json : Web → MessageAttributeValue → JsonMap → JsonMap
value_json web (MessageAttributeValue.string s) entries =
    map_insert (text "StringValue") (string s) entries
value_json web (MessageAttributeValue.binary s) entries =
    map_insert (text "BinaryValue") (string (web.base64_encode s)) entries

unfoldable pub attribute_json : Web → MessageAttributes → JsonMap
attribute_json web [] = []
attribute_json web ((name, a) ∷ rest) =
    (name, json_of (value_json web a.value ((text "DataType", string a.data_type) ∷ [])))
    ∷ attribute_json web rest

unfoldable pub system_json : List (Bytes × Bytes) → JsonMap → JsonMap
system_json [] entries = entries
system_json (a ∷ rest) entries =
    map_insert (text "Attributes") (json_of (json_text_map (a ∷ rest))) entries

unfoldable pub digest_json : Web → MessageAttributes → Option Bytes → JsonMap → JsonMap
digest_json web attributes none entries = entries
digest_json web attributes (some digest) entries =
    map_insert (text "MessageAttributes") (json_of (attribute_json web attributes))
      (map_insert (text "MD5OfMessageAttributes") (string digest) entries)

-- `add_json_metadata`
unfoldable pub add_json_metadata : Web → ReceivedMessage → JsonMap → JsonMap
add_json_metadata web m entries =
    digest_json web m.message_attributes
      (message_attributes_md5 web.external.md5_hex m.message_attributes)
      (system_json m.system_attributes entries)

unfoldable pub message_json : Web → ReceivedMessage → Json
message_json web m = json_of (
    add_json_metadata web m (
      put_text (text "MessageId") (some m.message_id) (
        put_text (text "ReceiptHandle") (some m.receipt_handle) (
          put_text (text "MD5OfBody") (some (web.external.md5_hex m.body))
            (put_text (text "Body") (some m.body) [])))))

abbrev named_xml : Bytes × Bytes → Bytes
named_xml (name, v) =
    text "<Attribute>"
    ++ (element (text "Name") name ++ (element (text "Value") v ++ text "</Attribute>"))

-- A digest or an encoded value is not escaped.
abbrev pub plain_element : Bytes → Bytes → Bytes
plain_element name v = text "<" ++ (name ++ (text ">" ++ (v ++ (text "</" ++ (name ++ text ">")))))

abbrev value_xml : Web → MessageAttributeValue → Bytes
value_xml web (MessageAttributeValue.string s) = element (text "StringValue") s
value_xml web (MessageAttributeValue.binary s) =
    plain_element (text "BinaryValue") (web.base64_encode s)

abbrev attribute_xml : Web → Bytes × MessageAttribute → Bytes
attribute_xml web (name, a) =
    text "<MessageAttribute>"
    ++ (element (text "Name") name
        ++ (text "<Value>"
            ++ (element (text "DataType") a.data_type
                ++ (value_xml web a.value ++ text "</Value></MessageAttribute>"))))

abbrev digest_xml : Option Bytes → Bytes → Bytes
digest_xml none rest = []
digest_xml (some digest) rest = plain_element (text "MD5OfMessageAttributes") digest ++ rest

unfoldable pub xml_metadata : Web → ReceivedMessage → Bytes
xml_metadata web m =
    concat_map named_xml m.system_attributes
    ++ digest_xml (message_attributes_md5 web.external.md5_hex m.message_attributes)
        (concat_map (attribute_xml web) m.message_attributes)

unfoldable pub message_xml : Web → ReceivedMessage → Bytes
message_xml web m =
    text "<Message>"
    ++ (element (text "MessageId") m.message_id
        ++ (element (text "ReceiptHandle") m.receipt_handle
            ++ (plain_element (text "MD5OfBody") (web.external.md5_hex m.body)
                ++ (element (text "Body") m.body ++ (xml_metadata web m ++ text "</Message>")))))

-- `status.is_client_error()`
abbrev pub is_client_error : ℕ → Bool
is_client_error status = leb 400 status && ltb status 500

unfoldable pub succeeded_json : BatchEntry JsonMap → JsonMap
succeeded_json e = map_insert (text "Id") (string e.id) e.value

unfoldable pub failed_json : BatchEntry ApiError → JsonMap
failed_json e =
    (text "Code", string e.value.code)
    ∷ (text "Id", string e.id)
    ∷ (text "Message", string e.value.message)
    ∷ (text "SenderFault", boolean (is_client_error e.value.status))
    ∷ []

unfoldable pub json_result : ApiBatchResult → JsonMap
json_result result =
    (text "Failed", array (of_list (map (λ e. json_of (failed_json e)) result.failed)))
    ∷ (text "Successful", array (of_list (map (λ e. json_of (succeeded_json e)) result.successful)))
    ∷ []

abbrev field_text : Web → Json → Bytes
field_text web (string s) = s
field_text web v = web.external.json_print v

abbrev entry_xml : Web → Bytes → JsonMap → Bytes
entry_xml web tag entry =
    text "<"
    ++ (tag
        ++ (text ">"
            ++ (concat_map (λ (f : Bytes × Json). element f.0 (field_text web f.1)) entry
                ++ (text "</" ++ (tag ++ text ">")))))

unfoldable pub xml_result : Web → Bytes → ApiBatchResult → Bytes
xml_result web action result =
    concat_map (λ e. entry_xml web (action ++ text "ResultEntry") (succeeded_json e))
      result.successful
    ++ concat_map (λ e. entry_xml web (text "BatchResultErrorEntry") (failed_json e)) result.failed

unfoldable pub sent_answer : Web → SendResult → Bytes → Option Bytes → JsonMap
sent_answer web result body sequence_number =
    put_text (text "MD5OfMessageAttributes") result.md5_of_message_attributes (
      put_text (text "SequenceNumber") sequence_number (
        put_text (text "MessageId") (some result.message_id)
          (put_text (text "MD5OfMessageBody") (some (web.external.md5_hex body)) [])))

unfoldable pub json_answer : Web → ApiSuccess → JsonMap
json_answer web (management action json xml) = json
json_answer web (batch action result) = json_result result
json_answer web (queue_created url) = (text "QueueUrl", string url) ∷ []
json_answer web (message_sent result body sequence_number) =
    sent_answer web result body sequence_number
json_answer web (messages_received messages) =
    (text "Messages", array (of_list (map (message_json web) messages))) ∷ []
json_answer web message_deleted = []
json_answer web visibility_changed = []
json_answer web attributes_set = []
json_answer web (attributes_read attributes) =
    (text "Attributes", json_of (json_text_map attributes)) ∷ []
json_answer web (sources_listed urls next_cursor) =
    put_text (text "NextToken") next_cursor ((text "queueUrls", json_texts urls) ∷ [])

unfoldable pub json_body : Web → ApiSuccess → Bytes
json_body web answer = web.external.json_print (json_of (json_answer web answer))

abbrev optional_element : Bytes → Option Bytes → Bytes
optional_element name none = []
optional_element name (some v) = element name v

abbrev optional_digest : Option Bytes → Bytes
optional_digest none = []
optional_digest (some digest) = plain_element (text "MD5OfMessageAttributes") digest

abbrev sent_xml : Web → SendResult → Bytes → Option Bytes → Bytes
sent_xml web result body sequence_number =
    plain_element (text "MD5OfMessageBody") (web.external.md5_hex body)
    ++ (element (text "MessageId") result.message_id
        ++ (optional_element (text "SequenceNumber") sequence_number
            ++ optional_digest result.md5_of_message_attributes))

-- The action and its result's content
unfoldable pub xml_answer : Web → ApiSuccess → Bytes × Bytes
xml_answer web (management action json xml) = (action, xml)
xml_answer web (batch action result) = (action, xml_result web action result)
xml_answer web (queue_created url) = (text "CreateQueue", element (text "QueueUrl") url)
xml_answer web (message_sent result body sequence_number) =
    (text "SendMessage", sent_xml web result body sequence_number)
xml_answer web (messages_received messages) =
    (text "ReceiveMessage", concat_map (message_xml web) messages)
xml_answer web message_deleted = (text "DeleteMessage", [])
xml_answer web visibility_changed = (text "ChangeMessageVisibility", [])
xml_answer web attributes_set = (text "SetQueueAttributes", [])
xml_answer web (attributes_read attributes) =
    (text "GetQueueAttributes", concat_map named_xml attributes)
xml_answer web (sources_listed urls next_cursor) = (
  text "ListDeadLetterSourceQueues",
  concat_map (element (text "QueueUrl")) urls ++ optional_element (text "NextToken") next_cursor,
)

unfoldable pub xml_body : Web → ApiSuccess → Bytes → Bytes
xml_body web answer request_id =
    let (action, result) = xml_answer web answer in
    text "<?xml version=\"1.0\"?><"
    ++ (action
        ++ (text "Response xmlns=\"http://queue.amazonaws.com/doc/2012-11-05/\"><"
            ++ (action
                ++ (text "Result>"
                    ++ (result
                        ++ (text "</"
                            ++ (action
                                ++ (text "Result><ResponseMetadata>"
                                    ++ (element (text "RequestId") request_id
                                        ++ (text "</ResponseMetadata></"
                                            ++ (action ++ text "Response>")))))))))))
