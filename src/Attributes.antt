-- ===== src/Attributes.antt =====
-- src/message_attributes.rs: message attributes, their size, validation and normalisation.
-- A `BTreeMap` is the list of its entries in key order.
pub mod Number
use lqs.Prelude.{
  ℕ, ◌+◌, Bool, true, false, not, ◌&&◌, ◌||◌, Option, none, some, List, [], ◌∷◌, ◌++◌, map,
  if◌then◌else◌, ltb, leb, in_range, ◌==◌, length, is_empty, all, max, Bytes, text, bytes_eq,
  is_ascii_alphanumeric, to_ascii_lowercase, starts_with, ends_with, contains_text, split_once,
  chars,
}
use lqs.Prelude.Word.{saturating_add, u32_be_bytes}
use lqs.Error.{
  Result, ok, err, out_of_fuel, ◌>>=◌, ◌>>◌, fail_if, or_fail, invalid_message_attributes, LqsError,
}
use Number.{normalize_number}

pub data MessageAttributeValue : Type 0 where
  string : Bytes → MessageAttributeValue
  binary : Bytes → MessageAttributeValue

pub record MessageAttribute : Type 0 where
  pub data_type : Bytes
  pub value : MessageAttributeValue

abbrev pub MessageAttributes : Type 0
MessageAttributes = List (Bytes × MessageAttribute)

abbrev pub as_bytes : MessageAttributeValue → Bytes
as_bytes (string s) = s
as_bytes (binary s) = s

unfoldable pub size_from : ℕ → MessageAttributes → ℕ
size_from sum [] = sum
size_from sum ((name, attribute) ∷ rest) =
    size_from
      (saturating_add
        (saturating_add (saturating_add sum (length name)) (length attribute.data_type))
        (length (as_bytes attribute.value)))
      rest

unfoldable pub message_attributes_size : MessageAttributes → ℕ
message_attributes_size attributes = size_from 0 attributes

unfoldable pub is_xml_char : ℕ → Bool
is_xml_char c =
    c == 9
    || c == 10
    || c == 13
    || in_range 0x20 0xd7ff c
    || in_range 0xe000 0xfffd c
    || in_range 0x10000 0x10ffff c

unfoldable pub valid_xml_text : Bytes → Bool
valid_xml_text value = all is_xml_char (chars value)

unfoldable pub is_name_byte : ℕ → Bool
is_name_byte b = is_ascii_alphanumeric b || b == b'_' || b == b'-' || b == b'.'

unfoldable pub invalid_name : Bytes → Bool
invalid_name name =
    let lower = to_ascii_lowercase name in
    is_empty name
    || ltb 256 (length name)
    || starts_with lower (text "aws.")
    || starts_with lower (text "amazon.")
    || starts_with name (text ".")
    || ends_with name (text ".")
    || contains_text name (text "..")
    || not (all is_name_byte name)

-- `data_type.split_once('.')`: the kind, and the suffix if there is a dot.
unfoldable pub kind_and_suffix : Bytes → Bytes × Option Bytes
kind_and_suffix data_type = elim (split_once (λ b. b == b'.') data_type) [
  | none ↦ (data_type, none)
  | some (kind, suffix) ↦ (kind, some suffix)
]

abbrev is_empty_suffix : Option Bytes → Bool
is_empty_suffix none = false
is_empty_suffix (some s) = is_empty s

abbrev invalid : Bytes → LqsError
invalid reason = invalid_message_attributes reason

unfoldable pub number_value : Option Bytes → Result MessageAttributeValue
number_value none = err (
    invalid (
      text "Number must have at most 38 digits of precision and magnitude 1e-128..1e126 (or zero)"))
number_value (some n) = ok (string n)

-- The `match (kind, &mut attribute.value)`: the value that is stored.
unfoldable pub normalize_value : Bytes → MessageAttributeValue → Result MessageAttributeValue
normalize_value kind (string s) =
    if bytes_eq kind (text "String") && valid_xml_text s
    then ok (string s)
    else if bytes_eq kind (text "Number")
    then number_value (normalize_number s)
    else err (invalid (text "attribute type and value do not match"))
normalize_value kind (binary s) =
    if bytes_eq kind (text "Binary")
    then ok (binary s)
    else err (invalid (text "attribute type and value do not match"))

unfoldable pub validate_attribute : Bytes → MessageAttribute → Result MessageAttribute
validate_attribute name attribute = do
  let (kind, suffix) = kind_and_suffix attribute.data_type
  fail_if (invalid_name name) (invalid (text "invalid attribute name"))
  fail_if
      (ltb 256 (length (chars attribute.data_type))
        || not (valid_xml_text attribute.data_type)
        || is_empty_suffix suffix)
      (invalid (text "invalid attribute data type"))
  fail_if (is_empty (as_bytes attribute.value))
      (invalid (text "attribute values must not be empty"))
  value ← normalize_value kind attribute.value
  ok (record attribute { value = value })

unfoldable pub validate_entries : MessageAttributes → Result MessageAttributes
validate_entries [] = ok []
validate_entries ((name, attribute) ∷ rest) = do
  a ← validate_attribute name attribute
  r ← validate_entries rest
  ok ((name, a) ∷ r)

-- The attributes as they are left in place; the callers drop the map after an error.
unfoldable pub validate_message_attributes : MessageAttributes → Result MessageAttributes
validate_message_attributes attributes = do
  fail_if (ltb 10 (length attributes)) (invalid (text "at most 10 attributes are allowed"))
  validate_entries attributes

-- The size that counts towards a batch: the larger of the raw and the normalised attributes.
unfoldable pub payload_size : Bytes → MessageAttributes → ℕ
payload_size body attributes =
    let raw = message_attributes_size attributes in
    saturating_add (length body) (
      max raw (elim (validate_message_attributes attributes) [
        | ok normalized ↦ message_attributes_size normalized
        | err e ↦ raw
        | out_of_fuel ↦ raw
      ]))

unfoldable pub type_tag : MessageAttributeValue → ℕ
type_tag (string _) = 1
type_tag (binary _) = 2

-- What `message_attributes_md5` feeds to the digest.
unfoldable pub digest_input : MessageAttributes → Bytes
digest_input [] = []
digest_input ((name, attribute) ∷ rest) =
    u32_be_bytes (length name)
    ++ (name
        ++ (u32_be_bytes (length attribute.data_type)
            ++ (attribute.data_type
                ++ (type_tag attribute.value
                    ∷ (u32_be_bytes (length (as_bytes attribute.value))
                        ++ (as_bytes attribute.value ++ digest_input rest))))))

-- `md5_hex` is the digest of the md5 crate, printed in hexadecimal.
unfoldable pub message_attributes_md5 : (Bytes → Bytes) → MessageAttributes → Option Bytes
message_attributes_md5 md5_hex [] = none
message_attributes_md5 md5_hex (a ∷ rest) = some (md5_hex (digest_input (a ∷ rest)))
