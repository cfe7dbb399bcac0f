-- ===== src/Http/Laws/Escape.antt =====
-- src/http_server.rs `xml_escape`: the five replacements do not disturb each other.
use lqs.Prelude.{
  ℕ, Bool, true, not, ◌||◌, ◌≡◌, refl, sym, ap, ◌∙◌, [], ◌∷◌, ◌++◌, arith, if◌then◌else◌, ◌==◌,
  Bool-cases, inl, inr, ==_iff, all, Bytes, text,
}
use mathlib.Core.List.{append_assoc}
use lqs.Prelude.Query.{all-++}
use lqs.Http.Xml.{replace_byte, xml_escape, concat_map}

-- What becomes of one byte.
unfoldable pub escape_byte : ℕ → Bytes
escape_byte c =
    if c == b'&'
    then text "&amp;"
    else if c == b'<'
    then text "&lt;"
    else if c == b'>'
    then text "&gt;"
    else if c == b'"'
    then text "&quot;"
    else if c == b'\''
    then text "&apos;"
    else c ∷ []

replace_byte-++ :
    (b : ℕ) (with s t : Bytes)
    → replace_byte b with (s ++ t) ≡ (replace_byte b with s ++ replace_byte b with t)
unfolding replace_byte
replace_byte-++ b with [] t = refl
replace_byte-++ b with (c ∷ s) t = elim (Bool-cases (c == b)) [
  | inl e ↦
      rw (e, replace_byte)
        (ap (λ u. with ++ u) (replace_byte-++ b with s t)
          ∙ sym (append_assoc with (replace_byte b with s) (replace_byte b with t)))
  | inr e ↦ rw (e, replace_byte) (ap (λ u. c ∷ u) (replace_byte-++ b with s t))
]

xml_escape-++ : (s t : Bytes) → xml_escape (s ++ t) ≡ (xml_escape s ++ xml_escape t)
unfolding xml_escape
xml_escape-++ s t = simp (replace_byte-++)

at : (c d : ℕ) → c ≡ d → xml_escape (d ∷ []) ≡ escape_byte d → xml_escape (c ∷ []) ≡ escape_byte c
at c d e k = rw e k

xml_escape-byte : (c : ℕ) → xml_escape (c ∷ []) ≡ escape_byte c
unfolding xml_escape escape_byte replace_byte text
xml_escape-byte c = elim (Bool-cases (c == b'&')) [
  | inl e ↦ at c 38 ((==_iff c 38).0 e) refl
  | inr e1 ↦ elim (Bool-cases (c == b'<')) [
    | inl e ↦ at c 60 ((==_iff c 60).0 e) refl
    | inr e2 ↦ elim (Bool-cases (c == b'>')) [
      | inl e ↦ at c 62 ((==_iff c 62).0 e) refl
      | inr e3 ↦ elim (Bool-cases (c == b'"')) [
        | inl e ↦ at c 34 ((==_iff c 34).0 e) refl
        | inr e4 ↦ elim (Bool-cases (c == b'\'')) [
          | inl e ↦ at c 39 ((==_iff c 39).0 e) refl
          | inr e5 ↦ rw (e1, e2, e3, e4, e5, replace_byte, xml_escape, escape_byte) refl
        ]
      ]
    ]
  ]
]

-- The text that goes out is what one pass over the bytes gives, each replaced by its own.
pub xml_escape-concat_map : (v : Bytes) → xml_escape v ≡ concat_map escape_byte v
unfolding concat_map
xml_escape-concat_map [] = unfold xml_escape replace_byte in refl
xml_escape-concat_map (c ∷ v) =
    xml_escape-++ (c ∷ []) v ∙ rw (xml_escape-byte c, xml_escape-concat_map v) refl

-- A byte that does not end a text or an attribute's value in XML.
abbrev pub is_plain : ℕ → Bool
is_plain c = not (c == b'<' || c == b'>' || c == b'"' || c == b'\'')

escape_byte-plain : (c : ℕ) → all is_plain (escape_byte c) ≡ true
unfolding escape_byte all text
escape_byte-plain c = ground arith

plain_bytes : (s : Bytes) → all is_plain (concat_map escape_byte s) ≡ true
unfolding concat_map all
plain_bytes [] = refl
plain_bytes (c ∷ s) = all-++ is_plain (escape_byte c) _ (escape_byte-plain c) (plain_bytes s)

-- No angle bracket and no quotation mark is left: a text cannot end the element that it stands in.
pub xml_escape-plain : (v : Bytes) → all is_plain (xml_escape v) ≡ true
xml_escape-plain v = rw (xml_escape-concat_map v) (plain_bytes v)
