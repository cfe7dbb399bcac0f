-- ===== src/Http/Xml.antt =====
-- src/http_server.rs: `xml_escape`, five replacements one after the other.
use lqs.Prelude.{ℕ, List, [], ◌∷◌, ◌++◌, if◌then◌else◌, ◌==◌, Bytes, text}

-- `value.replace(b, with)` for one ASCII character
unfoldable pub replace_byte : ℕ → Bytes → Bytes → Bytes
replace_byte b with [] = []
replace_byte b with (c ∷ s) =
    if c == b then with ++ replace_byte b with s else c ∷ replace_byte b with s

unfoldable pub xml_escape : Bytes → Bytes
xml_escape v = replace_byte b'\'' (text "&apos;") (
    replace_byte b'"' (text "&quot;") (
      replace_byte b'>' (text "&gt;")
        (replace_byte b'<' (text "&lt;") (replace_byte b'&' (text "&amp;") v))))

-- `<name>v</name>` with `v` escaped
unfoldable pub element : Bytes → Bytes → Bytes
element name v =
    text "<" ++ (name ++ (text ">" ++ (xml_escape v ++ (text "</" ++ (name ++ text ">")))))

-- `.map(f).collect::<String>()`
unfoldable pub concat_map {ℓ} : {A : Type ℓ} → (A → Bytes) → List A → Bytes
concat_map f [] = []
concat_map f (a ∷ rest) = f a ++ concat_map f rest
