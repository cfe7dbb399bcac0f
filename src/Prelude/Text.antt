-- ===== src/Prelude/Text.antt =====
-- Rust strings as their UTF-8 bytes.
use Prim.Native.Nat.{ℕ, zero, suc, ◌+◌, ◌-◌, ◌*◌}
use Prim.Native.Char.{code}
use Prim.Native.String.{String}
use mathlib.Core.Path.{◌≡◌, refl, ap₂}
use mathlib.Core.Logic.{◌↔◌}
use mathlib.Core.Bool.{Bool, true, false, ◌&&◌, ◌||◌}
use mathlib.Core.Option.{Option, none, some}
use mathlib.Core.List.{List, [], ◌∷◌, ◌++◌}
use native.Mathlib.Omega.{arith}
use lqs.Prelude.Tests.{ltb, in_range, ◌==◌, ==_iff, if◌then◌else◌, and-eq-true}

abbrev pub Bytes : Type 0
Bytes = List ℕ

codes : String → Bytes
codes String.[] = []
codes (String.◌∷◌ c s) = code c ∷ codes s

-- The bytes of an ASCII literal.
unfoldable pub text : String → Bytes
unfolding codes
text s = codes s

unfoldable pub bytes_eq : Bytes → Bytes → Bool
bytes_eq [] [] = true
bytes_eq (a ∷ x) (b ∷ y) = a == b && bytes_eq x y
bytes_eq _ _ = false

pub bytes_eq→≡ : (a b : Bytes) → bytes_eq a b ≡ true → a ≡ b
unfolding bytes_eq
bytes_eq→≡ [] [] h = refl
bytes_eq→≡ [] (b ∷ y) h = cc
bytes_eq→≡ (a ∷ x) [] h = cc
bytes_eq→≡ (a ∷ x) (b ∷ y) h =
    let (p, q) = and-eq-true (a == b) (bytes_eq x y) h in
    ap₂ ◌∷◌ ((==_iff a b).0 p) (bytes_eq→≡ x y q)

pub bytes_eq_refl : (a : Bytes) → bytes_eq a a ≡ true
unfolding bytes_eq
bytes_eq_refl [] = refl
bytes_eq_refl (a ∷ x) = ground (arith, bytes_eq_refl x)

pub bytes_eq_iff : (a b : Bytes) → (bytes_eq a b ≡ true) ↔ (a ≡ b)
bytes_eq_iff a b = (bytes_eq→≡ a b, λ e. ground (arith, bytes_eq_refl a))

-- `u8::is_ascii_graphic`
unfoldable pub is_ascii_graphic : ℕ → Bool
is_ascii_graphic b = in_range 33 126 b

-- `u8::is_ascii_digit`
unfoldable pub is_ascii_digit : ℕ → Bool
is_ascii_digit b = in_range 48 57 b

-- `u8::is_ascii_alphanumeric`
unfoldable pub is_ascii_alphanumeric : ℕ → Bool
is_ascii_alphanumeric b = in_range 48 57 b || in_range 65 90 b || in_range 97 122 b

-- `str::to_ascii_lowercase`
unfoldable pub to_ascii_lowercase : Bytes → Bytes
to_ascii_lowercase [] = []
to_ascii_lowercase (b ∷ s) = (if in_range 65 90 b then b + 32 else b) ∷ to_ascii_lowercase s

-- `value.starts_with(prefix)`
unfoldable pub starts_with : Bytes → Bytes → Bool
starts_with value [] = true
starts_with [] (p ∷ prefix) = false
starts_with (b ∷ value) (p ∷ prefix) = b == p && starts_with value prefix

-- `value.ends_with(suffix)`
unfoldable pub ends_with : Bytes → Bytes → Bool
unfolding bytes_eq
ends_with [] suffix = bytes_eq [] suffix
ends_with (b ∷ value) suffix = bytes_eq (b ∷ value) suffix || ends_with value suffix

-- `value.contains(part)`
unfoldable pub contains_text : Bytes → Bytes → Bool
unfolding starts_with
contains_text [] part = starts_with [] part
contains_text (b ∷ value) part = starts_with (b ∷ value) part || contains_text value part

-- `value.split_once(b)`: around the first byte that passes the test.
unfoldable pub split_once : (ℕ → Bool) → Bytes → Option (Bytes × Bytes)
split_once p [] = none
split_once p (b ∷ s) =
    if p b
    then some ([], s)
    else elim (split_once p s) [ none ↦ none | some (l, r) ↦ some (b ∷ l, r) ]

is_continuation : ℕ → Bool
is_continuation b = in_range 128 191 b

lead_bits : ℕ → ℕ
lead_bits b =
    if ltb b 128 then b else if ltb b 224 then b - 192 else if ltb b 240 then b - 224 else b - 240

pending : Option ℕ → List ℕ
pending none = []
pending (some c) = c ∷ []

extended : Option ℕ → ℕ → Option ℕ
extended none b = none
extended (some c) b = some (c * 64 + (b - 128))

chars_from : Option ℕ → Bytes → List ℕ
unfolding pending extended
chars_from c [] = pending c
chars_from c (b ∷ s) =
    (if is_continuation b then [] else pending c)
    ++ chars_from (if is_continuation b then extended c b else some (lead_bits b)) s

-- `str::chars`: the code points of valid UTF-8.
unfoldable pub chars : Bytes → List ℕ
unfolding chars_from is_continuation lead_bits
chars s = chars_from none s

-- `Option<&str> == Option<&str>`
unfoldable pub option_eq : Option Bytes → Option Bytes → Bool
unfolding bytes_eq
option_eq none none = true
option_eq (some a) (some b) = bytes_eq a b
option_eq _ _ = false

-- The byte order, which `BTreeMap<String, _>` and SQLite's BINARY collation share.
unfoldable pub bytes_lt : Bytes → Bytes → Bool
bytes_lt [] [] = false
bytes_lt [] (b ∷ y) = true
bytes_lt (a ∷ x) [] = false
bytes_lt (a ∷ x) (b ∷ y) = ltb a b || (a == b && bytes_lt x y)

-- `BTreeMap::insert`, on the entries in key order.
unfoldable pub map_insert {ℓ} : {V : Type ℓ} → Bytes → V → List (Bytes × V) → List (Bytes × V)
unfolding bytes_eq bytes_lt
map_insert k v [] = (k, v) ∷ []
map_insert k v ((j, w) ∷ m) =
    if bytes_eq k j
    then (k, v) ∷ m
    else if bytes_lt k j
    then (k, v) ∷ (j, w) ∷ m
    else (j, w) ∷ map_insert k v m

-- `value.split(sep)`
unfoldable pub split : ℕ → Bytes → List Bytes
split sep [] = [] ∷ []
split sep (b ∷ s) = elim (split sep s) [
  | [] ↦ (b ∷ []) ∷ []
  | part ∷ rest ↦ if b == sep then [] ∷ part ∷ rest else (b ∷ part) ∷ rest
]

-- `value.splitn(n + 1, sep)`: the last part is not split.
unfoldable pub splitn : ℕ → ℕ → Bytes → List Bytes
unfolding split_once
splitn zero sep s = s ∷ []
splitn (suc n) sep s = elim (split_once (λ b. b == sep) s) [
  | none ↦ s ∷ []
  | some (l, r) ↦ l ∷ splitn n sep r
]
