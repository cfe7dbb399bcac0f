-- ===== src/Prelude/Parse.antt =====
-- Parts of texts, numbers in requests, and maps read by key.
use Prim.Native.Nat.{ℕ, ◌+◌, ◌-◌, ◌*◌, ◌^◌}
use mathlib.Core.Bool.{◌&&◌, not}
use mathlib.Core.Option.{Option, none, some}
use mathlib.Core.List.{List, [], ◌∷◌}
use lqs.Prelude.Tests.{ltb, ◌==◌, if◌then◌else◌}
use lqs.Prelude.Lists.{length, all, drop, take}
use lqs.Prelude.Text.{Bytes, bytes_eq, starts_with, ends_with, is_ascii_digit}
use lqs.Prelude.Print.{decimal}

-- `value.strip_prefix(prefix)`
unfoldable pub strip_prefix : Bytes → Bytes → Option Bytes
unfolding starts_with drop
strip_prefix prefix value =
    if starts_with value prefix then some (drop (length prefix) value) else none

-- `value.strip_suffix(suffix)`
unfoldable pub strip_suffix : Bytes → Bytes → Option Bytes
unfolding ends_with take
strip_suffix suffix value =
    if ends_with value suffix then some (take (length value - length suffix) value) else none

-- `value.split(sep).next()`, which is never `None`
unfoldable pub before_first : ℕ → Bytes → Bytes
before_first sep [] = []
before_first sep (b ∷ s) = if b == sep then [] else b ∷ before_first sep s

-- `value.rsplit(sep).next()`: what stands after the last separator
unfoldable pub after_last : ℕ → Bytes → Bytes
after_last sep [] = []
after_last sep (b ∷ s) = if all (λ c. not (c == sep)) (b ∷ s) then b ∷ s else after_last sep s

-- The value of decimal digits, after `n`.
unfoldable pub decimal_value : ℕ → Bytes → ℕ
decimal_value n [] = n
decimal_value n (b ∷ s) = decimal_value (n * 10 + (b - 48)) s

unfoldable pub digits_u64 : Bytes → Option ℕ
unfolding decimal_value is_ascii_digit all
digits_u64 [] = none
digits_u64 (b ∷ s) =
    if all is_ascii_digit (b ∷ s) && ltb (decimal_value 0 (b ∷ s)) (2 ^ 64)
    then some (decimal_value 0 (b ∷ s))
    else none

-- `str::parse::<u64>`, and `::<usize>` on 64 bits: digits after at most one plus sign
unfoldable pub parse_u64 : Bytes → Option ℕ
unfolding digits_u64
parse_u64 [] = none
parse_u64 (b ∷ s) = if b == b'+' then digits_u64 s else digits_u64 (b ∷ s)

-- `index.parse().ok().filter(|n| *n > 0 && n.to_string() == index)`
unfoldable pub parse_index : Bytes → Option ℕ
unfolding parse_u64 decimal bytes_eq
parse_index index = elim (parse_u64 index) [
  | none ↦ none
  | some n ↦ if ltb 0 n && bytes_eq (decimal n) index then some n else none
]

-- `map.get(key)`
unfoldable pub map_get {ℓ} : {V : Type ℓ} → Bytes → List (Bytes × V) → Option V
unfolding bytes_eq
map_get k [] = none
map_get k ((j, v) ∷ m) = if bytes_eq j k then some v else map_get k m

-- `BTreeMap<usize, _>`: an insertion by number
unfoldable pub index_insert {ℓ} : {V : Type ℓ} → ℕ → V → List (ℕ × V) → List (ℕ × V)
index_insert n v [] = (n, v) ∷ []
index_insert n v ((m, w) ∷ rest) =
    if n == m
    then (n, v) ∷ rest
    else if ltb n m
    then (n, v) ∷ (m, w) ∷ rest
    else (m, w) ∷ index_insert n v rest

unfoldable pub index_get {ℓ} : {V : Type ℓ} → ℕ → List (ℕ × V) → Option V
index_get n [] = none
index_get n ((m, w) ∷ rest) = if n == m then some w else index_get n rest
