-- ===== src/Prelude/Print.antt =====
-- Numbers as text: `{:016x}`, `{:08x}`, `to_string`, and `u64::from_str_radix(_, 16)`.
use Prim.Native.Nat.{ℕ, zero, suc, ◌+◌, ◌-◌, ◌*◌, ◌/◌, ◌%◌, ◌^◌, max}
use mathlib.Core.List.{[], ◌∷◌, ◌++◌}
use mathlib.Core.Option.{Option, none, some}
use lqs.Prelude.Tests.{ltb, in_range, ◌==◌, if◌then◌else◌}
use lqs.Prelude.Text.{Bytes}

unfoldable pub hex_digit : ℕ → ℕ
hex_digit d = if ltb d 10 then 48 + d else 87 + d

-- The last `w` hexadecimal digits.
unfoldable pub hex_fixed : ℕ → ℕ → Bytes
unfolding hex_digit
hex_fixed zero n = []
hex_fixed (suc w) n = hex_fixed w (n / 16) ++ hex_digit (n % 16) ∷ []

hex_length : ℕ → ℕ → ℕ
hex_length zero n = 0
hex_length (suc f) n = let rest = hex_length f (n / 16) in if n == 0 then 0 else suc rest

-- All digits of a number below 2^64, and at least `w` of them.
unfoldable pub hex_min : ℕ → ℕ → Bytes
unfolding hex_length hex_fixed
hex_min w n = hex_fixed (max w (hex_length 16 n)) n

decimal_from : ℕ → ℕ → Bytes
decimal_from zero n = []
decimal_from (suc f) n =
    let front = decimal_from f (n / 10) in
    if ltb n 10 then (48 + n) ∷ [] else front ++ (48 + n % 10) ∷ []

-- `to_string`; a number below 2^64 has at most 20 digits.
unfoldable pub decimal : ℕ → Bytes
unfolding decimal_from
decimal n = decimal_from 20 n

unfoldable pub hex_value : ℕ → Option ℕ
hex_value b =
    if in_range 48 57 b
    then some (b - 48)
    else if in_range 97 102 b
    then some (b - 87)
    else if in_range 65 70 b
    then some (b - 55)
    else none

unfoldable pub parse_hex_from : ℕ → Bytes → Option ℕ
unfolding hex_value
parse_hex_from n [] = some n
parse_hex_from n (b ∷ s) = elim (hex_value b) [
  | none ↦ none
  | some d ↦ if ltb (n * 16 + d) (2 ^ 64) then parse_hex_from (n * 16 + d) s else none
]

unfoldable pub parse_hex : Bytes → Option ℕ
unfolding parse_hex_from
parse_hex [] = none
parse_hex (b ∷ s) =
    if b == b'+'
    then elim s [ [] ↦ none | c ∷ r ↦ parse_hex_from 0 (c ∷ r) ]
    else parse_hex_from 0 (b ∷ s)
