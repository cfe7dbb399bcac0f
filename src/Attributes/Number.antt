-- ===== src/Attributes/Number.antt =====
-- src/message_attributes.rs: `normalize_number`. `i32` values are integers; a length that does not
-- fit, and a checked sum that overflows, give `none` as they do there.
use lqs.Prelude.{
  ℕ, ◌+◌, ◌-◌, ◌*◌, Bool, true, false, not, ◌&&◌, ◌||◌, Option, none, some, [], ◌∷◌, ◌++◌,
  if◌then◌else◌, ltb, leb, ◌==◌, length, all, take, drop, replicate, trim_start, trim_end, Bytes,
  text, bytes_eq, is_ascii_digit, split_once,
}
use lqs.Prelude.Int.{ℤ, pos, negsuc, pos_part, neg_part, sub_ℕ, ◌+ℤ◌, ◌-ℤ◌, ◌≤ℤ◌}

infixl 5 ◌>>=◌
abbrev ◌>>=◌ {ℓ κ} : {A : Type ℓ} {B : Type κ} → Option A → (A → Option B) → Option B
none >>= f = none
some a >>= f = f a

abbrev i32_max : ℕ
i32_max = 2147483647

-- A result of `checked_add`, `checked_sub` or `try_from`.
unfoldable pub checked_i32 : ℤ → Option ℤ
checked_i32 z = if leb (pos_part z) i32_max && leb (neg_part z) (i32_max + 1) then some z else none

unfoldable pub digits_value : ℕ → Bytes → ℕ
digits_value n [] = n
digits_value n (b ∷ s) = digits_value (n * 10 + (b - 48)) s

unfoldable pub parse_digits : Bool → Bytes → Option ℤ
parse_digits negative [] = none
parse_digits negative (b ∷ s) =
    if all is_ascii_digit (b ∷ s)
    then checked_i32
        (if negative then sub_ℕ 0 (digits_value 0 (b ∷ s)) else pos (digits_value 0 (b ∷ s)))
    else none

-- `str::parse::<i32>`
unfoldable pub parse_i32 : Bytes → Option ℤ
parse_i32 [] = none
parse_i32 (b ∷ s) =
    if b == b'-'
    then parse_digits true s
    else if b == b'+'
    then parse_digits false s
    else parse_digits false (b ∷ s)

-- `value.strip_prefix(['-', '+']).unwrap_or(value)`
unfoldable pub strip_sign : Bytes → Bytes
strip_sign [] = []
strip_sign (b ∷ s) = if b == b'-' || b == b'+' then s else b ∷ s

unfoldable pub is_negative : Bytes → Bool
is_negative [] = false
is_negative (b ∷ s) = b == b'-'

abbrev is_exponent_mark : ℕ → Bool
is_exponent_mark b = b == b'e' || b == b'E'

unfoldable pub split_exponent : Bytes → Option (Bytes × ℤ)
split_exponent s = elim (split_once is_exponent_mark s) [
  | none ↦ some (s, pos 0)
  | some (mantissa, exponent) ↦ elim (parse_i32 exponent) [
    | none ↦ none
    | some e ↦ some (mantissa, e)
  ]
]

unfoldable pub split_fraction : Bytes → Bytes × Bytes
split_fraction s = elim (split_once (λ b. b == b'.') s) [ none ↦ (s, []) | some r ↦ r ]

abbrev is_zero_digit : ℕ → Bool
is_zero_digit b = b == b'0'

-- The decimal point is put `point` digits into the coefficient.
unfoldable pub place_point : Bytes → ℤ → Bytes
place_point coefficient point =
    if point ≤ℤ pos 0
    then text "0." ++ (replicate (neg_part point) b'0' ++ coefficient)
    else if leb (length coefficient) (pos_part point)
    then coefficient ++ replicate (pos_part point - length coefficient) b'0'
    else take (pos_part point) coefficient ++ (b'.' ∷ drop (pos_part point) coefficient)

abbrev in_magnitude : ℤ → Bytes → Bool
in_magnitude magnitude coefficient =
    (negsuc 127 ≤ℤ magnitude && magnitude ≤ℤ pos 126)
    && not (pos 126 ≤ℤ magnitude && not (bytes_eq coefficient (b'1' ∷ [])))

-- The part after the mantissa's digits are known: `leading` has no zeros in front.
unfoldable pub normalize_digits : Bool → ℤ → Bytes → Bytes → Option Bytes
normalize_digits negative exponent fraction leading =
    let coefficient = trim_end is_zero_digit leading in
    if ltb 38 (length coefficient) then none else do
      fraction_length ← checked_i32 (pos (length fraction))
      shifted ← checked_i32 (exponent -ℤ fraction_length)
      trimmed ← checked_i32 (pos (length leading - length coefficient))
      scale ← checked_i32 (shifted +ℤ trimmed)
      if in_magnitude (pos (length coefficient) -ℤ pos 1 +ℤ scale) coefficient
          then some (
              (if negative then b'-' ∷ [] else [])
              ++ place_point coefficient (pos (length coefficient) +ℤ scale))
          else none

unfoldable pub normalize_mantissa : Bool → ℤ → Bytes × Bytes → Option Bytes
normalize_mantissa negative exponent (integer, fraction) =
    let leading = trim_start is_zero_digit (integer ++ fraction) in
    if length integer + length fraction == 0 || not (all is_ascii_digit (integer ++ fraction))
    then none
    else elim leading [
      | [] ↦ some (b'0' ∷ [])
      | b ∷ s ↦ normalize_digits negative exponent fraction (b ∷ s)
    ]

unfoldable pub normalize_number : Bytes → Option Bytes
normalize_number s = do
  (mantissa, exponent) ← split_exponent (strip_sign s)
  if ltb 1000 (pos_part exponent) || ltb 1000 (neg_part exponent)
      then none
      else normalize_mantissa (is_negative s) exponent (split_fraction mantissa)
