-- ===== src/Prelude/Word.antt =====
-- Machine words: saturating sums and big-endian bytes.
use Prim.Native.Nat.{ℕ, ◌+◌, ◌*◌, ◌/◌, ◌%◌, ◌^◌, min}
use mathlib.Core.List.{List, [], ◌∷◌}

abbrev pub usize_max : ℕ
usize_max = 18446744073709551615

abbrev pub i64_max : ℕ
i64_max = 9223372036854775807

-- `usize::saturating_add`
unfoldable pub saturating_add : ℕ → ℕ → ℕ
saturating_add a b = min (a + b) usize_max

-- `a.saturating_mul(b)` on 64 bits.
unfoldable pub saturating_mul : ℕ → ℕ → ℕ
saturating_mul a b = min (a * b) usize_max

-- `i64::saturating_add` on numbers that are not negative.
unfoldable pub saturating_add_i64 : ℕ → ℕ → ℕ
saturating_add_i64 a b = min (a + b) i64_max

-- `(n as u32).to_be_bytes()`
unfoldable pub u32_be_bytes : ℕ → List ℕ
u32_be_bytes n = (n / 2 ^ 24) % 256 ∷ (n / 2 ^ 16) % 256 ∷ (n / 2 ^ 8) % 256 ∷ n % 256 ∷ []
