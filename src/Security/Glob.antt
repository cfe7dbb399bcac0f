-- ===== src/Security/Glob.antt =====
-- src/security.rs: `glob`. The indices `i` and `j` are the parts of the pattern and of the value
-- that are left; `star` and `retry` are the parts behind the last star and from the last retry.
pub mod Wildcard
pub mod Correct
use lqs.Prelude.{
  ℕ, zero, suc, ◌+◌, ◌*◌, Bool, true, false, ◌||◌, Option, none, some, List, [], ◌∷◌, if◌then◌else◌,
  ◌==◌, length, is_empty, trim_start, Bytes,
}

abbrev pub is_star : ℕ → Bool
is_star b = b == b'*'

-- `p[i] == b'?' || p[i] == v[j]`
abbrev pub accepts : ℕ → ℕ → Bool
accepts a c = a == b'?' || a == c

-- The last loop and test: only stars are left.
unfoldable pub only_stars : Bytes → Bool
unfolding trim_start
only_stars p = is_empty (trim_start is_star p)

abbrev pub Back : Type 0
Back = Option (Bytes × Bytes)

-- The third branch: the star takes one more byte, and the rest is tried again.
unfoldable pub retry_from : Back → (Bytes → Bytes → Back → Option Bool) → Option Bool
retry_from none next = some false
retry_from (some (p, [])) next = none
retry_from (some (p, c ∷ v)) next = next p v (some (p, v))

-- The main loop, with fuel; `none` means that it ran out, or sliced out of range.
unfoldable pub glob_loop : ℕ → Bytes → Bytes → Back → Option Bool
unfolding only_stars retry_from
glob_loop zero p v back = none
glob_loop (suc f) p [] back = some (only_stars p)
glob_loop (suc f) [] (c ∷ v) back = retry_from back (glob_loop f)
glob_loop (suc f) (a ∷ p) (c ∷ v) back =
    let advance = glob_loop f p v back in
    let at_star = glob_loop f p (c ∷ v) (some (p, c ∷ v)) in
    let again = retry_from back (glob_loop f) in
    if accepts a c then advance else if is_star a then at_star else again

abbrev pub glob_fuel : Bytes → Bytes → ℕ
glob_fuel p v = (length v + 1) * (length p + 1)

abbrev pub or_false : Option Bool → Bool
or_false none = false
or_false (some b) = b

unfoldable pub glob : Bytes → Bytes → Bool
unfolding glob_loop
glob p v = or_false (glob_loop (glob_fuel p v) p v none)
