-- ===== src/Security/Glob/Wildcard.antt =====
-- What a wildcard pattern means, with no search order in it: `*` stands for any bytes, `?` for one
-- byte, and any other byte for itself.
use lqs.Prelude.{
  ℕ, Bool, true, false, ◌&&◌, ◌||◌, [], ◌∷◌, ◌≡◌, ◌⊎◌, inl, inr, ◌==◌, arith, is_empty, Bytes,
}

-- Some rest of the text passes.
unfoldable pub any_suffix : (Bytes → Bool) → Bytes → Bool
any_suffix f [] = f []
any_suffix f (c ∷ v) = f (c ∷ v) || any_suffix f v

unfoldable pub one_byte : ℕ → (Bytes → Bool) → Bytes → Bool
one_byte a f [] = false
one_byte a f (c ∷ v) = (a == b'?' || a == c) && f v

unfoldable pub matches : Bytes → Bytes → Bool
unfolding any_suffix one_byte
matches [] v = is_empty v
matches (a ∷ p) v = elim (a == b'*') [
  | true ↦ any_suffix (matches p) v
  | false ↦ one_byte a (matches p) v
]

module _ (f : Bytes → Bool) where
  pub any_suffix_here : (v : Bytes) → f v ≡ true → any_suffix f v ≡ true
  unfolding any_suffix
  any_suffix_here [] h = h
  any_suffix_here (c ∷ v) h = ground arith

  pub any_suffix_later : (c : ℕ) (v : Bytes) → any_suffix f v ≡ true → any_suffix f (c ∷ v) ≡ true
  unfolding any_suffix
  any_suffix_later c v h = ground arith

  pub any_suffix_cases :
      (c : ℕ) (v : Bytes)
      → any_suffix f (c ∷ v) ≡ true
      → (f (c ∷ v) ≡ true) ⊎ (any_suffix f v ≡ true)
  unfolding any_suffix
  any_suffix_cases c v h = ground arith

module _ (f : Bytes → Bool) where
  pub any_suffix_idem : (v : Bytes) → any_suffix (any_suffix f) v ≡ true → any_suffix f v ≡ true
  any_suffix_idem [] h = unfold any_suffix in h
  any_suffix_idem (c ∷ v) h = elim (any_suffix_cases (any_suffix f) c v h) [
    | inl t ↦ t
    | inr t ↦ any_suffix_later f c v (any_suffix_idem v t)
  ]

  -- A byte taken from the pattern loses nothing: the rest of it begins after the first byte.
  pub any_suffix_drop :
      (a c : ℕ) (v : Bytes) → any_suffix (one_byte a f) (c ∷ v) ≡ true → any_suffix f v ≡ true
  unfolding one_byte any_suffix
  any_suffix_drop a c [] h = ground arith
  any_suffix_drop a c (d ∷ v) h = ground (arith, any_suffix_drop a d v)

pub matches_star :
    (a : ℕ) (p v : Bytes) → (a == b'*') ≡ true → matches (a ∷ p) v ≡ any_suffix (matches p) v
unfolding matches
matches_star a p v h = rw (h, matches)

pub matches_byte :
    (a : ℕ) (p v : Bytes) → (a == b'*') ≡ false → matches (a ∷ p) v ≡ one_byte a (matches p) v
unfolding matches
matches_byte a p v h = rw (h, matches)
