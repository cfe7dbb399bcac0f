-- ===== src/Security/Glob/Correct.antt =====
-- The loop of `glob` in src/security.rs decides `matches` on a value without a star in it.
use Prim.Native.Nat.{ℕ, zero, suc, ◌+◌, ◌*◌, ◌≤◌, ◌<◌}
use lqs.Prelude.{
  Bool, true, false, not, Option, none, some, [], ◌∷◌, ◌≡◌, refl, sym, subst, ◌∙◌, ap, inl, inr,
  arith, length, all, trim_start, Bytes, Bool-cases, bool_ext,
}
use lqs.Security.Glob.{
  is_star, accepts, only_stars, Back, retry_from, glob_loop, glob_fuel, glob, or_false,
}
use lqs.Security.Glob.Wildcard.{
  any_suffix, any_suffix_here, any_suffix_later, any_suffix_cases, any_suffix_idem, any_suffix_drop,
  one_byte, matches, matches_star, matches_byte,
}

-- No byte of the value is a star.
unfoldable pub is_plain : Bytes → Bool
unfolding all
is_plain v = all (λ c. not (is_star c)) v

only_stars-matches : (p : Bytes) → only_stars p ≡ matches p []
unfolding only_stars trim_start matches any_suffix one_byte
only_stars-matches [] = refl
only_stars-matches (a ∷ p) = ground (arith, only_stars-matches p)

is_plain-cons :
    (c : ℕ) (v : Bytes) → is_plain (c ∷ v) ≡ true → (is_star c ≡ false) × (is_plain v ≡ true)
unfolding is_plain all
is_plain-cons c v h = ground arith

accepted_is_byte : (a c : ℕ) → is_star c ≡ false → accepts a c ≡ true → is_star a ≡ false
accepted_is_byte a c h t = ground arith

one_byte-true :
    (a c : ℕ) (f : Bytes → Bool) (v : Bytes) → accepts a c ≡ true → one_byte a f (c ∷ v) ≡ f v
unfolding one_byte
one_byte-true a c f v h = ground arith

one_byte-false :
    (a c : ℕ) (f : Bytes → Bool) (v : Bytes) → accepts a c ≡ false → one_byte a f (c ∷ v) ≡ false
unfolding one_byte
one_byte-false a c f v h = ground arith

-- `G` is the question asked at the start; every pattern in play is shorter than `k`.
module _ (G : Bool) (k : ℕ) where
  abbrev Saved : ℕ → Bytes → Bytes → Back → Type 0
  Saved m p v none = G ≡ true → matches p v ≡ true
  Saved m p v (some (bp, bv)) =
      (G ≡ true → any_suffix (matches bp) bv ≡ true)
      × (any_suffix (matches bp) bv ≡ true → G ≡ true)
      × (matches bp bv ≡ true → matches p v ≡ true)
      × (length v ≤ length bv)
      × (length bv ≤ m)
      × (length bp < k)
      × (is_plain bv ≡ true)

  record Inv (f m : ℕ) (p v : Bytes) (back : Back) : Type 0 where
    sound : matches p v ≡ true → G ≡ true
    later : G ≡ true → any_suffix (matches p) v ≡ true
    saved : Saved m p v back
    plain : is_plain v ≡ true
    text_bound : length v ≤ m
    pattern_bound : length p < k
    fuel : m * k + length p < f

  -- A fresh start behind a star.
  Inv-restart :
      {f m : ℕ} {p v : Bytes}
      → (G ≡ true → any_suffix (matches p) v ≡ true)
      → (any_suffix (matches p) v ≡ true → G ≡ true)
      → is_plain v ≡ true
      → length v ≤ m
      → length p < k
      → m * k + length p < f
      → Inv f m p v (some (p, v))
  Inv-restart {p} {v} to from plain hv hp hf = record {
    sound = λ t. from (any_suffix_here (matches p) v t);
    later = to;
    saved = (to, from, λ t. t, omega arith, hv, hp, plain);
    plain = plain;
    text_bound = hv;
    pattern_bound = hp;
    fuel = hf;
  }

  Saved-byte :
      (m c : ℕ) (p p' v : Bytes) (back : Back)
      → matches p' (c ∷ v) ≡ matches p v
      → Saved m p' (c ∷ v) back
      → Saved m p v back
  Saved-byte m c p p' v none e h = λ g. sym e ∙ h g
  Saved-byte m c p p' v (some (bp, bv)) e (to, from, down, shorter, hv, hp, pl) =
      (to, from, λ t. sym e ∙ down t, omega arith, hv, hp, pl)

  Inv-byte :
      {f m a c : ℕ} {p v : Bytes} {back : Back}
      → Inv (suc f) m (a ∷ p) (c ∷ v) back
      → accepts a c ≡ true
      → Inv f m p v back
  Inv-byte {f} {m} {a} {c} {p} {v} {back} i h =
      let (cp, vp) = is_plain-cons c v i.plain in
      let byte = accepted_is_byte a c cp h in
      let step : matches (a ∷ p) (c ∷ v) ≡ matches p v =
        matches_byte a p (c ∷ v) byte ∙ one_byte-true a c (matches p) v h in
      record {
        sound = λ t. i.sound (step ∙ t);
        later = λ g. any_suffix_drop (matches p) a c v (
            subst (λ q. any_suffix q (c ∷ v) ≡ true) (λ j w. matches_byte a p w byte j)
              (i.later g));
        saved = Saved-byte m c p (a ∷ p) v back step i.saved;
        plain = vp;
        text_bound = omega (arith, i.text_bound);
        pattern_bound = omega (arith, i.pattern_bound);
        fuel = omega (arith, i.fuel);
      }

  Inv-star :
      {f m a c : ℕ} {p v : Bytes} {back : Back}
      → Inv (suc f) m (a ∷ p) (c ∷ v) back
      → is_star a ≡ true
      → Inv f m p (c ∷ v) (some (p, c ∷ v))
  Inv-star {f} {m} {a} {c} {p} {v} i h =
      Inv-restart
        (λ g.
          any_suffix_idem (matches p) (c ∷ v)
            (subst (λ q. any_suffix q (c ∷ v) ≡ true) (λ j w. matches_star a p w h j) (i.later g)))
        (λ t. i.sound (matches_star a p (c ∷ v) h ∙ t)) i.plain i.text_bound
        (omega (arith, i.pattern_bound)) (omega (arith, i.fuel))

  -- After a mismatch the saved star takes one more byte, which pays for the pattern.
  retry_correct :
      {f c : ℕ} {p v : Bytes} (m : ℕ) (back : Back) (next : Bytes → Bytes → Back → Option Bool)
      → ((m' : ℕ) (p' v' : Bytes) (b : Back) → Inv f m' p' v' b → next p' v' b ≡ some G)
      → Inv (suc f) m p (c ∷ v) back
      → matches p (c ∷ v) ≡ false
      → retry_from back next ≡ some G
  unfolding retry_from
  retry_correct m none next ih i miss =
      ap some (bool_ext false G (λ e. cc) (λ g. cc (i.saved g, miss)))
  retry_correct m (some (bp, [])) next ih i miss = absurd (omega (arith, i.saved))
  retry_correct zero (some (bp, x ∷ bv)) next ih i miss = absurd (omega (arith, i.saved))
  retry_correct (suc m) (some (bp, x ∷ bv)) next ih i miss =
      let (to, from, down, shorter, hv, hp, pl) = i.saved in
      ih m bp bv (some (bp, bv)) (
        Inv-restart
          (λ g. elim (any_suffix_cases (matches bp) x bv (to g)) [
            | inl t ↦ cc (down t, miss)
            | inr t ↦ t
          ])
          (λ t. from (any_suffix_later (matches bp) x bv t)) (is_plain-cons x bv pl).1 (omega arith)
          hp (omega (arith, i.fuel)))

  loop_correct :
      (f m : ℕ) (p v : Bytes) (back : Back) → Inv f m p v back → glob_loop f p v back ≡ some G
  unfolding glob_loop
  loop_correct zero m p v back i = absurd (omega (arith, i.fuel))
  loop_correct (suc f) m p [] back i = ap some (
      only_stars-matches p
      ∙ bool_ext (matches p []) G i.sound (λ g. unfold any_suffix in i.later g))
  loop_correct (suc f) m [] (c ∷ v) back i =
      retry_correct m back (glob_loop f) (loop_correct f) i (unfold matches in refl)
  loop_correct (suc f) m (a ∷ p) (c ∷ v) back i = elim (Bool-cases (accepts a c)) [
    | inl h ↦ rw h (loop_correct f m p v back (Inv-byte i h))
    | inr h ↦ elim (Bool-cases (is_star a)) [
      | inl s ↦ rw (h, s) (loop_correct f m p (c ∷ v) (some (p, c ∷ v)) (Inv-star i s))
      | inr s ↦
          rw (h, s)
            (retry_correct m back (glob_loop f) (loop_correct f) i
              (matches_byte a p (c ∷ v) s ∙ one_byte-false a c (matches p) v h))
    ]
  ]

-- With this fuel the loop ends, never slices out of range, and answers as the meaning says.
glob_loop-matches :
    (p v : Bytes) → is_plain v ≡ true → glob_loop (glob_fuel p v) p v none ≡ some (matches p v)
glob_loop-matches p v h = loop_correct (matches p v) (length p + 1) _ (length v) p v none (record {
  sound = λ t. t;
  later = any_suffix_here (matches p) v;
  saved = λ t. t;
  plain = h;
  text_bound = omega arith;
  pattern_bound = omega arith;
  fuel = omega arith;
})

-- On a value with no star in it, the loop ends within its fuel with an answer, and `glob` answers
-- true exactly where the wildcard pattern matches.
pub glob-matches :
    (p v : Bytes)
    → is_plain v ≡ true
    → (glob_loop (glob_fuel p v) p v none ≡ some (matches p v)) × (glob p v ≡ matches p v)
unfolding glob
glob-matches p v h = (glob_loop-matches p v h, ap or_false (glob_loop-matches p v h))

-- The pattern `*` does not match a value that starts with a star and goes on with other bytes.
pub glob-star_value : (c : ℕ) (v : Bytes) → glob (b'*' ∷ []) (b'*' ∷ c ∷ v) ≡ false
unfolding glob glob_loop retry_from
glob-star_value c v =
    let e : glob_fuel (b'*' ∷ []) (b'*' ∷ c ∷ v) ≡ suc (suc (length v * 2 + 4)) = omega arith in
    ap (λ f. or_false (glob_loop f (b'*' ∷ []) (b'*' ∷ c ∷ v) none)) e
