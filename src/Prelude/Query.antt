-- ===== src/Prelude/Query.antt =====
-- Laws of the table queries.
use Prim.Native.Nat.{◌+◌, ◌≤◌}
use mathlib.Core.Path.{◌≡◌, refl, subst, sym}
use mathlib.Core.Logic.{◌⊎◌, inl, inr}
use mathlib.Core.Bool.{Bool, true, false, not, ◌&&◌}
use mathlib.Core.Option.{none, some}
use mathlib.Core.List.{List, [], ◌∷◌, ◌++◌}
use native.Mathlib.Omega.{arith}
use lqs.Prelude.Tests.{Bool-cases, and-eq-true}
use lqs.Prelude.Lists.{any, all, select, find, count, update, All, In}

module _ {ℓ} {A : Type ℓ} where
  pub find-some : (p : A → Bool) (xs : List A) {x : A} → find p xs ≡ some x → p x ≡ true
  unfolding find
  find-some p [] h = cc
  find-some p (y ∷ xs) h = elim (Bool-cases (p y)) [
    | inl e ↦ ground (arith, e)
    | inr e ↦ find-some p xs (rw e at h)
  ]

  pub find-In : (p : A → Bool) (xs : List A) {x : A} → find p xs ≡ some x → In x xs
  unfolding find
  find-In p [] h = cc
  find-In p (y ∷ xs) h = elim (Bool-cases (p y)) [
    | inl e ↦ inl (ground (arith, e))
    | inr e ↦ inr (find-In p xs (rw e at h))
  ]

  pub find-none : (p : A → Bool) (xs : List A) {x : A} → find p xs ≡ none → In x xs → p x ≡ false
  unfolding find
  find-none p [] h (_, i) = absurd i
  find-none p (y ∷ xs) {x} h (inl e) = elim (Bool-cases (p y)) [
    | inl t ↦ cc (t, h)
    | inr t ↦ rw e t
  ]
  find-none p (y ∷ xs) h (inr i) = elim (Bool-cases (p y)) [
    | inl t ↦ absurd (ground (arith, t))
    | inr t ↦ find-none p xs (rw t at h) i
  ]

  pub any-false : (p : A → Bool) (xs : List A) {x : A} → any p xs ≡ false → In x xs → p x ≡ false
  unfolding any
  any-false p [] h (_, i) = absurd i
  any-false p (y ∷ xs) h (inl e) = rw e (ground arith)
  any-false p (y ∷ xs) h (inr i) = any-false p xs (ground arith) i

  pub any-true : (p : A → Bool) (xs : List A) → any p xs ≡ true → (x : A) × In x xs × (p x ≡ true)
  unfolding any
  any-true p [] h = cc
  any-true p (y ∷ xs) h = elim (Bool-cases (p y)) [
    | inl e ↦ (y, inl refl, e)
    | inr e ↦ let (x, i, t) = any-true p xs (ground (arith, e)) in (x, inr i, t)
  ]

  pub any-In : (p : A → Bool) (xs : List A) {x : A} → In x xs → p x ≡ true → any p xs ≡ true
  unfolding any
  any-In p [] (_, i) t = absurd i
  any-In p (y ∷ xs) (inl e) t = ground (arith, rw e at t)
  any-In p (y ∷ xs) (inr i) t = ground (arith, any-In p xs i t)

  pub all-++ :
      (p : A → Bool) (xs ys : List A) → all p xs ≡ true → all p ys ≡ true → all p (xs ++ ys) ≡ true
  unfolding all
  all-++ p [] ys h k = k
  all-++ p (x ∷ xs) ys h k =
      let (a, b) = and-eq-true (p x) (all p xs) h in rw (a, all-++ p xs ys b k) refl

  pub all-In : (p : A → Bool) (xs : List A) {x : A} → all p xs ≡ true → In x xs → p x ≡ true
  unfolding all
  all-In p [] h (_, i) = absurd i
  all-In p (y ∷ xs) h (inl e) = rw e (ground arith)
  all-In p (y ∷ xs) h (inr i) = all-In p xs (ground arith) i

  pub count-append : (p : A → Bool) (xs ys : List A) → count p (xs ++ ys) ≡ count p xs + count p ys
  unfolding count
  count-append p [] ys = omega arith
  count-append p (x ∷ xs) ys = ground (arith, count-append p xs ys)

  pub count_mono :
      (p q : A → Bool) (xs : List A) → ((x : A) → p x ≡ true → q x ≡ true) → count p xs ≤ count q xs
  unfolding count
  count_mono p q [] h = omega arith
  count_mono p q (x ∷ xs) h = ground (arith, h x, count_mono p q xs h)

  -- A deletion leaves what passes both tests.
  pub count-select :
      (p q : A → Bool) (xs : List A) → count p (select q xs) ≡ count (λ x. q x && p x) xs
  unfolding count select
  count-select p q [] = refl
  count-select p q (x ∷ xs) = ground (arith, count-select p q xs)

  pub count-split :
      (p q : A → Bool) (xs : List A)
      → count p xs ≡ count (λ x. q x && p x) xs + count (λ x. not (q x) && p x) xs
  unfolding count
  count-split p q [] = omega arith
  count-split p q (x ∷ xs) = ground (arith, count-split p q xs)

  pub In-select : (p : A → Bool) (xs : List A) {x : A} → In x (select p xs) → In x xs × (p x ≡ true)
  unfolding select
  In-select p [] (_, i) = absurd i
  In-select p (y ∷ xs) i = elim (Bool-cases (p y)) [
    | inl e ↦ elim (rw e at i) [
      | inl q ↦ (inl q, rw q e)
      | inr j ↦ let (k, t) = In-select p xs j in (inr k, t)
    ]
    | inr e ↦ let (k, t) = In-select p xs (rw e at i) in (inr k, t)
  ]

  pub select-In : (p : A → Bool) (xs : List A) {x : A} → In x xs → p x ≡ true → In x (select p xs)
  unfolding select
  select-In p [] (_, i) t = absurd i
  select-In p (y ∷ xs) (inl e) t = let h : p y ≡ true = rw e at t in rw h (inl e)
  select-In p (y ∷ xs) (inr i) t = elim (Bool-cases (p y)) [
    | inl e ↦ rw e (inr (select-In p xs i t))
    | inr e ↦ rw e (select-In p xs i t)
  ]

  pub In-append : (x : A) (xs ys : List A) → In x (xs ++ ys) → In x xs ⊎ In x ys
  In-append x [] ys i = inr i
  In-append x (y ∷ xs) ys (inl e) = inl (inl e)
  In-append x (y ∷ xs) ys (inr i) = elim (In-append x xs ys i) [
    | inl j ↦ inl (inr j)
    | inr j ↦ inr j
  ]

module _ {ℓ κ} {A : Type ℓ} (P : A → Type κ) where
  pub All-In : (xs : List A) {x : A} → All P xs → In x xs → P x
  All-In [] h (_, i) = absurd i
  All-In (y ∷ xs) h (inl e) = subst P (sym e) h.0
  All-In (y ∷ xs) h (inr i) = All-In xs h.1 i

  pub All-of : (xs : List A) → ((x : A) → In x xs → P x) → All P xs
  All-of [] f = tt
  All-of (y ∷ xs) f = (f y (inl refl), All-of xs (λ x i. f x (inr i)))

  pub All-select : (p : A → Bool) (xs : List A) → All P xs → All P (select p xs)
  unfolding select
  All-select p [] h = tt
  All-select p (x ∷ xs) h = elim (Bool-cases (p x)) [
    | inl e ↦ rw e (h.0, All-select p xs h.1)
    | inr e ↦ rw e (All-select p xs h.1)
  ]

  pub All-update :
      (p : A → Bool) (f : A → A) (xs : List A)
      → ((x : A) → P x → P (f x))
      → All P xs
      → All P (update p f xs)
  unfolding update
  All-update p f [] k h = tt
  All-update p f (x ∷ xs) k h = elim (Bool-cases (p x)) [
    | inl e ↦ rw e (k x h.0, All-update p f xs k h.1)
    | inr e ↦ rw e (h.0, All-update p f xs k h.1)
  ]

  pub All-append : (xs ys : List A) → All P xs → All P ys → All P (xs ++ ys)
  All-append [] ys h k = k
  All-append (x ∷ xs) ys h k = (h.0, All-append xs ys h.1 k)

module _ {ℓ κ μ} {A : Type ℓ} (P : A → Type κ) (Q : A → Type μ) where
  pub All-imp : (xs : List A) → ((x : A) → P x → Q x) → All P xs → All Q xs
  All-imp [] f h = tt
  All-imp (x ∷ xs) f h = (f x h.0, All-imp xs f h.1)
