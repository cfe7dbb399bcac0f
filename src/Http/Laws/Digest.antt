-- ===== src/Http/Laws/Digest.antt =====
-- src/security_http.rs `bearer_hook`: the fold over the bytes of two digests tells whether they are equal.
use lqs.Prelude.{
  ℕ, zero, suc, ◌/◌, ◌^◌, ◌<◌, false, not, ◌≡◌, refl, sym, ◌∙◌, ◌↔◌, some, List, [], ◌∷◌, arith,
  ◌==◌, length, Bytes, text,
}
use lqs.Prelude.Parse.{strip_prefix}
use lqs.Error.{
  access_denied, ok, fail_if, or_fail, >>=-eq-ok, >>-eq-ok, fail_if-eq-ok, or_fail-eq-ok,
}
use lqs.Security.Names.{RequestIdentity}
use lqs.Http.Web.{Web}
use lqs.Http.Wire.{Headers, has_header}
use lqs.Http.Identity.{
  HttpAuthorizationRequest, get_all, principal_header, one_value, bit_xor, bit_or, difference,
  bearer_hook,
}

bit_xor-eq-zero : (w a b : ℕ) → a < 2 ^ w → b < 2 ^ w → bit_xor w a b ≡ 0 → a ≡ b
unfolding bit_xor
bit_xor-eq-zero zero a b h k e = omega arith
bit_xor-eq-zero (suc w) a b h k e =
    let half : a / 2 ≡ b / 2 =
      bit_xor-eq-zero w (a / 2) (b / 2) (omega arith) (omega arith) (omega arith) in
    omega arith

bit_xor-same : (w a : ℕ) → bit_xor w a a ≡ 0
unfolding bit_xor
bit_xor-same zero a = refl
bit_xor-same (suc w) a = omega (arith, bit_xor-same w (a / 2))

bit_or-eq-zero : (w a b : ℕ) → a < 2 ^ w → b < 2 ^ w → bit_or w a b ≡ 0 → (a ≡ 0) × (b ≡ 0)
unfolding bit_or
bit_or-eq-zero zero a b h k e = (omega arith, omega arith)
bit_or-eq-zero (suc w) a b h k e =
    let (left, right) =
      bit_or-eq-zero w (a / 2) (b / 2) (omega arith) (omega arith) (omega arith) in
    (omega arith, omega arith)

bit_or-bound : (w a b : ℕ) → bit_or w a b < 2 ^ w
unfolding bit_or
bit_or-bound zero a b = omega arith
bit_or-bound (suc w) a b = omega (arith, bit_or-bound w (a / 2) (b / 2))

bit_xor-bound : (w a b : ℕ) → bit_xor w a b < 2 ^ w
unfolding bit_xor
bit_xor-bound zero a b = omega arith
bit_xor-bound (suc w) a b = omega (arith, bit_xor-bound w (a / 2) (b / 2))

abbrev pub AreBytes : Bytes → Type 0
AreBytes [] = Unit
AreBytes (b ∷ s) = (b < 256) × AreBytes s

difference-eq-zero :
    (d : ℕ) (left right : Bytes)
    → d < 256
    → AreBytes left
    → AreBytes right
    → length left ≡ length right
    → difference d left right ≡ 0
    → (d ≡ 0) × (left ≡ right)
unfolding difference
difference-eq-zero d [] [] h k l n e = (e, refl)
difference-eq-zero d [] (r ∷ right) h k l n e = absurd (omega arith)
difference-eq-zero d (l ∷ left) [] h k m n e = absurd (omega arith)
difference-eq-zero d (l ∷ left) (r ∷ right) h (a, k) (b, m) n e =
    let (both, same) =
      difference-eq-zero (bit_or 8 d (bit_xor 8 l r)) left right (bit_or-bound 8 d (bit_xor 8 l r))
        k m (omega arith) e in
    let (none_before, none_here) =
      bit_or-eq-zero 8 d (bit_xor 8 l r) h (bit_xor-bound 8 l r) both in
    (none_before, rw (bit_xor-eq-zero 8 l r a b none_here, same) refl)

difference-same : (s : Bytes) → difference 0 s s ≡ 0
unfolding difference bit_or
difference-same [] = refl
difference-same (b ∷ s) = rw (bit_xor-same 8 b) (difference-same s)

-- What a request has to carry: no principal of its own, and one authorization with a bearer credential.
abbrev pub Presents : Web → Headers → Bytes → Type 0
Presents web headers candidate =
    (has_header principal_header headers ≡ false)
    × ((v : Bytes) × (get_all (text "authorization") headers ≡ v ∷ [])
        × ((s : Bytes) × (web.header_text v ≡ some s)
            × (strip_prefix (text "Bearer ") s ≡ some candidate)))

one_value-eq-ok : (vs : List Bytes) (v : Bytes) → one_value vs ≡ ok v → vs ≡ v ∷ []
one_value-eq-ok [] v e = cc e
one_value-eq-ok (x ∷ []) v e = ground arith
one_value-eq-ok (x ∷ y ∷ vs) v e = cc e

no_difference : (n : ℕ) → fail_if (not (n == 0)) access_denied ≡ ok tt → n ≡ 0
no_difference n h = let same = fail_if-eq-ok (not (n == 0)) access_denied h in ground arith

module _ (web : Web) (credential : Bytes) (identity : RequestIdentity)
    (r : HttpAuthorizationRequest) where
  -- A credential that the request presents, with the digest of the configured one.
  abbrev Accepted : Type 0
  Accepted =
      (candidate : Bytes) × Presents web r.headers candidate
      × (web.sha256 credential ≡ web.sha256 candidate)

  accepted_of_ok :
      ((s : Bytes) → (length (web.sha256 s) ≡ 32) × AreBytes (web.sha256 s))
      → bearer_hook web credential identity r ≡ ok identity
      → Accepted
  unfolding bearer_hook
  accepted_of_ok digest h =
      let (absent, h1) =
        >>-eq-ok (fail_if (has_header principal_header r.headers) access_denied) _ h in
      let (v, one, h2) = >>=-eq-ok (one_value (get_all (text "authorization") r.headers)) _ h1 in
      let (s, read, h3) = >>=-eq-ok (or_fail (web.header_text v) access_denied) _ h2 in
      let (candidate, stripped, h4) =
        >>=-eq-ok (or_fail (strip_prefix (text "Bearer ") s) access_denied) _ h3 in
      let (equal, h5) =
        >>-eq-ok
          (fail_if (not (difference 0 (web.sha256 credential) (web.sha256 candidate) == 0))
            access_denied)
          _ h4 in
      let (n, left) = digest credential in
      let (m, right) = digest candidate in
      let (zero_before, same) =
        difference-eq-zero 0 (web.sha256 credential) (web.sha256 candidate) (omega arith) left right
          (n ∙ sym m) (no_difference _ equal) in
      let present : Presents web r.headers candidate = (
        fail_if-eq-ok _ access_denied absent,
        (
          v,
          one_value-eq-ok _ v one,
          (s, or_fail-eq-ok _ access_denied read, or_fail-eq-ok _ access_denied stripped),
        ),
      ) in
      (candidate, present, same)

  ok_of_accepted : Accepted → bearer_hook web credential identity r ≡ ok identity
  unfolding bearer_hook
  ok_of_accepted (candidate, (absent, (v, one, (s, read, stripped))), same) =
      rw (absent, one, read, stripped, same, difference-same (web.sha256 candidate), bearer_hook)
        refl

-- The hook lets a request in exactly when it names no principal of its own and presents one credential
-- whose digest is that of the configured one, if digests are 32 bytes.
pub bearer_hook-eq-ok :
    (web : Web) (credential : Bytes) (identity : RequestIdentity) (r : HttpAuthorizationRequest)
    → ((s : Bytes) → (length (web.sha256 s) ≡ 32) × AreBytes (web.sha256 s))
    → (bearer_hook web credential identity r ≡ ok identity) ↔ (
        (candidate : Bytes) × Presents web r.headers candidate
        × (web.sha256 credential ≡ web.sha256 candidate))
bearer_hook-eq-ok web credential identity r digest =
    (accepted_of_ok web credential identity r digest, ok_of_accepted web credential identity r)
