-- ===== src/Http/Laws/Urls.antt =====
-- src/http_server.rs: the URL of a queue names that queue.
use lqs.Prelude.{
  ℕ, ◌≢◌, subst, in_range, Bool, true, false, not, ◌&&◌, ◌||◌, ◌≡◌, refl, sym, ap, ◌∙◌, [], ◌∷◌,
  ◌++◌, arith, ◌==◌, Bool-cases, inl, inr, all, take, length, suc, ◌-◌, ◌≤◌, ends_with, bytes_eq,
  bytes_eq→≡, is_ascii_alphanumeric, trim_end, and-eq-true, not-eq-true, ==_refl, Bytes, text,
  is_empty,
}
use mathlib.Core.List.{append_assoc}
use lqs.Prelude.Parse.{before_first, after_last, strip_suffix}
use lqs.Prelude.Query.{all-++}
use lqs.Http.Names.{is_slash, last_segment, is_name_byte, valid_queue_name}
use lqs.Http.Answer.{queue_url}

abbrev pub Without : ℕ → Bytes → Type 0
Without b s = all (λ c. not (c == b)) s ≡ true

and_false : (b : Bool) → (b && false) ≡ false
and_false b = ground arith

before_first-all : (b : ℕ) (s : Bytes) → Without b s → before_first b s ≡ s
unfolding before_first all
before_first-all b [] h = refl
before_first-all b (c ∷ s) h =
    let (other, rest) = and-eq-true (not (c == b)) (all (λ x. not (x == b)) s) h in
    rw (not-eq-true (c == b) other, before_first-all b s rest) refl

after_last-all : (b : ℕ) (s : Bytes) → Without b s → after_last b s ≡ s
unfolding after_last
after_last-all b [] h = refl
after_last-all b (c ∷ s) h = rw (h, after_last) refl

has_separator : (b : ℕ) (s name : Bytes) → all (λ c. not (c == b)) (s ++ b ∷ name) ≡ false
unfolding all
has_separator b [] name = rw (==_refl b) refl
has_separator b (c ∷ s) name = rw (has_separator b s name) (and_false (not (c == b)))

after_last-last : (b : ℕ) (s name : Bytes) → Without b name → after_last b (s ++ b ∷ name) ≡ name
unfolding after_last
after_last-last b [] name h = rw (has_separator b [] name, after_last) (after_last-all b name h)
after_last-last b (c ∷ s) name h =
    rw (has_separator b (c ∷ s) name, after_last) (after_last-last b s name h)

trim_step :
    (p : ℕ → Bool) (c y : ℕ) (s ys : Bytes)
    → trim_end p s ≡ y ∷ ys
    → trim_end p (c ∷ s) ≡ c ∷ y ∷ ys
unfolding trim_end
trim_step p c y s ys e = rw (e, trim_end) refl

trim_end-all : (p : ℕ → Bool) (s : Bytes) → all (λ c. not (p c)) s ≡ true → trim_end p s ≡ s
unfolding trim_end all
trim_end-all p [] h = refl
trim_end-all p (c ∷ []) h =
    let (other, rest) = and-eq-true (not (p c)) true h in rw (not-eq-true (p c) other) refl
trim_end-all p (c ∷ d ∷ s) h =
    let (other, rest) = and-eq-true (not (p c)) (all (λ x. not (p x)) (d ∷ s)) h in
    trim_step p c d (d ∷ s) s (trim_end-all p (d ∷ s) rest)

trim_end-++ :
    (p : ℕ → Bool) (s : Bytes) (c : ℕ) (name : Bytes)
    → all (λ x. not (p x)) (c ∷ name) ≡ true
    → trim_end p (s ++ c ∷ name) ≡ s ++ c ∷ name
trim_end-++ p [] c name h = trim_end-all p (c ∷ name) h
trim_end-++ p (d ∷ []) c name h = trim_step p d c (c ∷ name) name (trim_end-all p (c ∷ name) h)
trim_end-++ p (d ∷ e ∷ s) c name h =
    trim_step p d e (e ∷ s ++ c ∷ name) (s ++ c ∷ name) (trim_end-++ p (e ∷ s) c name h)

plain_url :
    (base : Bytes) (c : ℕ) (name : Bytes)
    → Without b'?' base
    → Without b'?' (c ∷ name)
    → Without b'/' (c ∷ name)
    → last_segment (queue_url base (c ∷ name)) ≡ c ∷ name
unfolding last_segment text all
plain_url base c name h k l =
    let url = queue_url base (c ∷ name) in
    let unasked : before_first b'?' url ≡ url = before_first-all b'?' url (
      all-++ (λ x. not (x == b'?')) base (text "/000000000000/" ++ c ∷ name) h
        (all-++ (λ x. not (x == b'?')) (text "/000000000000/") (c ∷ name) refl k)) in
    let untrimmed : trim_end is_slash url ≡ url =
      ap (trim_end is_slash) (sym (append_assoc base (text "/000000000000/") (c ∷ name)))
      ∙ (trim_end-++ is_slash (base ++ text "/000000000000/") c name l
          ∙ append_assoc base (text "/000000000000/") (c ∷ name)) in
    let last : after_last b'/' url ≡ c ∷ name =
      ap (after_last b'/') (sym (append_assoc base (text "/000000000000") (b'/' ∷ c ∷ name)))
      ∙ after_last-last b'/' (base ++ text "/000000000000") (c ∷ name) l in
    ap (λ s. after_last b'/' (trim_end is_slash s)) unasked
    ∙ (ap (after_last b'/') untrimmed ∙ last)

ends_with-length : (s suffix : Bytes) → ends_with s suffix ≡ true → length suffix ≤ length s
unfolding ends_with
ends_with-length [] suffix h =
    let same : 0 ≡ length suffix = ap length (bytes_eq→≡ [] suffix h) in omega arith
ends_with-length (b ∷ s) suffix h = elim (Bool-cases (bytes_eq (b ∷ s) suffix)) [
  | inl e ↦
      let same : length (b ∷ s) ≡ length suffix = ap length (bytes_eq→≡ (b ∷ s) suffix e) in
      omega arith
  | inr e ↦ let k = ends_with-length s suffix (rw e at h) in omega arith
]

-- A test that holds of a text's stem and of its suffix holds of the text.
all-stem :
    (p : ℕ → Bool) (s suffix : Bytes)
    → ends_with s suffix ≡ true
    → all p (take (length s - length suffix) s) ≡ true
    → all p suffix ≡ true
    → all p s ≡ true
unfolding ends_with take all
all-stem p [] suffix h k l = refl
all-stem p (b ∷ s) suffix h k l = elim (Bool-cases (bytes_eq (b ∷ s) suffix)) [
  | inl e ↦ subst (λ x. all p x ≡ true) (sym (bytes_eq→≡ (b ∷ s) suffix e)) l
  | inr e ↦
      let inside : ends_with s suffix ≡ true = rw e at h in
      let shorter = ends_with-length s suffix inside in
      let one_less : length (b ∷ s) - length suffix ≡ suc (length s - length suffix) =
        omega arith in
      let (first, rest) =
        and-eq-true (p b) (all p (take (length s - length suffix) s)) (rw one_less at k) in
      rw (first, all-stem p s suffix inside rest l) refl
]

-- The bytes of a queue's name: those of its stem, and the dot of `.fifo`.
abbrev is_url_byte : ℕ → Bool
is_url_byte c = is_name_byte c || c == b'.'

all-implies :
    (p q : ℕ → Bool) (s : Bytes)
    → ((c : ℕ) → p c ≡ true → q c ≡ true)
    → all p s ≡ true
    → all q s ≡ true
unfolding all
all-implies p q [] k h = refl
all-implies p q (c ∷ s) k h =
    let (a, b) = and-eq-true (p c) (all p s) h in rw (k c a, all-implies p q s k b) refl

not_slash : (c : ℕ) → is_url_byte c ≡ true → not (c == b'/') ≡ true
unfolding is_ascii_alphanumeric
not_slash c h = ground arith

not_question : (c : ℕ) → is_url_byte c ≡ true → not (c == b'?') ≡ true
unfolding is_ascii_alphanumeric
not_question c h = ground arith

valid_queue_name-bytes : (name : Bytes) → valid_queue_name name ≡ true → all is_url_byte name ≡ true
unfolding valid_queue_name strip_suffix is_ascii_alphanumeric all text
valid_queue_name-bytes name h =
    let stem = take (length name - length (text ".fifo")) name in
    elim (Bool-cases (ends_with name (text ".fifo"))) [
      | inl e ↦
          all-stem is_url_byte name (text ".fifo") e
            (all-implies is_name_byte is_url_byte stem (λ c k. rw k refl)
              (and-eq-true (in_range 1 80 (length name) && not (is_empty stem))
                (all is_name_byte stem) (rw (e, valid_queue_name, strip_suffix) at h)).1)
            refl
      | inr e ↦
          all-implies is_name_byte is_url_byte name (λ c k. rw k refl)
            (and-eq-true (in_range 1 80 (length name) && not (is_empty name))
              (all is_name_byte name) (rw (e, valid_queue_name, strip_suffix) at h)).1
    ]

no_empty_name : valid_queue_name [] ≢ true
unfolding valid_queue_name
no_empty_name h = cc h

-- The URL that answers give for a queue with a valid name is read back as that name, if the server's
-- base URL has no question mark.
pub last_segment-queue_url :
    (base name : Bytes)
    → Without b'?' base
    → valid_queue_name name ≡ true
    → last_segment (queue_url base name) ≡ name
last_segment-queue_url base [] h v = absurd (no_empty_name v)
last_segment-queue_url base (c ∷ name) h v =
    let allowed = valid_queue_name-bytes (c ∷ name) v in
    plain_url base c name h
      (all-implies is_url_byte (λ x. not (x == b'?')) (c ∷ name) not_question allowed)
      (all-implies is_url_byte (λ x. not (x == b'/')) (c ∷ name) not_slash allowed)
