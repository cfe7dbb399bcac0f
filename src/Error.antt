-- ===== src/Error.antt =====
-- src/sqlite_lqs.rs: `LqsError`, and results that carry it.
pub mod Display
use lqs.Prelude.{ℕ, Bytes, Bool, true, false, Option, none, some, ◌≡◌, ◌≢◌, refl, ◌⊎◌, inl, inr}

-- A `String` or `&'static str` inside an error is its bytes.
pub data LqsError : Type 0 where
  access_denied : LqsError
  invalid_security_settings : Bytes → LqsError
  purge_queue_in_progress : LqsError
  queue_deleted_recently : LqsError
  invalid_queue_management : Bytes → LqsError
  queue_already_exists : Bytes → LqsError
  queue_not_found : Bytes → LqsError
  invalid_fifo_name : Bytes → LqsError
  invalid_standard_name : Bytes → LqsError
  fifo_requires_group_id : LqsError
  deduplication_id_required : LqsError
  empty_group_id : LqsError
  invalid_receipt_handle : Bytes → LqsError
  invalid_visibility_timeout : LqsError
  invalid_redrive_policy : Bytes → LqsError
  invalid_delivery_options : Bytes → LqsError
  invalid_message_size : ℕ → ℕ → LqsError
  invalid_batch : Bytes → LqsError
  invalid_message_identifier : Bytes → LqsError
  invalid_receive_options : LqsError
  over_limit : LqsError
  message_not_inflight : LqsError
  invalid_message_attributes : Bytes → LqsError
  database : Bytes → LqsError

-- `Result<A, LqsError>`. `out_of_fuel` belongs to the model only: a loop ran out of its rounds.
pub data Result {ℓ} (A : Type ℓ) : Type ℓ where
  ok : A → Result A
  err : LqsError → Result A
  out_of_fuel : Result A

-- `?`: an error ends the function, and so does a loop that ran out.
abbrev pub ◌>>=◌ {κ ℓ} : {S : Type κ} {T : Type ℓ} → Result S → (S → Result T) → Result T
out_of_fuel >>= rest = out_of_fuel
err x >>= rest = err x
ok v >>= rest = rest v

-- `if test { return Err(e) }`
abbrev pub fail_if : Bool → LqsError → Result (Unit {0})
fail_if true e = err e
fail_if false e = ok tt

-- `ok_or(e)?`
abbrev pub or_fail {ℓ} : {A : Type ℓ} → Option A → LqsError → Result A
or_fail none e = err e
or_fail (some a) e = ok a

-- `check()?;`
abbrev pub ◌>>◌ {κ} : {T : Type κ} → Result (Unit {0}) → Result T → Result T
first >> rest = first >>= λ done. rest

infixl 5 ◌>>=◌ ◌>>◌
-- The outcome of a call of another crate: a value, or the text of its error.
pub data Fallible {ℓ} (A : Type ℓ) : Type ℓ where
  value : A → Fallible A
  failure : Bytes → Fallible A

-- `.map_err(|e| LqsError::Database(e.to_string()))?`
abbrev pub or_database {ℓ} : {A : Type ℓ} → Fallible A → Result A
or_database (value a) = ok a
or_database (failure m) = err (database m)

-- Inversion of a successful bind.
pub >>=-eq-ok {κ ℓ} :
    {S : Type κ} {T : Type ℓ} (m : Result S) (rest : S → Result T) {t : T}
    → (m >>= rest) ≡ ok t
    → (v : S) × (m ≡ ok v) × (rest v ≡ ok t)
>>=-eq-ok out_of_fuel rest h = cc
>>=-eq-ok (err x) rest h = cc
>>=-eq-ok (ok v) rest h = (v, refl, h)

pub >>-eq-ok {ℓ} :
    {B : Type ℓ} (m : Result (Unit {0})) (k : Result B) {b : B}
    → (m >> k) ≡ ok b
    → (m ≡ ok tt) × (k ≡ ok b)
>>-eq-ok (ok tt) k h = (refl, h)
>>-eq-ok (err e) k h = cc
>>-eq-ok out_of_fuel k h = cc

pub fail_if-eq-ok : (b : Bool) (e : LqsError) → fail_if b e ≡ ok tt → b ≡ false
fail_if-eq-ok true e h = cc
fail_if-eq-ok false e h = refl

pub or_fail-eq-ok {ℓ} :
    {A : Type ℓ} (o : Option A) (e : LqsError) {a : A} → or_fail o e ≡ ok a → o ≡ some a
or_fail-eq-ok none e h = cc
or_fail-eq-ok (some a) e h = cc

pub Result-cases {ℓ} :
    {A : Type ℓ} (m : Result A)
    → ((a : A) × (m ≡ ok a)) ⊎ (((e : LqsError) × (m ≡ err e)) ⊎ (m ≡ out_of_fuel))
Result-cases (ok a) = inl (a, refl)
Result-cases (err e) = inr (inl (e, refl))
Result-cases out_of_fuel = inr (inr refl)

-- A bind ends when its parts do.
pub >>=-ends {ℓ κ} :
    {A : Type ℓ} {B : Type κ} (m : Result A) (f : A → Result B)
    → m ≢ out_of_fuel
    → ((a : A) → f a ≢ out_of_fuel)
    → (m >>= f) ≢ out_of_fuel
>>=-ends (ok a) f h k = k a
>>=-ends (err e) f h k = λ x. cc x
>>=-ends out_of_fuel f h k = λ x. h refl

pub >>-ends {κ} :
    {B : Type κ} (m : Result (Unit {0})) (rest : Result B)
    → m ≢ out_of_fuel
    → rest ≢ out_of_fuel
    → (m >> rest) ≢ out_of_fuel
>>-ends m rest h k = >>=-ends m (λ u. rest) h (λ u. k)
