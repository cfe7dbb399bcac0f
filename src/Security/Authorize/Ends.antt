-- ===== src/Security/Authorize/Ends.antt =====
-- src/security.rs `QueueSecurity::authorize`: whether it comes to an answer.
use lqs.Prelude.{
  Bool, true, false, ◌&&◌, ◌||◌, Option, none, some, List, [], ◌∷◌, ◌≢◌, Bytes, text, if◌then◌else◌,
  arith,
}
use lqs.Error.{LqsError, Result, ok, err, out_of_fuel, >>=-ends, >>-ends, fail_if, or_fail}
use lqs.Security.Json.{Json, get, or_null}
use lqs.Security.Names.{RequestIdentity}
use lqs.Security.Policy.{
  texts, strings, as_statements, statements, Seen, check_sid, only_aws, wildcard_only,
  principal_value, check_statement, check_statements, parse_policy,
}
use lqs.Security.Authorize.{Access, and_then, applies, denies, decide_access, authorize}

ok-ends {ℓ} : {A : Type ℓ} (a : A) → ok a ≢ out_of_fuel
ok-ends a = λ h. cc h

err-ends {ℓ} : {A : Type ℓ} (e : LqsError) → ◌≢◌ {A = Result A} (err e) out_of_fuel
err-ends e = λ h. cc h

fail_if-ends : (b : Bool) (e : LqsError) → fail_if b e ≢ out_of_fuel
fail_if-ends true e = λ h. cc h
fail_if-ends false e = λ h. cc h

or_fail-ends {ℓ} : {A : Type ℓ} (o : Option A) (e : LqsError) → or_fail o e ≢ out_of_fuel
or_fail-ends none e = λ h. cc h
or_fail-ends (some a) e = λ h. cc h

if-ends {ℓ} :
    {A : Type ℓ} (b : Bool) (m n : Result A)
    → m ≢ out_of_fuel
    → n ≢ out_of_fuel
    → (if b then m else n) ≢ out_of_fuel
if-ends true m n h k = h
if-ends false m n h k = k

and_then-ends : (b : Bool) (m : Result Bool) → m ≢ out_of_fuel → and_then b m ≢ out_of_fuel
and_then-ends true m h = h
and_then-ends false m h = λ k. cc k

ruleset ends_rules = (>>=-ends, >>-ends, ok-ends, err-ends, fail_if-ends, or_fail-ends, if-ends)

texts-ends : (vs : List Json) → texts vs ≢ out_of_fuel
unfolding texts
texts-ends [] = ok-ends []
texts-ends (v ∷ vs) = search (ends_rules, texts-ends vs) depth 8

strings-ends : (v : Json) → strings v ≢ out_of_fuel
unfolding strings
strings-ends v = grind (arith, texts-ends)

as_statements-ends : (v : Json) → as_statements v ≢ out_of_fuel
unfolding as_statements
as_statements-ends v = ground arith

check_sid-ends : (v : Option Json) (ids : List Bytes) → check_sid v ids ≢ out_of_fuel
unfolding check_sid
check_sid-ends none ids = ok-ends ids
check_sid-ends (some v) ids = search ends_rules depth 8

principal_value-ends : (v : Json) → principal_value v ≢ out_of_fuel
unfolding principal_value only_aws wildcard_only
principal_value-ends v = ground arith

check_statement-ends : (v : Json) (seen : Seen) → check_statement v seen ≢ out_of_fuel
unfolding check_statement
check_statement-ends v seen =
    search (ends_rules, check_sid-ends, principal_value-ends, strings-ends) depth 30

check_statements-ends : (vs : List Json) (seen : Seen) → check_statements vs seen ≢ out_of_fuel
unfolding check_statements
check_statements-ends [] seen = ok-ends tt
check_statements-ends (v ∷ vs) seen =
    >>=-ends (check_statement v seen) _ (check_statement-ends v seen)
      (λ seen'. check_statements-ends vs seen')

statements-ends : (policy : Json) → statements policy ≢ out_of_fuel
unfolding statements
statements-ends policy = as_statements-ends (or_null (get policy (text "Statement")))

parse_policy-ends :
    (parse : Bytes → Option Json) (encoded : Bytes) → parse_policy parse encoded ≢ out_of_fuel
unfolding parse_policy
parse_policy-ends parse encoded =
    search (ends_rules, statements-ends, check_statements-ends) depth 30

applies-ends : (access : Access) (statement : Json) → applies access statement ≢ out_of_fuel
unfolding applies
applies-ends access statement = search (ends_rules, and_then-ends, strings-ends) depth 20

decide_access-ends :
    (access : Access) (allowed : Bool) (vs : List Json)
    → decide_access access allowed vs ≢ out_of_fuel
unfolding decide_access
decide_access-ends access allowed [] = search ends_rules depth 6
decide_access-ends access allowed (v ∷ vs) =
    >>=-ends (applies access v) _ (applies-ends access v) (λ hit.
      if-ends (hit && denies v) _ _ (err-ends _) (decide_access-ends access (allowed || hit) vs))

-- `authorize` always comes to an answer.
pub authorize-ends :
    (parse : Bytes → Option Json) (policy : Option Bytes) (identity : RequestIdentity)
    (action resource : Bytes)
    → authorize parse policy identity action resource ≢ out_of_fuel
unfolding authorize
authorize-ends parse none identity action resource = ok-ends tt
authorize-ends parse (some encoded) identity action resource =
    search (ends_rules, parse_policy-ends, statements-ends, decide_access-ends) depth 12
