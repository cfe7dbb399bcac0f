-- ===== src/Http/Identity.antt =====
-- src/security_http.rs: who sends a request, by a trusted header or a bearer credential.
use lqs.Prelude.{
  ℕ, zero, suc, ◌+◌, ◌*◌, ◌/◌, ◌%◌, Bool, not, ◌||◌, Option, List, [], ◌∷◌, map, max, select,
  length, ◌==◌, Bytes, text, bytes_eq,
}
use lqs.Prelude.Parse.{strip_prefix}
use lqs.Error.{access_denied, Result, ok, err, or_fail, fail_if, ◌>>=◌, ◌>>◌}
use lqs.Security.Names.{RequestIdentity, anonymous, aws_identity}
use lqs.Http.Web.{Web}
use lqs.Http.Wire.{Headers, has_header}

-- The method and the URI stand as their text.
pub record HttpAuthorizationRequest : Type 0 where
  pub action : Bytes
  pub queue_name : Option Bytes
  pub headers : Headers
  pub method : Bytes
  pub uri : Bytes
  pub body : Bytes

abbrev pub AuthorizationHook : Type 0
AuthorizationHook = HttpAuthorizationRequest → Result RequestIdentity

-- `headers.get_all(name)`
abbrev pub get_all : Bytes → Headers → List Bytes
get_all name headers = map (λ h. h.1) (select (λ (h : Bytes × Bytes). bytes_eq h.0 name) headers)

abbrev pub principal_header : Bytes
principal_header = text "x-lqs-principal"

unfoldable pub local_principal : Web → Bool → List Bytes → Result RequestIdentity
local_principal web trust_header [] = ok anonymous
local_principal web trust_header (v ∷ vs) = do
  fail_if (not trust_header || not (length (v ∷ vs) == 1)) access_denied
  principal ← or_fail (web.header_text v) access_denied
  aws_identity principal

unfoldable pub local_hook : Web → Bool → AuthorizationHook
local_hook web trust_header r =
    local_principal web trust_header (get_all principal_header r.headers)

-- `a ^ b` and `a | b` on numbers of `w` bits
unfoldable pub bit_xor : ℕ → ℕ → ℕ → ℕ
bit_xor zero a b = 0
bit_xor (suc w) a b = (a % 2 + b % 2) % 2 + 2 * bit_xor w (a / 2) (b / 2)

unfoldable pub bit_or : ℕ → ℕ → ℕ → ℕ
bit_or zero a b = 0
bit_or (suc w) a b = max (a % 2) (b % 2) + 2 * bit_or w (a / 2) (b / 2)

-- The fold over the pairs of bytes; what one digest has more is not looked at.
unfoldable pub difference : ℕ → Bytes → Bytes → ℕ
difference d [] right = d
difference d (l ∷ left) [] = d
difference d (l ∷ left) (r ∷ right) = difference (bit_or 8 d (bit_xor 8 l r)) left right

abbrev pub one_value : List Bytes → Result Bytes
one_value [] = err access_denied
one_value (v ∷ []) = ok v
one_value (v ∷ w ∷ vs) = err access_denied

-- `identity` is what `RequestIdentity::aws` gives of the configured principal.
unfoldable pub bearer_hook : Web → Bytes → RequestIdentity → AuthorizationHook
bearer_hook web credential identity r = do
  fail_if (has_header principal_header r.headers) access_denied
  v ← one_value (get_all (text "authorization") r.headers)
  authorization ← or_fail (web.header_text v) access_denied
  candidate ← or_fail (strip_prefix (text "Bearer ") authorization) access_denied
  fail_if (not (difference 0 (web.sha256 credential) (web.sha256 candidate) == 0)) access_denied
  ok identity
