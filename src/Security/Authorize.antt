-- ===== src/Security/Authorize.antt =====
-- src/security.rs: `QueueSecurity::authorize`.
pub mod Verdict
pub mod Ends
use lqs.Prelude.{
  Bool, true, false, not, ◌&&◌, ◌||◌, Option, none, some, List, [], ◌∷◌, ◌++◌, if◌then◌else◌, any,
  Bytes, text, to_ascii_lowercase,
}
use lqs.Error.{Result, ok, err, out_of_fuel, ◌>>=◌, access_denied}
use lqs.Security.Json.{Json, get, or_null, is_text}
use lqs.Security.Names.{RequestIdentity, permission_action, principal_matches}
use lqs.Security.Glob.{glob}
use lqs.Security.Policy.{strings, statements, parse_policy}

abbrev or_self : Option Json → Json → Json
or_self none v = v
or_self (some w) v = w

-- `a? && rest?`: the rest is read only after a match.
abbrev and_then : Bool → Result Bool → Result Bool
and_then true r = r
and_then false r = ok false

-- What one request asks: who, which action (`sqs:` and lower case) and which queue.
pub record Access : Type 0 where
  pub identity : RequestIdentity
  pub action : Bytes
  pub resource : Bytes

unfoldable pub principal_of : Json → Json
principal_of statement =
    let principal = or_null (get statement (text "Principal")) in
    or_self (get principal (text "AWS")) principal

unfoldable pub applies : Access → Json → Result Bool
applies access statement = do
  principals ← strings (principal_of statement)
  and_then (any (λ value. principal_matches value access.identity) principals) (do
    patterns ← strings (or_null (get statement (text "Action")))
    and_then (any (λ pattern'. glob (to_ascii_lowercase pattern') access.action) patterns) (do
      resources ← strings (or_null (get statement (text "Resource")))
      ok (any (λ pattern'. glob pattern' access.resource) resources)))

unfoldable pub denies : Json → Bool
denies statement = is_text (or_null (get statement (text "Effect"))) (text "Deny")

-- The loop over the statements; `allowed` becomes true at the first match that does not deny.
unfoldable pub decide_access : Access → Bool → List Json → Result (Unit {0})
decide_access access allowed [] = if allowed then ok tt else err access_denied
decide_access access allowed (statement ∷ rest) = do
  hit ← applies access statement
  if hit && denies statement then err access_denied else decide_access access (allowed || hit) rest

unfoldable pub authorize :
    (Bytes → Option Json) → Option Bytes → RequestIdentity → Bytes → Bytes → Result (Unit {0})
authorize parse none identity action resource = ok tt
authorize parse (some encoded) identity action resource = do
  policy ← parse_policy parse encoded
  items ← statements policy
  decide_access
      (record {
        identity = identity;
        action = to_ascii_lowercase (text "sqs:" ++ permission_action action);
        resource = resource;
      })
      false items
