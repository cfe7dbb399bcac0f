-- ===== src/Http/Laws/Remote.antt =====
-- src/http_server.rs `ServerConfig::validate`: what a server that others can reach demands.
use lqs.Prelude.{
  ◌≤◌, Bool, true, false, not, ◌&&◌, ◌||◌, ◌≡◌, refl, Option, none, some, arith, ltb, all, length,
  Bytes,
}
use lqs.Error.{Result, ok, err, out_of_fuel}
use lqs.Security.Names.{RequestIdentity, aws_identity}
use lqs.Http.Web.{Web}
use lqs.Http.Identity.{bearer_hook}
use lqs.Http.Config.{
  Host, ServerConfig, ServerConfigError, Setup, valid, rejected, ◌>>◌, reject_if, check_principal,
  is_given, invalid_credential, remote_principal_header, conflicting_authentication_modes,
  is_graphic, validate_limits, validate_authentication, validate, installed_hook,
}

-- The bearer hook with a long credential is what guards the server.
abbrev pub Guarded : Web → Bool → Option Bytes → Option Bytes → Type 0
Guarded web trust given principal =
    (credential : Bytes) × (identity : RequestIdentity) × (given ≡ some credential)
    × (32 ≤ length credential)
    × (all is_graphic credential ≡ true)
    × (installed_hook web trust given principal ≡ some (bearer_hook web credential identity))

reject_if-eq-valid :
    (b : Bool) (e : ServerConfigError) (next : Setup (Unit {0}))
    → (reject_if b e >> next) ≡ valid tt
    → (b ≡ false) × (next ≡ valid tt)
reject_if-eq-valid true e next h = cc h
reject_if-eq-valid false e next h = (refl, h)

first-eq-valid :
    (first next : Setup (Unit {0}))
    → (first >> next) ≡ valid tt
    → (first ≡ valid tt) × (next ≡ valid tt)
first-eq-valid (valid u) next h = (refl, h)
first-eq-valid (rejected e) next h = cc h

never_trusted :
    (trust is_local : Bool) → is_local ≡ false → (trust && not is_local) ≡ false → trust ≡ false
never_trusted trust is_local e h = ground arith

identity_of :
    (identity : Result RequestIdentity)
    → check_principal identity ≡ valid tt
    → (i : RequestIdentity) × (identity ≡ ok i)
identity_of (ok i) h = (i, refl)
identity_of (err e) h = cc h
identity_of out_of_fuel h = cc h

remote-Guarded :
    (web : Web) (trust : Bool) (given principal : Option Bytes)
    → validate_authentication false false given principal ≡ valid tt
    → Guarded web trust given principal
unfolding validate_authentication installed_hook
remote-Guarded web trust none none h = cc h
remote-Guarded web trust (some credential) none h = cc h
remote-Guarded web trust none (some principal) h = cc h
remote-Guarded web trust (some credential) (some principal) h =
    let (strong, checked) =
      reject_if-eq-valid (ltb (length credential) 32 || not (all is_graphic credential))
        invalid_credential (check_principal (aws_identity principal)) h in
    let (identity, e) = identity_of (aws_identity principal) checked in
    let long : 32 ≤ length credential = ground arith in
    let graphic : all is_graphic credential ≡ true = ground arith in
    (credential, identity, refl, long, graphic, rw (e, installed_hook) refl)

-- A configuration that is valid for an address that others can reach, and that does not allow
-- unauthenticated requests, installs the bearer hook with a credential of at least 32 printable bytes;
-- and a valid one never trusts the header of a principal there.
pub validate-Guarded :
    (host : Host) (web : Web) (config : ServerConfig)
    → validate host config ≡ valid tt
    → config.bind_addr.is_loopback ≡ false
    → config.allow_unauthenticated_remote ≡ false
    → Guarded web config.trust_principal_header config.bearer_credential config.auth_principal
      × (config.trust_principal_header ≡ false)
unfolding validate
validate-Guarded host web config h remote closed =
    let auth =
      validate_authentication config.bind_addr.is_loopback config.allow_unauthenticated_remote
        config.bearer_credential config.auth_principal in
    let modes =
      reject_if (config.trust_principal_header && is_given config.bearer_credential)
        conflicting_authentication_modes
      >> auth in
    let header_test = config.trust_principal_header && not config.bind_addr.is_loopback in
    let (limits, h1) =
      first-eq-valid (validate_limits host config.http_limits)
        (reject_if header_test remote_principal_header >> modes) h in
    let (untrusted, h2) = reject_if-eq-valid header_test remote_principal_header modes h1 in
    let (single, h3) = reject_if-eq-valid _ conflicting_authentication_modes auth h2 in
    (
      remote-Guarded web config.trust_principal_header config.bearer_credential
          config.auth_principal (rw (remote, closed) at h3),
      never_trusted config.trust_principal_header config.bind_addr.is_loopback remote untrusted,
    )
