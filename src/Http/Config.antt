-- ===== src/Http/Config.antt =====
-- src/http_server.rs: the server's configuration, from the environment and checked; the hook and the
-- state that `serve` makes of it.
use lqs.Prelude.{
  ℕ, ◌^◌, Bool, true, false, not, ◌&&◌, ◌||◌, Option, none, some, ◌++◌, if◌then◌else◌, ltb,
  in_range, ◌==◌, all, length, trim_end, starts_with, Bytes, text, bytes_eq,
}
use lqs.Prelude.Parse.{parse_u64}
use lqs.Error.{Result, ok}
use lqs.Security.Names.{RequestIdentity, aws_identity}
use lqs.Http.Web.{Web}
use lqs.Http.Names.{is_slash}
use lqs.Http.Identity.{AuthorizationHook, local_hook, bearer_hook}
use lqs.Http.Serve.{Server}

-- `SocketAddr`: its text, and whether its IP is a loopback address
pub record Address : Type 0 where
  pub shown : Bytes
  pub is_loopback : Bool

-- `str::parse::<SocketAddr>` and tokio's `Semaphore::MAX_PERMITS`
pub record Host : Type 0 where
  pub parse_addr : Bytes → Option Address
  pub max_permits : ℕ

pub data ServerConfigError : Type 0 where
  invalid_http_limits invalid_authorization_mode invalid_remote_mode remote_principal_header :
      ServerConfigError
  conflicting_authentication_modes invalid_credential invalid_auth_principal : ServerConfigError
  incomplete_authentication unauthenticated_remote : ServerConfigError
  invalid_bind_address : ServerConfigError
  invalid_base_url : Bytes → ServerConfigError

-- `Result<A, ServerConfigError>`
pub data Setup {ℓ} (A : Type ℓ) : Type ℓ where
  valid : A → Setup A
  rejected : ServerConfigError → Setup A

infixl 5 ◌>>=◌ ◌>>◌
abbrev pub ◌>>=◌ {κ ℓ} : {S : Type κ} {T : Type ℓ} → Setup S → (S → Setup T) → Setup T
rejected e >>= next = rejected e
valid s >>= next = next s

abbrev pub ◌>>◌ {κ} : {T : Type κ} → Setup (Unit {0}) → Setup T → Setup T
first >> next = first >>= λ nothing. next

abbrev pub reject_if : Bool → ServerConfigError → Setup (Unit {0})
reject_if true e = rejected e
reject_if false e = valid tt

pub record HttpLimits : Type 0 where
  pub max_in_flight : ℕ
  pub requests_per_second : ℕ
  pub body_read_timeout_ms : ℕ

abbrev pub default_limits : HttpLimits
default_limits = record {
  max_in_flight = 128;
  requests_per_second = 1000;
  body_read_timeout_ms = 5000;
}

-- `HttpLimits::validate`
unfoldable pub validate_limits : Host → HttpLimits → Setup (Unit {0})
validate_limits host limits =
    reject_if
      (limits.max_in_flight == 0
        || ltb host.max_permits limits.max_in_flight
        || limits.requests_per_second == 0
        || limits.body_read_timeout_ms == 0)
      invalid_http_limits

pub record ServerConfig : Type 0 where
  pub trust_principal_header : Bool
  pub allow_unauthenticated_remote : Bool
  pub bearer_credential : Option Bytes
  pub auth_principal : Option Bytes
  pub http_limits : HttpLimits
  pub database_key_file : Option Bytes
  pub bind_addr : Address
  pub database_path : Bytes
  pub public_base_url : Bytes

abbrev pub is_given : Option Bytes → Bool
is_given none = false
is_given (some s) = true

-- `is_ascii_graphic`
abbrev pub is_graphic : ℕ → Bool
is_graphic b = in_range 33 126 b

abbrev pub check_principal : Result RequestIdentity → Setup (Unit {0})
check_principal (ok identity) = valid tt
check_principal _ = rejected invalid_auth_principal

unfoldable pub validate_authentication :
    Bool → Bool → Option Bytes → Option Bytes → Setup (Unit {0})
validate_authentication is_local allowed (some credential) (some principal) = do
  reject_if (ltb (length credential) 32 || not (all is_graphic credential)) invalid_credential
  check_principal (aws_identity principal)
validate_authentication is_local allowed none none =
    reject_if (not is_local && not allowed) unauthenticated_remote
validate_authentication is_local allowed _ _ = rejected incomplete_authentication

-- `ServerConfig::validate`
unfoldable pub validate : Host → ServerConfig → Setup (Unit {0})
validate host config = do
  let is_local = config.bind_addr.is_loopback
  validate_limits host config.http_limits
  reject_if (config.trust_principal_header && not is_local) remote_principal_header
  reject_if (config.trust_principal_header && is_given config.bearer_credential)
      conflicting_authentication_modes
  validate_authentication is_local config.allow_unauthenticated_remote config.bearer_credential
      config.auth_principal

-- `env::var`
pub data EnvVar : Type 0 where
  set : Bytes → EnvVar
  not_present not_unicode : EnvVar

abbrev pub Environment : Type 0
Environment = Bytes → EnvVar

abbrev parsed : ℕ → Option ℕ → Setup ℕ
parsed w none = rejected invalid_http_limits
parsed w (some n) = if ltb n (2 ^ w) then valid n else rejected invalid_http_limits

abbrev limit_value : ℕ → ℕ → EnvVar → Setup ℕ
limit_value w default (set s) = parsed w (parse_u64 s)
limit_value w default not_present = valid default
limit_value w default not_unicode = rejected invalid_http_limits

-- `env_limit` at a type of `w` bits
unfoldable pub env_limit : Environment → ℕ → Bytes → ℕ → Setup ℕ
env_limit env w name default = do
  n ← limit_value w default (env name)
  reject_if (n == 0) invalid_http_limits
  valid n

abbrev flag : ServerConfigError → EnvVar → Setup Bool
flag e (set s) =
    if bytes_eq s (text "true")
    then valid true
    else if bytes_eq s (text "false")
    then valid false
    else rejected e
flag e not_present = valid false
flag e not_unicode = rejected e

abbrev optional : ServerConfigError → EnvVar → Setup (Option Bytes)
optional e (set s) = valid (some s)
optional e not_present = valid none
optional e not_unicode = rejected e

abbrev or_default : Bytes → EnvVar → Bytes
or_default default (set s) = s
or_default default not_present = default
or_default default not_unicode = default

abbrev or_bad_address {ℓ} : {A : Type ℓ} → Option A → Setup A
or_bad_address none = rejected invalid_bind_address
or_bad_address (some a) = valid a

abbrev path_or_default : Option Bytes → Bytes
path_or_default none = text "lqs.sqlite"
path_or_default (some path) = path

-- `ServerConfig::from_env`; `paths` is `env::var_os`, which also reads what is not Unicode.
unfoldable pub from_env : Host → Environment → (Bytes → Option Bytes) → Setup ServerConfig
from_env host env paths = do
  bind_addr ←
      or_bad_address
        (host.parse_addr (or_default (text "127.0.0.1:9324") (env (text "LQS_BIND_ADDR"))))
  let public_base_url =
      trim_end is_slash (or_default (text "http://" ++ bind_addr.shown) (env (text "LQS_BASE_URL")))
  reject_if
      (not (
        starts_with public_base_url (text "http://")
        || starts_with public_base_url (text "https://")))
      (invalid_base_url public_base_url)
  trust ← flag invalid_authorization_mode (env (text "LQS_TRUST_PRINCIPAL_HEADER"))
  allow ← flag invalid_remote_mode (env (text "LQS_ALLOW_UNAUTHENTICATED_REMOTE"))
  credential ← optional invalid_credential (env (text "LQS_AUTH_TOKEN"))
  principal ← optional invalid_auth_principal (env (text "LQS_AUTH_PRINCIPAL"))
  max_in_flight ← env_limit env 64 (text "LQS_MAX_IN_FLIGHT") default_limits.max_in_flight
  per_second ← env_limit env 32 (text "LQS_REQUESTS_PER_SECOND") default_limits.requests_per_second
  timeout ← env_limit env 64 (text "LQS_BODY_READ_TIMEOUT_MS") default_limits.body_read_timeout_ms
  let config : ServerConfig = record {
    trust_principal_header = trust;
    allow_unauthenticated_remote = allow;
    bearer_credential = credential;
    auth_principal = principal;
    http_limits = record {
      max_in_flight = max_in_flight;
      requests_per_second = per_second;
      body_read_timeout_ms = timeout;
    };
    database_key_file = paths (text "LQS_DATABASE_KEY_FILE");
    bind_addr = bind_addr;
    database_path = path_or_default (paths (text "LQS_DATABASE_PATH"));
    public_base_url = public_base_url;
  }
  validate host config
  valid config

abbrev bearer_of : Web → Bytes → Result RequestIdentity → Option AuthorizationHook
bearer_of web credential (ok identity) = some (bearer_hook web credential identity)
bearer_of web credential _ = none

-- The hook that `serve` installs; `none` is the panic on a principal that `validate` refuses.
unfoldable pub installed_hook : Web → Bool → Option Bytes → Option Bytes → Option AuthorizationHook
installed_hook web trust (some credential) (some principal) =
    bearer_of web credential (aws_identity principal)
installed_hook web trust _ _ = some (local_hook web trust)

-- `router_with_authorization_and_limits`: the base URL without its trailing slashes
unfoldable pub router : Web → Bytes → AuthorizationHook → Server
router web public_base_url hook = record {
  web = web;
  public_base_url = trim_end is_slash public_base_url;
  authorization_hook = hook;
}
