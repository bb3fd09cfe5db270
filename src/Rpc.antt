-- ===== src/Rpc.antt =====
-- src/myt_machine/rpc.py: the configuration of the wallet RPC client. `Digest` has the authentication
-- and `Client` the call.
pub mod Digest
pub mod Client
pub mod Config
pub mod Quoting
pub mod Attempts
pub mod Outcome
pub mod Accepted
use myt_machine.Base.{
  ℕ, ◌+◌, ◌^◌, ◌-◌, ◌*◌, Bool, true, false, not, ◌&&◌, ◌||◌, Option, none, some, List, [], ◌∷◌,
  Text, ◌==◌, ℕ_eq, Text_eq, ltb, leb, any, if◌then◌else◌,
}
use myt_machine.Base.Int.{ℤ, pos, negsuc}
use myt_machine.Base.Strings.{codes, rstrip}
use myt_machine.Errors.{configuration_error, overflow_error, Result, ok, err, ◌>>=◌, ◌>>◌, require}
use myt_machine.Json.{Value}

-- What `urlsplit` returns.
pub record SplitUrl : Type 0 where
  pub scheme : Text
  pub netloc : Text
  pub hostname : Option Text
  pub username : Option Text
  pub password : Option Text
  pub path : Text
  pub query : Text
  pub fragment : Text

pub record Net : Type 0 where
  -- `urlsplit` with a look at the port; `none` if either raises `ValueError`
  pub urlsplit : Text → Option SplitUrl
  -- `urlunsplit` of a scheme and a network location
  pub urlunsplit : Text → Text → Text
  -- `ipaddress.ip_address(value).is_loopback`, where no address is no loopback
  pub is_loopback_address : Text → Bool
  -- `str.lower` and `str.upper`
  pub lower : Text → Text
  pub upper : Text → Text
  -- `parse_keqv_list(filter(None, parse_http_list(fields)))`, by key; `none` if it raises
  pub parse_fields : Text → Option (Text → Option Text)
  -- `hashlib.md5(data).hexdigest()`
  pub md5 : Text → Text

abbrev pub is_empty : Text → Bool
is_empty [] = true
is_empty (c ∷ s) = false

abbrev pub is_none : Option Text → Bool
is_none none = true
is_none (some s) = false

-- `if not parsed.hostname`
unfoldable pub named_host : Option Text → Result Text
named_host none = err configuration_error
named_host (some h) = if is_empty h then err configuration_error else ok h

abbrev pub max_response_bytes : ℕ
max_response_bytes = 16777216

abbrev pub min_response_bytes : ℕ
min_response_bytes = 1024

-- `float(n)` raises `OverflowError` from here on.
abbrev pub float_limit : ℕ
float_limit = 2 ^ 1024 - 2 ^ 970

pub record RpcConfig : Type 0 where
  pub url : Text
  pub username : Option Text
  pub password : Option Text
  pub timeout : Value
  pub allow_insecure_http : Bool
  pub max_bytes : ℕ

module _ (net : Net) where
  -- `_is_loopback`
  unfoldable pub is_loopback : Text → Bool
  is_loopback hostname =
      let normalized = net.lower (rstrip b'.' hostname) in
      normalized == codes "localhost" || net.is_loopback_address normalized

  -- The tests of `_normalize_url` on the parts of the URL.
  unfoldable pub check_url : SplitUrl → Bool → Result Text
  check_url parts allow_insecure_http =
      let scheme = net.lower parts.scheme in
      do
        require (scheme == codes "http" || scheme == codes "https") configuration_error
        hostname ← named_host parts.hostname
        require (is_none parts.username && is_none parts.password) configuration_error
        require (is_empty parts.query && is_empty parts.fragment) configuration_error
        require (is_empty parts.path || parts.path == codes "/") configuration_error
        require (not (scheme == codes "http") || is_loopback hostname || allow_insecure_http)
            configuration_error
        ok (rstrip b'/' (net.urlunsplit scheme parts.netloc))

  -- `_normalize_url`
  unfoldable pub normalize_url : Value → Bool → Result Text
  normalize_url (Value.str url) allow_insecure_http =
      if is_empty url then err configuration_error else elim (net.urlsplit url) [
        | none ↦ err configuration_error
        | some parts ↦ check_url parts allow_insecure_http
      ]
  normalize_url _ allow_insecure_http = err configuration_error

-- A user name or a password, which may be `None`.
unfoldable pub credential : Value → Result (Option Text)
credential Value.null = ok none
credential (Value.str []) = err configuration_error
credential (Value.str (c ∷ s)) =
    if any (λ x. x == 13 || x == 10 || x == 0) (c ∷ s)
    then err configuration_error
    else ok (some (c ∷ s))
credential _ = err configuration_error

abbrev pub is_null : Value → Bool
is_null Value.null = true
is_null _ = false

-- `(a is None) == (b is None)`
unfoldable pub both_or_neither : Value → Value → Bool
both_or_neither a b = is_null a && is_null b || not (is_null a) && not (is_null b)

-- `0 < float(timeout) <= 300`
unfoldable pub check_timeout : Value → Result Value
check_timeout (Value.int (pos n)) =
    if leb float_limit n
    then err overflow_error
    else if ltb 0 n && leb n 300
    then ok (Value.int (pos n))
    else err configuration_error
check_timeout (Value.int (negsuc n)) =
    if leb float_limit (n + 1) then err overflow_error else err configuration_error
check_timeout (Value.float (pos m) k) =
    if ltb 0 m && leb m (300 * 2 ^ k) then ok (Value.float (pos m) k) else err configuration_error
check_timeout _ = err configuration_error

unfoldable pub check_max_bytes : Value → Result ℕ
check_max_bytes (Value.int (pos n)) =
    if leb min_response_bytes n && leb n max_response_bytes then ok n else err configuration_error
check_max_bytes _ = err configuration_error

unfoldable pub check_flag : Value → Result Bool
check_flag (Value.bool b) = ok b
check_flag _ = err configuration_error

-- `RpcConfig(…)` with its `__post_init__`.
unfoldable pub new_config : Net → Value → Value → Value → Value → Value → Value → Result RpcConfig
new_config net url username password timeout allow_insecure_http max_bytes = do
  allow ← check_flag allow_insecure_http
  url' ← normalize_url net url allow
  require (both_or_neither username password) configuration_error
  username' ← credential username
  password' ← credential password
  timeout' ← check_timeout timeout
  max_bytes' ← check_max_bytes max_bytes
  ok (record {
    url = url';
    username = username';
    password = password';
    timeout = timeout';
    allow_insecure_http = allow;
    max_bytes = max_bytes';
  })
