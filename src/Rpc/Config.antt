-- ===== src/Rpc/Config.antt =====
-- Which configurations `RpcConfig` of src/myt_machine/rpc.py accepts.
use myt_machine.Base.{
  ℕ, ◌≡◌, ◌≤◌, refl, sym, ap, ◌∙◌, subst, Bool, true, not, ◌&&◌, ◌||◌, Option, some, Text, ◌==◌,
  Text_eq, arith, inl, inr, Option-cases, Bool-cases, and_parts,
}
use myt_machine.Base.Int.{pos}
use myt_machine.Base.Strings.{codes, rstrip}
use myt_machine.Errors.{
  Error, configuration_error, Result, ok, err, ok-injective, on_ok, require, require-eq-ok,
}
use myt_machine.Json.{Value}
use myt_machine.Rpc.{
  SplitUrl, Net, is_empty, is_none, named_host, is_loopback, check_url, normalize_url, credential,
  both_or_neither, check_timeout, check_max_bytes, check_flag, min_response_bytes,
  max_response_bytes, RpcConfig, new_config,
}

-- `stored` is the scheme and the location of a URL without credentials that is encrypted or goes to
-- this machine, unless that was waived.
abbrev pub IsSafeUrl : Net → Value → Text → Bool → Type 0
IsSafeUrl net url stored allow =
    (s : Text) × (parts : SplitUrl) × (url ≡ Value.str s)
    × (net.urlsplit s ≡ some parts)
    × (is_none parts.username ≡ true)
    × (is_none parts.password ≡ true)
    × ((net.lower parts.scheme == codes "http" || net.lower parts.scheme == codes "https") ≡ true)
    × ((hostname : Text) × (parts.hostname ≡ some hostname)
        × ((not (net.lower parts.scheme == codes "http") || is_loopback net hostname || allow)
            ≡ true))
    × (stored ≡ rstrip b'/' (net.urlunsplit (net.lower parts.scheme) parts.netloc))

refused_config : {A : Type 0} {a : A} {e : Error} → ◌≡◌ {A = Result A} (err e) (ok a) → ⊥
refused_config h = ground arith

named_host-eq-ok : (h : Option Text) (s : Text) → named_host h ≡ ok s → h ≡ some s
unfolding named_host
named_host-eq-ok h s e = ground arith

check_url-eq-ok :
    (net : Net) (parts : SplitUrl) (allow : Bool) (url : Text)
    → check_url net parts allow ≡ ok url
    → (is_none parts.username ≡ true)
      × (is_none parts.password ≡ true)
      × ((net.lower parts.scheme == codes "http" || net.lower parts.scheme == codes "https") ≡ true)
      × ((hostname : Text) × (parts.hostname ≡ some hostname)
          × ((not (net.lower parts.scheme == codes "http") || is_loopback net hostname || allow)
              ≡ true))
      × (url ≡ rstrip b'/' (net.urlunsplit (net.lower parts.scheme) parts.netloc))
unfolding check_url
check_url-eq-ok net parts allow url h =
    let scheme = net.lower parts.scheme in
    on_ok (require (scheme == codes "http" || scheme == codes "https") configuration_error) _ h
      λ u1 e1 h1. on_ok (named_host parts.hostname) _ h1 λ hostname e2 h2.
        on_ok (require (is_none parts.username && is_none parts.password) configuration_error) _ h2
          λ u3 e3 h3.
            on_ok (require (is_empty parts.query && is_empty parts.fragment) configuration_error) _
              h3
              λ u4 e4 h4.
                on_ok (require (is_empty parts.path || parts.path == codes "/") configuration_error)
                  _ h4
                  λ u5 e5 h5.
                    on_ok
                      (require (not (scheme == codes "http") || is_loopback net hostname || allow)
                        configuration_error)
                      _ h5
                      λ u6 e6 h6.
                        let (no_name, no_password) = and_parts _ _ (require-eq-ok _ _ e3) in
                        (
                          no_name,
                          no_password,
                          require-eq-ok _ _ e1,
                          (
                            hostname,
                            named_host-eq-ok parts.hostname hostname e2,
                            require-eq-ok _ _ e6,
                          ),
                          sym (ok-injective h6),
                        )

normalize_url-IsSafeUrl :
    (net : Net) (v : Value) (allow : Bool) (url : Text)
    → normalize_url net v allow ≡ ok url
    → IsSafeUrl net v url allow
unfolding normalize_url
normalize_url-IsSafeUrl net (Value.str s) allow url h = elim (Bool-cases (is_empty s)) [
  | inl nothing ↦ absurd (refused_config (rw nothing at h))
  | inr given ↦ elim (Option-cases (net.urlsplit s)) [
    | inl bad ↦ absurd (refused_config (rw bad at rw given at h))
    | inr (parts, split) ↦
        let (no_name, no_password, scheme, host, stored) =
          check_url-eq-ok net parts allow url (rw split at rw given at h) in
        (s, parts, refl, split, no_name, no_password, scheme, host, stored)
  ]
]
normalize_url-IsSafeUrl net _ allow url h = absurd (refused_config h)

credential-both :
    (a b : Value) (x y : Option Text)
    → both_or_neither a b ≡ true
    → credential a ≡ ok x
    → credential b ≡ ok y
    → is_none x ≡ is_none y
unfolding both_or_neither credential
credential-both a b x y h e f = ground arith

check_max_bytes-range :
    (v : Value) (n : ℕ)
    → check_max_bytes v ≡ ok n
    → (min_response_bytes ≤ n) × (n ≤ max_response_bytes)
unfolding check_max_bytes
check_max_bytes-range (Value.int (pos n)) m h = ground arith
check_max_bytes-range _ m h = absurd (refused_config h)

-- A configuration that `RpcConfig` accepts keeps, less slashes at its end, the lower-case scheme and
-- the location of the given URL, which has no credentials, has the scheme http or https and has a
-- host, which is this machine if the scheme is http and that was not waived. It has a user name
-- exactly if it has a password, and a limit on responses within its bounds.
pub new_config_lem :
    (net : Net) (url username password timeout allow max_bytes : Value) (c : RpcConfig)
    → new_config net url username password timeout allow max_bytes ≡ ok c
    → IsSafeUrl net url c.url c.allow_insecure_http
      × (is_none c.username ≡ is_none c.password)
      × (min_response_bytes ≤ c.max_bytes)
      × (c.max_bytes ≤ max_response_bytes)
unfolding new_config
new_config_lem net url username password timeout allow max_bytes c h =
    on_ok (check_flag allow) _ h λ flag e1 h1. on_ok (normalize_url net url flag) _ h1 λ url' e2 h2.
      on_ok (require (both_or_neither username password) configuration_error) _ h2 λ u e3 h3.
        on_ok (credential username) _ h3 λ name e4 h4.
          on_ok (credential password) _ h4 λ word e5 h5.
            on_ok (check_timeout timeout) _ h5 λ time e6 h6.
              on_ok (check_max_bytes max_bytes) _ h6 λ limit e7 h7.
                let same = ok-injective h7 in
                let (low, high) = check_max_bytes-range max_bytes limit e7 in
                (
                  subst (λ x. IsSafeUrl net url x.url x.allow_insecure_http) same
                      (normalize_url-IsSafeUrl net url flag url' e2),
                  ap (λ x. is_none x.username) (sym same)
                      ∙ credential-both username password name word (require-eq-ok _ _ e3) e4 e5
                      ∙ ap (λ x. is_none x.password) same,
                  subst (λ n. min_response_bytes ≤ n) (ap (λ x. x.max_bytes) same) low,
                  subst (λ n. n ≤ max_response_bytes) (ap (λ x. x.max_bytes) same) high,
                )
