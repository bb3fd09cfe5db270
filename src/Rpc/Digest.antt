-- ===== src/Rpc/Digest.antt =====
-- `_PersistentDigestHandler` of src/myt_machine/rpc.py: the answer to a Digest challenge.
use myt_machine.Base.{
  ℕ, ◌+◌, Bool, not, ◌&&◌, ◌||◌, Option, none, some, List, [], ◌∷◌, ◌++◌, Text, ◌==◌, ℕ_eq, Text_eq,
  ltb, length, take, any, if◌then◌else◌,
}
use myt_machine.Base.Strings.{codes, is_space, utf8}
use myt_machine.Rpc.{Net}

-- How a request fails: the handler's own error, a timeout, an `OSError`, an `URLError` with a timeout
-- as its reason or not, an `HTTPError`, or an exception that nothing catches.
pub data Failure : Type 0 where
  digest_failed timed_out os_failed : Failure
  url_failed : Bool → Failure
  http_failed : ℕ → Failure
  not_encodable : Failure
  -- `http.client.HTTPException`: a status line that is malformed, a body that is cut short
  broken_http : Failure

pub data Attempt {ℓ} (A : Type ℓ) : Type ℓ where
  done : A → Attempt A
  failed : Failure → Attempt A

abbrev pub and_then {ℓ κ} : {A : Type ℓ} {B : Type κ} → Attempt A → (A → Attempt B) → Attempt B
and_then (done a) f = f a
and_then (failed e) f = failed e

pub record Challenge : Type 0 where
  pub realm : Text
  pub nonce : Text

pub record HttpResponse : Type 0 where
  pub status : ℕ
  pub challenges : List Text
  pub body : Text

-- `value.partition(c)`, where `none` is no separator.
unfoldable pub partition : ℕ → Text → Option (Text × Text)
partition c [] = none
partition c (x ∷ s) =
    let rest = partition c s in
    if x == c then some ([], s) else elim rest [ none ↦ none | some p ↦ some (x ∷ p.0, p.1) ]

-- `value.split(",")`
unfoldable pub split_commas : Text → List Text
split_commas [] = [] ∷ []
split_commas (c ∷ s) =
    let rest = split_commas s in
    if c == b',' then [] ∷ rest else elim rest [ [] ↦ (c ∷ []) ∷ [] | t ∷ ts ↦ (c ∷ t) ∷ ts ]

unfoldable pub lstrip : Text → Text
lstrip [] = []
lstrip (c ∷ s) = if is_space c then lstrip s else c ∷ s

unfoldable pub rstrip_spaces : Text → Text
rstrip_spaces [] = []
rstrip_spaces (c ∷ s) = elim (rstrip_spaces s) [
  | [] ↦ if is_space c then [] else c ∷ []
  | d ∷ r ↦ c ∷ d ∷ r
]

abbrev pub strip : Text → Text
strip s = lstrip (rstrip_spaces s)

abbrev pub or_default : Option Text → Text → Text
or_default none d = d
or_default (some s) d = s

-- `_quoted`: a quoted string of the header, with `"` and `\` escaped.
unfoldable pub escape : Text → Text
escape [] = []
escape (c ∷ s) = if c == 92 || c == 34 then 92 ∷ c ∷ escape s else c ∷ escape s

unfoldable pub is_control_code : ℕ → Bool
is_control_code c = ltb c 32 || c == 127

unfoldable pub quoted : Text → Attempt Text
quoted value = if any is_control_code value then failed digest_failed else done (escape value)

-- `key="value"`
abbrev pub parameter : Text → Text → Text
parameter key value = key ++ (codes "=\"" ++ (value ++ codes "\""))

module _ (net : Net) where
  -- The tests on the fields of one `WWW-Authenticate` value.
  unfoldable pub usable_fields : (Text → Option Text) → Option Challenge
  usable_fields fields = elim (fields (codes "realm")) [
    | none ↦ none
    | some realm ↦ elim (fields (codes "nonce")) [
      | none ↦ none
      | some nonce ↦ elim (fields (codes "qop")) [
        | none ↦ none
        | some qop ↦
            if net.upper (or_default (fields (codes "algorithm")) (codes "MD5")) == codes "MD5"
              && any (λ entry. net.lower (strip entry) == codes "auth") (split_commas qop)
            then some (record { realm = realm; nonce = nonce })
            else none
      ]
    ]
  ]

  unfoldable pub usable : Text → Option Challenge
  usable value = elim (partition b' ' value) [
    | none ↦ none
    | some p ↦
        if not (net.lower p.0 == codes "digest")
        then none
        else elim (net.parse_fields p.1) [ none ↦ none | some fields ↦ usable_fields fields ]
  ]

  -- `_challenge`: the first value that can be answered.
  unfoldable pub challenge : List Text → Option Challenge
  challenge [] = none
  challenge (value ∷ values) = elim (usable value) [ none ↦ challenge values | some c ↦ some c ]

  unfoldable pub md5_of : Text → Attempt Text
  md5_of value = elim (utf8 value) [ none ↦ failed not_encodable | some b ↦ done (net.md5 b) ]

  -- `_authorization`, for a `POST` to `selector`.
  unfoldable pub authorization : Option (Text × Text) → Text → Text → Challenge → Attempt Text
  authorization none selector cnonce c = failed digest_failed
  authorization (some (username, password)) selector cnonce c =
      and_then (quoted username) λ username'. and_then (quoted c.realm) λ realm.
        and_then (quoted c.nonce) λ nonce. and_then (quoted selector) λ uri.
          and_then (md5_of (username ++ (codes ":" ++ (c.realm ++ (codes ":" ++ password))))) λ ha1.
            and_then (md5_of (codes "POST:" ++ selector)) λ ha2.
              and_then
                (md5_of (
                  ha1
                  ++ (codes ":"
                      ++ (c.nonce ++ (codes ":00000001:" ++ (cnonce ++ (codes ":auth:" ++ ha2)))))))
                λ response. done (
                  codes "Digest "
                  ++ (parameter (codes "username") username'
                      ++ (codes ", "
                          ++ (parameter (codes "realm") realm
                              ++ (codes ", "
                                  ++ (parameter (codes "nonce") nonce
                                      ++ (codes ", "
                                          ++ (parameter (codes "uri") uri
                                              ++ (codes ", "
                                                  ++ (parameter (codes "response") response
                                                      ++ (codes
                                                            ", algorithm=MD5, qop=auth, nc=00000001, "
                                                          ++ parameter (codes "cnonce")
                                                            cnonce)))))))))))

abbrev pub max_auth_challenge_bytes : ℕ
max_auth_challenge_bytes = 65536

-- What came of a request, and the `Authorization` header of each request that was sent for it.
pub record Exchange : Type 0 where
  pub result : Attempt HttpResponse
  pub sent : List (Option Text)

abbrev pub second_request : Attempt HttpResponse → Attempt Text → Exchange
second_request second (done header) = record { result = second; sent = none ∷ some header ∷ [] }
second_request second (failed e) = record { result = failed e; sent = none ∷ [] }

-- `_open`: `first` and `second` are what the server makes of the first and the second request.
unfoldable pub answer_challenge :
    Net → Option (Text × Text) → Text → Text → HttpResponse → Attempt HttpResponse → Exchange
answer_challenge net credentials selector cnonce r second =
    if ltb max_auth_challenge_bytes (length (take (max_auth_challenge_bytes + 1) r.body))
    then record { result = failed digest_failed; sent = none ∷ [] }
    else elim (challenge net r.challenges) [
      | none ↦ record { result = done r; sent = none ∷ [] }
      | some c ↦ second_request second (authorization net credentials selector cnonce c)
    ]

unfoldable pub open_request :
    Net
    → Option (Text × Text)
    → Text
    → Text
    → Attempt HttpResponse
    → Attempt HttpResponse
    → Exchange
open_request net credentials selector cnonce (failed e) second = record {
  result = failed e;
  sent = none ∷ [];
}
open_request net none selector cnonce (done r) second = record { result = done r; sent = none ∷ [] }
open_request net (some credentials) selector cnonce (done r) second =
    if r.status == 401
    then answer_challenge net (some credentials) selector cnonce r second
    else record { result = done r; sent = none ∷ [] }
