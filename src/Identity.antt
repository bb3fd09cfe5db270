-- ===== src/Identity.antt =====
-- src/myt_machine/identity.py: machine identities and signature frames. Base64, base32, SHA-256 and
-- Ed25519 are parameters; bytes are a list of numbers.
pub mod Document
pub mod Frame
pub mod Again
pub mod Signing
use myt_machine.Base.{
  ℕ, zero, suc, ◌+◌, ◌-◌, ◌*◌, ◌/◌, ◌%◌, Bool, true, false, not, ◌&&◌, ◌||◌, Option, none, some,
  List, [], ◌∷◌, ◌++◌, Text, ◌==◌, ℕ_eq, Text_eq, option_text_eq, leb, ltb, length, replicate, take,
  drop, all, map, if◌then◌else◌,
}
use myt_machine.Base.Strings.{codes, is_digit, is_upper, is_lower, to_lower, to_upper, rstrip}
use myt_machine.Errors.{input_error, Result, ok, err, ◌>>=◌, ◌>>◌, require}
use myt_machine.Json.{Value, equals_text}

pub record Crypto : Type 0 where
  -- `base64.urlsafe_b64encode(value).decode("ascii")`
  pub b64 : Text → Text
  -- `base64.b64decode(value, altchars=b"-_", validate=True)`; `none` if it raises
  pub b64_decode : Text → Option Text
  -- `base64.b32encode(value).decode("ascii")`
  pub b32 : Text → Text
  -- `base64.b32decode(value, casefold=False)`; `none` if it raises
  pub b32_decode : Text → Option Text
  -- `hashlib.sha256(value).digest()`
  pub sha256_bytes : Text → Text
  -- Ed25519: the public key of a private key, a signature, and whether a signature verifies
  pub public_of : Text → Text
  pub sign_with : Text → Text → Text
  pub verify_with : Text → Text → Text → Bool

abbrev pub identity_type : Text
identity_type = codes "myt-machine-identity"

abbrev pub identity_algorithm : Text
identity_algorithm = codes "ed25519"

abbrev pub max_identity_message_bytes : ℕ
max_identity_message_bytes = 65536

abbrev pub max_identity_context_bytes : ℕ
max_identity_context_bytes = 128

abbrev pub machine_id_domain : Text
machine_id_domain =
    codes "MYT-MACHINE-ID" ++ (0 ∷ (codes "v1" ++ (0 ∷ (codes "ed25519" ++ 0 ∷ []))))

abbrev pub signature_domain : Text
signature_domain = codes "MYT-MACHINE-SIGNATURE" ++ 0 ∷ []

abbrev pub machine_id_prefix : Text
machine_id_prefix = codes "myt-machine-v1:"

-- A character of `[A-Za-z0-9_-]`.
unfoldable pub is_base64url : ℕ → Bool
is_base64url c = is_upper c || is_lower c || is_digit c || c == b'_' || c == b'-'

-- A character of `[a-z2-7]`.
unfoldable pub is_base32 : ℕ → Bool
is_base32 c = is_lower c || leb b'2' c && leb c b'7'

-- A character of `[a-z0-9._:/-]`.
unfoldable pub is_context_char : ℕ → Bool
is_context_char c =
    is_lower c || is_digit c || c == b'.' || c == b'_' || c == b':' || c == b'/' || c == b'-'

-- `_MACHINE_ID_PATTERN.fullmatch`
unfoldable pub is_machine_id : Text → Bool
is_machine_id s =
    take 15 s == machine_id_prefix && length (drop 15 s) == 52 && all is_base32 (drop 15 s)

unfoldable pub validate_identity_context : Text → Result Text
validate_identity_context context =
    if leb 1 (length context)
      && leb (length context) max_identity_context_bytes
      && all is_context_char context
    then ok context
    else err input_error

unfoldable pub validate_identity_message : Text → Result Text
validate_identity_message message =
    if leb 1 (length message) && leb (length message) max_identity_message_bytes
    then ok message
    else err input_error

-- `n.to_bytes(k, "big")`
unfoldable pub big_endian : ℕ → ℕ → Text
big_endian zero n = []
big_endian (suc k) n = big_endian k (n / 256) ++ (n % 256) ∷ []

unfoldable pub validate_public_key_bytes : Text → Result Text
validate_public_key_bytes key = if length key == 32 then ok key else err input_error

pub record PublicMachineIdentity : Type 0 where
  pub public_key : Text
  pub machine_id : Text

pub record IdentityVerification : Type 0 where
  pub valid : Bool
  pub signature_valid : Bool
  pub identity_matches : Option Bool
  pub authentication_valid : Option Bool
  pub machine_id : Text
  pub context : Text

pub record IdentitySignature : Type 0 where
  pub machine_id : Text
  pub context : Text
  pub signature : Text

pub record MachineIdentity : Type 0 where
  pub private_key : Text
  pub public_identity : PublicMachineIdentity

module _ (c : Crypto) where
  -- `_encode_base64url`
  unfoldable pub encode_base64url : Text → Text
  encode_base64url value = rstrip b'=' (c.b64 value)

  unfoldable pub decode_text : Text → ℕ → Result Text
  decode_text value expected_bytes =
      if not (length value == (expected_bytes * 8 + 5) / 6 && all is_base64url value)
      then err input_error
      else elim (c.b64_decode (value ++ replicate ((4 - length value % 4) % 4) b'=')) [
        | none ↦ err input_error
        | some decoded ↦
            if length decoded == expected_bytes && encode_base64url decoded == value
            then ok decoded
            else err input_error
      ]

  -- `_decode_base64url`
  unfoldable pub decode_base64url : Value → ℕ → Result Text
  decode_base64url (Value.str []) expected_bytes = err input_error
  decode_base64url (Value.str (x ∷ s)) expected_bytes = decode_text (x ∷ s) expected_bytes
  decode_base64url _ expected_bytes = err input_error

  unfoldable pub encode_public_key : Text → Result Text
  encode_public_key key = do raw ← validate_public_key_bytes key; ok (encode_base64url raw)

  unfoldable pub decode_public_key : Value → Result Text
  decode_public_key value = decode_base64url value 32

  unfoldable pub encode_signature : Text → Result Text
  encode_signature s = do require (length s == 64) input_error; ok (encode_base64url s)

  unfoldable pub decode_signature : Value → Result Text
  decode_signature value = decode_base64url value 64

  -- The base32 of a digest, as a Machine ID has it.
  unfoldable pub encode_digest : Text → Text
  encode_digest digest = map to_lower (rstrip b'=' (c.b32 digest))

  unfoldable pub derive_machine_id : Text → Result Text
  derive_machine_id key = do
    raw ← validate_public_key_bytes key
    ok (machine_id_prefix ++ encode_digest (c.sha256_bytes (machine_id_domain ++ raw)))

  -- `machine_id_digest` on a `str`.
  unfoldable pub digest_of : Text → Result Text
  digest_of machine_id =
      if not (is_machine_id machine_id)
      then err input_error
      else elim (c.b32_decode (map to_upper (drop 15 machine_id) ++ codes "====")) [
        | none ↦ err input_error
        | some decoded ↦
            if length decoded == 32 && encode_digest decoded == drop 15 machine_id
            then ok decoded
            else err input_error
      ]

  unfoldable pub machine_id_digest : Value → Result Text
  machine_id_digest (Value.str s) = digest_of s
  machine_id_digest _ = err input_error

  unfoldable pub create_signature_frame : Text → Text → Text → Result Text
  create_signature_frame machine_id context message = do
    digest ← digest_of machine_id
    context' ← validate_identity_context context
    message' ← validate_identity_message message
    ok (
        signature_domain
        ++ (1
            ∷ (digest
                ++ (big_endian 2 (length context')
                    ++ (context' ++ (big_endian 8 (length message') ++ message'))))))

  -- `PublicMachineIdentity(…)` with its `__post_init__`.
  unfoldable pub new_identity : Text → Value → Value → Result PublicMachineIdentity
  new_identity key (Value.str machine_id) algorithm = do
    raw ← validate_public_key_bytes key
    require (equals_text algorithm identity_algorithm) input_error
    digest_of machine_id
    derived ← derive_machine_id raw
    require (derived == machine_id) input_error
    ok (record { public_key = key; machine_id = machine_id })
  new_identity key _ algorithm = err input_error

  unfoldable pub from_public_key : Text → Result PublicMachineIdentity
  from_public_key key = do
    raw ← validate_public_key_bytes key
    derived ← derive_machine_id raw
    new_identity raw (Value.str derived) (Value.str identity_algorithm)

  abbrev pub check_expected : Option Text → Result (Unit {0})
  check_expected none = ok tt
  check_expected (some machine_id) = do digest_of machine_id; ok tt

  abbrev pub matches : Option Text → Text → Option Bool
  matches none machine_id = none
  matches (some expected) machine_id = some (expected == machine_id)

  -- The verdict, from whether the signature is valid and the identity matches.
  abbrev pub verdict : Bool → Option Bool → PublicMachineIdentity → Text → IdentityVerification
  verdict signature_valid none i context = record {
    valid = signature_valid;
    signature_valid = signature_valid;
    identity_matches = none;
    authentication_valid = none;
    machine_id = i.machine_id;
    context = context;
  }
  verdict signature_valid (some same) i context = record {
    valid = signature_valid && same;
    signature_valid = signature_valid;
    identity_matches = some same;
    authentication_valid = some (signature_valid && same);
    machine_id = i.machine_id;
    context = context;
  }

  -- `verify`
  unfoldable pub verify_identity :
      PublicMachineIdentity → Text → Text → Value → Option Text → Result IdentityVerification
  verify_identity i message context signature expected = do
    check_expected expected
    frame ← create_signature_frame i.machine_id context message
    raw ← decode_signature signature
    context' ← validate_identity_context context
    ok (verdict (c.verify_with i.public_key raw frame) (matches expected i.machine_id) i context')

  -- `MachineIdentity(private_key)`
  unfoldable pub new_machine_identity : Text → Result MachineIdentity
  new_machine_identity private_key = do
    i ← from_public_key (c.public_of private_key)
    ok (record { private_key = private_key; public_identity = i })

  unfoldable pub sign : MachineIdentity → Text → Text → Result IdentitySignature
  sign m message context = do
    frame ← create_signature_frame m.public_identity.machine_id context message
    context' ← validate_identity_context context
    signature ← encode_signature (c.sign_with m.private_key frame)
    ok (record {
      machine_id = m.public_identity.machine_id;
      context = context';
      signature = signature;
    })
