-- ===== src/Binding.antt =====
-- src/myt_machine/binding.py and binding_artifacts.py: the artifact that binds a Machine ID to a wallet
-- address. `Service` has the operations that ask the wallet.
pub mod Service
pub mod Bound
pub mod Verified
pub mod Created
use myt_machine.Base.{
  ℕ, Bool, true, false, not, ◌&&◌, ◌||◌, Option, none, some, List, [], ◌∷◌, ◌++◌, String, Text,
  ◌==◌, ℕ_eq, Text_eq, leb, length, take, drop, all, any, if◌then◌else◌,
}
use myt_machine.Base.Strings.{codes, is_digit, is_upper, is_lower}
use myt_machine.Errors.{input_error, rpc_protocol_error, Result, ok, err, ◌>>=◌, ◌>>◌, require}
use myt_machine.Json.{Value, Fields, end, field, get, has_exactly, equals_text}
use myt_machine.Payment.{Platform, canonical_json, is_version_one, refused_bytes, nat}
use myt_machine.Rpc.Client.{Decoded, decoded, malformed, raised}
use myt_machine.Settlement.{rpc_int, rpc_bool, rpc_string, uint32_max}
use myt_machine.Identity.{
  Crypto, PublicMachineIdentity, IdentityVerification, machine_id_digest, decode_signature,
  verify_identity,
}
use myt_machine.Identity.Document.{public_identity_document, parse_public_identity_document}

abbrev pub binding_type : Text
binding_type = codes "myt-machine-address-binding"

abbrev pub binding_statement_type : Text
binding_statement_type = codes "myt-machine-address-binding-statement"

abbrev pub binding_context : Text
binding_context = codes "myt-machine/address-binding/v1"

abbrev pub binding_domain : Text
binding_domain = codes "MYT-MACHINE-ADDRESS-BINDING-V1" ++ 10 ∷ []

abbrev pub max_binding_address_bytes : ℕ
max_binding_address_bytes = 128

abbrev pub max_binding_artifact_bytes : ℕ
max_binding_artifact_bytes = 8192

abbrev pub binding_fields : List String
binding_fields =
    "address" ∷ "identity" ∷ "identity_signature" ∷ "network" ∷ "type" ∷ "version"
    ∷ "wallet_signature" ∷ []

unfoldable pub validate_binding_network : Value → Result Text
validate_binding_network (Value.str s) =
    if s == codes "mainnet" || s == codes "testnet" || s == codes "stagenet"
    then ok s
    else err input_error
validate_binding_network _ = err input_error

-- `[1-9A-HJ-NP-Za-km-z]`
unfoldable pub is_base58 : ℕ → Bool
is_base58 c =
    leb b'1' c && leb c b'9'
    || is_upper c && not (c == b'I') && not (c == b'O')
    || is_lower c && not (c == b'l')

unfoldable pub validate_binding_address : Value → Result Text
validate_binding_address (Value.str s) =
    if leb 1 (length s) && leb (length s) max_binding_address_bytes && all is_base58 s
    then ok s
    else err input_error
validate_binding_address _ = err input_error

-- `SigV2[1-9A-HJ-NP-Za-km-z]{88}`
unfoldable pub validate_wallet_signature : Value → Result Text
validate_wallet_signature (Value.str s) =
    if take 5 s == codes "SigV2" && length (drop 5 s) == 88 && all is_base58 (drop 5 s)
    then ok s
    else err input_error
validate_wallet_signature _ = err input_error

pub record AddressBinding : Type 0 where
  pub identity : PublicMachineIdentity
  pub network : Text
  pub address : Text
  pub identity_signature : Text
  pub wallet_signature : Text

-- What `_validated_address` reads, and the address type that follows.
pub record AddressFacts : Type 0 where
  pub network : Text
  pub integrated : Bool
  pub subaddress : Bool
  pub address_type : Text

unfoldable pub address_type_of : Bool → Bool → Text
address_type_of integrated subaddress =
    if integrated
    then codes "integrated"
    else if subaddress
    then codes "subaddress"
    else codes "standard"

abbrev pub facts_of : Fields → Result AddressFacts
facts_of response = do
  nettype ← rpc_string (get "nettype" response) false
  network ← validate_binding_network (Value.str nettype)
  integrated ← rpc_bool (get "integrated" response)
  subaddress ← rpc_bool (get "subaddress" response)
  require (not (integrated && subaddress)) rpc_protocol_error
  ok (record {
    network = network;
    integrated = integrated;
    subaddress = subaddress;
    address_type = address_type_of integrated subaddress;
  })

-- `_validated_address`, where `none` is an address that is not valid.
unfoldable pub validated_address : Fields → Result (Option AddressFacts)
validated_address response = do
  valid ← rpc_bool (get "valid" response)
  if not valid then ok none else do facts ← facts_of response; ok (some facts)

pub record SignatureFacts : Type 0 where
  pub good : Bool
  pub version : ℕ
  pub old : Bool
  pub signature_type : Text

-- `_wallet_verification_metadata`
unfoldable pub wallet_verification_metadata : Fields → Result SignatureFacts
wallet_verification_metadata response = do
  good ← rpc_bool (get "good" response)
  version ← rpc_int (get "version" response) 0 uint32_max
  old ← rpc_bool (get "old" response)
  signature_type ← rpc_string (get "signature_type" response) true
  ok (record { good = good; version = version; old = old; signature_type = signature_type })

-- `good and version == 2 and not old and signature_type == "spend"`
unfoldable pub is_spend : SignatureFacts → Bool
is_spend f = f.good && f.version == 2 && not f.old && f.signature_type == codes "spend"

-- What `verify` found out from the wallet.
pub record WalletFacts : Type 0 where
  pub address_valid : Bool
  pub address_supported : Option Bool
  pub address_type : Option Text
  pub network_valid : Option Bool
  pub wallet_signature_valid : Option Bool
  pub wallet_signature_version : Option ℕ
  pub wallet_signature_type : Option Text
  pub wallet_signature_old : Option Bool

pub record AddressBindingVerification : Type 0 where
  pub machine_id : Text
  pub network : Text
  pub address : Text
  pub wallet : WalletFacts
  pub identity_signature_valid : Bool
  pub identity_matches : Option Bool
  pub network_matches : Option Bool
  pub binding_valid : Bool
  pub authentication_valid : Option Bool
  pub valid : Bool

-- `bool(value)` and what `None` does not contradict.
abbrev pub is_true : Option Bool → Bool
is_true none = false
is_true (some b) = b

abbrev pub not_against : Option Bool → Bool
not_against none = true
not_against (some b) = b

abbrev pub expected_match : Option Text → Text → Option Bool
expected_match none network = none
expected_match (some n) network = some (network == n)

unfoldable pub is_binding_valid : WalletFacts → Bool → Bool
is_binding_valid w signature_valid =
    w.address_valid
    && is_true w.address_supported
    && is_true w.network_valid
    && signature_valid
    && is_true w.wallet_signature_valid

-- `_result`
unfoldable pub result_of :
    AddressBinding → IdentityVerification → Option Text → WalletFacts → AddressBindingVerification
result_of b i expected_network w =
    let matches = expected_match expected_network b.network in
    let sound = is_binding_valid w i.signature_valid in
    let expected = not_against i.identity_matches && not_against matches in
    record {
      machine_id = b.identity.machine_id;
      network = b.network;
      address = b.address;
      wallet = w;
      identity_signature_valid = i.signature_valid;
      identity_matches = i.identity_matches;
      network_matches = matches;
      binding_valid = sound;
      authentication_valid = elim i.identity_matches [
        | none ↦ none
        | some _ ↦ some (sound && expected)
      ];
      valid = sound && expected;
    }

module _ (p : Platform) (c : Crypto) where
  -- `create_binding_content`: the statement that both signatures are of.
  unfoldable pub create_binding_content : Text → Value → Value → Result Text
  create_binding_content machine_id network address = do
    machine_id_digest c (Value.str machine_id)
    n ← validate_binding_network network
    a ← validate_binding_address address
    s ← canonical_json p (
        Value.dict (
          field "address" (Value.str a) (
            field "machine_id" (Value.str machine_id) (
              field "network" (Value.str n)
                (field "type" (Value.str binding_statement_type) (field "version" (nat 1) end))))))
    ok (binding_domain ++ s)

  -- An identity signature, as its text.
  unfoldable pub checked_signature : Value → Result Text
  checked_signature (Value.str s) = do decode_signature c (Value.str s); ok s
  checked_signature v = do decode_signature c v; err input_error

  -- `AddressBinding(…)` with its `__post_init__`.
  unfoldable pub new_binding :
      PublicMachineIdentity → Value → Value → Value → Value → Result AddressBinding
  new_binding identity network address identity_signature wallet_signature = do
    n ← validate_binding_network network
    a ← validate_binding_address address
    i ← checked_signature identity_signature
    w ← validate_wallet_signature wallet_signature
    ok (record {
      identity = identity;
      network = n;
      address = a;
      identity_signature = i;
      wallet_signature = w;
    })

  -- The property `canonical_content`.
  abbrev pub canonical_content : AddressBinding → Result Text
  canonical_content b =
      create_binding_content b.identity.machine_id (Value.str b.network) (Value.str b.address)

  -- The method `verify_identity`.
  unfoldable pub verify_binding_identity :
      AddressBinding → Option Text → Result IdentityVerification
  verify_binding_identity b expected = do
    content ← canonical_content b
    verify_identity c b.identity content binding_context (Value.str b.identity_signature) expected

  unfoldable pub as_dict : AddressBinding → Result Fields
  as_dict b = do
    i ← public_identity_document c b.identity
    ok (
        field "address" (Value.str b.address) (
          field "identity" (Value.dict i) (
            field "identity_signature" (Value.str b.identity_signature) (
              field "network" (Value.str b.network) (
                field "type" (Value.str binding_type) (
                  field "version" (nat 1)
                    (field "wallet_signature" (Value.str b.wallet_signature) end)))))))

  unfoldable pub serialize_address_binding : AddressBinding → Result Text
  serialize_address_binding b = do
    f ← as_dict b
    s ← canonical_json p (Value.dict f)
    ok (s ++ 10 ∷ [])

  unfoldable pub parse_binding_fields : Fields → Result AddressBinding
  parse_binding_fields f = do
    require (has_exactly binding_fields f) input_error
    require (equals_text (get "type" f) binding_type) input_error
    require (is_version_one (get "version" f)) input_error
    identity ← parse_public_identity_document c (get "identity" f)
    new_binding identity (get "network" f) (get "address" f) (get "identity_signature" f)
        (get "wallet_signature" f)

  unfoldable pub parse_address_binding : Value → Result AddressBinding
  parse_address_binding (Value.dict f) = parse_binding_fields f
  parse_address_binding _ = err input_error

  -- `_parse_address_binding_json`; `loads` decodes UTF-8 and reads JSON, and raises `InputError` on a
  -- repeated field or a constant that is not JSON.
  unfoldable pub parse_address_binding_json : (Text → Decoded) → Text → Result AddressBinding
  parse_address_binding_json loads encoded =
      if refused_bytes encoded max_binding_artifact_bytes
      then err input_error
      else elim (loads encoded) [
        | decoded v ↦ parse_address_binding v
        | malformed ↦ err input_error
        | raised e ↦ err e
      ]
