-- ===== src/Binding/Service.antt =====
-- `AddressBindingService` of src/myt_machine/binding.py.
use myt_machine.Base.{
  Bool, true, false, not, ◌&&◌, ◌||◌, Option, none, some, Text, ◌==◌, ℕ_eq, Text_eq, if◌then◌else◌,
}
use myt_machine.Base.Strings.{codes}
use myt_machine.Errors.{configuration_error, rpc_protocol_error, Result, ok, err, require}
use myt_machine.Json.{Value, Fields, end, field, get}
use myt_machine.Payment.{Platform}
use myt_machine.Rpc.{check_flag}
use myt_machine.Wallet.{Rpc, pure, lift, ◌>>=◌, ◌>>◌, call}
use myt_machine.Settlement.{MachineSettlement, address, rpc_string, nat}
use myt_machine.Identity.{Crypto, MachineIdentity, IdentityVerification, sign}
use myt_machine.Binding.{
  AddressBinding, AddressFacts, SignatureFacts, WalletFacts, AddressBindingVerification,
  binding_context, validate_binding_network, validate_binding_address, validate_wallet_signature,
  validated_address, wallet_verification_metadata, is_spend, result_of, create_binding_content,
  canonical_content, new_binding, verify_binding_identity,
}

abbrev pub validate_params : Text → Bool → Fields
validate_params a any_net_type = field "address" (Value.str a) (
    field "any_net_type" (Value.bool any_net_type) (field "allow_openalias" (Value.bool false) end))

-- `_validate_address`
unfoldable pub validate_address : Text → Bool → Rpc (Option AddressFacts)
validate_address a any_net_type = do
  response ← call "validate_address" (validate_params a any_net_type) false
  lift (validated_address response)

abbrev pub verify_params : Text → Text → Text → Fields
verify_params content a signature =
    field "data" (Value.str content)
      (field "address" (Value.str a) (field "signature" (Value.str signature) end))

unfoldable pub verify_spend : Text → Text → Text → Rpc SignatureFacts
verify_spend content a signature = do
  response ← call "verify" (verify_params content a signature) false
  lift (wallet_verification_metadata response)

abbrev pub present : Option AddressFacts → Result AddressFacts
present none = err rpc_protocol_error
present (some facts) = ok facts

abbrev pub same_bool : Bool → Bool → Bool
same_bool true b = b
same_bool false b = not b

-- The checks of `create` on the wallet's own address.
unfoldable pub check_own_address : MachineSettlement → Bool → AddressFacts → Result (Unit {0})
check_own_address m allow_standard facts =
    if facts.integrated
    then err configuration_error
    else if not (same_bool facts.subaddress (not (m.account_index == 0 && m.address_index == 0)))
    then err rpc_protocol_error
    else require (facts.subaddress || allow_standard) configuration_error

abbrev pub sign_params : MachineSettlement → Text → Fields
sign_params m content = field "data" (Value.str content) (
    field "account_index" (nat m.account_index) (
      field "address_index" (nat m.address_index)
        (field "signature_type" (Value.str (codes "spend")) end)))

-- The wallet facts of the results of `verify`.
abbrev pub invalid_address : WalletFacts
invalid_address = record {
  address_valid = false;
  address_supported = none;
  address_type = none;
  network_valid = none;
  wallet_signature_valid = none;
  wallet_signature_version = none;
  wallet_signature_type = none;
  wallet_signature_old = none;
}

abbrev pub unsigned_address : Bool → Text → Bool → WalletFacts
unsigned_address supported address_type network_valid = record {
  address_valid = true;
  address_supported = some supported;
  address_type = some address_type;
  network_valid = some network_valid;
  wallet_signature_valid = none;
  wallet_signature_version = none;
  wallet_signature_type = none;
  wallet_signature_old = none;
}

abbrev pub signed_address : AddressFacts → SignatureFacts → WalletFacts
signed_address facts s = record {
  address_valid = true;
  address_supported = some true;
  address_type = some facts.address_type;
  network_valid = some true;
  wallet_signature_valid = some (is_spend s);
  wallet_signature_version = some s.version;
  wallet_signature_type = some s.signature_type;
  wallet_signature_old = some s.old;
}

abbrev pub checked_network : Option Text → Result (Option Text)
checked_network none = ok none
checked_network (some n) = elim (validate_binding_network (Value.str n)) [
  | ok s ↦ ok (some s)
  | err e ↦ err e
]

-- The second answer on the address: that of the wallet's own network.
unfoldable pub check_current : AddressFacts → Option AddressFacts → Result (Unit {0})
check_current facts none = err configuration_error
check_current facts (some current) =
    require (current.network == facts.network && current.address_type == facts.address_type)
      rpc_protocol_error

module _ (p : Platform) (c : Crypto) where
  unfoldable pub create : MachineSettlement → MachineIdentity → Value → Rpc AddressBinding
  create m identity allow_standard_address = do
    allow ← lift (check_flag allow_standard_address)
    selected ← address m
    a ← lift (validate_binding_address (Value.str selected.address))
    info ← validate_address a false
    facts ← lift (present info)
    lift (check_own_address m allow facts)
    content ← lift (
        create_binding_content p c identity.public_identity.machine_id (Value.str facts.network)
          (Value.str a))
    identity_signature ← lift (sign c identity content binding_context)
    response ← call "sign" (sign_params m content) true
    signed ← lift (rpc_string (get "signature" response) false)
    wallet_signature ← lift (validate_wallet_signature (Value.str signed))
    s ← verify_spend content a wallet_signature
    lift (require (is_spend s) rpc_protocol_error)
    b ← lift (
        new_binding p c identity.public_identity (Value.str facts.network) (Value.str a)
          (Value.str identity_signature.signature) (Value.str wallet_signature))
    r ← lift (verify_binding_identity p c b none)
    lift (require r.signature_valid rpc_protocol_error)
    pure b

  -- The part of `verify` that asks for the wallet signature.
  unfoldable pub verify_signature :
      AddressBinding
      → IdentityVerification
      → Option Text
      → AddressFacts
      → Rpc AddressBindingVerification
  verify_signature b i expected_network facts = do
    current ← validate_address b.address false
    lift (check_current facts current)
    content ← lift (canonical_content p c b)
    s ← verify_spend content b.address b.wallet_signature
    pure (result_of b i expected_network (signed_address facts s))

  unfoldable pub verify_address :
      AddressBinding
      → IdentityVerification
      → Option Text
      → AddressFacts
      → Rpc AddressBindingVerification
  verify_address b i expected_network facts =
      let same = facts.network == b.network in
      if facts.integrated
      then pure (result_of b i expected_network (unsigned_address false (codes "integrated") same))
      else if not same
      then pure (result_of b i expected_network (unsigned_address true facts.address_type false))
      else verify_signature b i expected_network facts

  unfoldable pub verify :
      AddressBinding → Option Text → Option Text → Rpc AddressBindingVerification
  verify b expected_machine_id expected_network = do
    n ← lift (checked_network expected_network)
    i ← lift (verify_binding_identity p c b expected_machine_id)
    info ← validate_address b.address true
    elim info [
      | none ↦ pure (result_of b i n invalid_address)
      | some facts ↦ verify_address b i n facts
    ]
