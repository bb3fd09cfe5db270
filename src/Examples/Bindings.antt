-- ===== src/Examples/Bindings.antt =====
-- The theorems on address bindings, at concrete inputs.
use myt_machine.Base.{ℕ, ◌≡◌, refl, true, false, none, some, [], ◌∷◌, ◌++◌, Text, replicate}
use myt_machine.Base.Strings.{codes}
use myt_machine.Errors.{ok}
use myt_machine.Json.{Value, Fields, nil, cons, end, field}
use myt_machine.Payment.{nat}
use myt_machine.Wallet.{Session}
use myt_machine.Settlement.{MachineSettlement}
use myt_machine.Identity.{MachineIdentity}
use myt_machine.Binding.{AddressBinding, AddressBindingVerification}
use myt_machine.Binding.Service.{create, verify}
use myt_machine.Binding.Bound.{IsBound}
use myt_machine.Binding.Verified.{verify-IsBound}
use myt_machine.Binding.Created.{create-IsBound}
use myt_machine.Examples.Sample.{platform, recipient}
use myt_machine.Examples.Identities.{toy_crypto, issuer_id, issuer_identity, zeros}

abbrev spend_signature : Text
spend_signature = codes "SigV2" ++ replicate 88 b'1'

abbrev pub bound : AddressBinding
bound = record {
  identity = issuer_identity;
  network = codes "testnet";
  address = recipient;
  identity_signature = replicate 86 b'A';
  wallet_signature = spend_signature;
}

abbrev pub address_reply : Fields
address_reply = field "valid" (Value.bool true) (
    field "nettype" (Value.str (codes "testnet"))
      (field "integrated" (Value.bool false) (field "subaddress" (Value.bool false) end)))

abbrev pub spend_reply : Fields
spend_reply = field "good" (Value.bool true) (
    field "version" (nat 2)
      (field "old" (Value.bool false) (field "signature_type" (Value.str (codes "spend")) end)))

abbrev verifier : Session
verifier = record {
  replies = ok address_reply ∷ ok address_reply ∷ ok spend_reply ∷ [];
  calls = [];
}

abbrev bound_result : AddressBindingVerification
bound_result = record {
  machine_id = issuer_id;
  network = codes "testnet";
  address = recipient;
  wallet = record {
    address_valid = true;
    address_supported = some true;
    address_type = some (codes "standard");
    network_valid = some true;
    wallet_signature_valid = some true;
    wallet_signature_version = some 2;
    wallet_signature_type = some (codes "spend");
    wallet_signature_old = some false;
  };
  identity_signature_valid = true;
  identity_matches = some true;
  network_matches = some true;
  binding_valid = true;
  authentication_valid = some true;
  valid = true;
}

verify-IsBound_example :
    IsBound platform toy_crypto bound
      (some issuer_id)
      (some (codes "testnet"))
      verifier
      (verify platform toy_crypto bound (some issuer_id) (some (codes "testnet")) verifier).1
unfolding verify myt_machine.Wallet.◌>>=◌ myt_machine.Wallet.lift
    myt_machine.Binding.validate_binding_network myt_machine.Base.text_eq
    myt_machine.Binding.verify_binding_identity myt_machine.Binding.create_binding_content
    myt_machine.Identity.machine_id_digest myt_machine.Identity.digest_of
    myt_machine.Identity.is_machine_id myt_machine.Identity.is_base32
    myt_machine.Base.Strings.is_lower myt_machine.Base.Strings.to_upper
    myt_machine.Identity.encode_digest myt_machine.Base.Strings.rstrip
    myt_machine.Base.Strings.to_lower myt_machine.Binding.validate_binding_address
    myt_machine.Base.Strings.is_digit myt_machine.Base.Strings.is_upper
    myt_machine.Binding.Service.check_current myt_machine.Binding.Service.validate_address
    myt_machine.Binding.Service.verify_address myt_machine.Binding.Service.verify_signature
    myt_machine.Binding.Service.verify_spend myt_machine.Binding.address_type_of
    myt_machine.Binding.is_base58 myt_machine.Binding.is_binding_valid myt_machine.Binding.is_spend
    myt_machine.Binding.result_of myt_machine.Binding.validated_address
    myt_machine.Binding.wallet_verification_metadata myt_machine.Identity.big_endian
    myt_machine.Identity.create_signature_frame myt_machine.Identity.decode_base64url
    myt_machine.Identity.decode_signature myt_machine.Identity.decode_text
    myt_machine.Identity.encode_base64url myt_machine.Identity.is_base64url
    myt_machine.Identity.is_context_char myt_machine.Identity.validate_identity_context
    myt_machine.Identity.validate_identity_message myt_machine.Identity.verify_identity
    myt_machine.Json.get myt_machine.Json.lookup myt_machine.Payment.canonical_json
    myt_machine.Settlement.rpc_bool myt_machine.Settlement.rpc_int myt_machine.Settlement.rpc_string
    myt_machine.Wallet.call myt_machine.Wallet.continue myt_machine.Wallet.pure
verify-IsBound_example =
    verify-IsBound platform toy_crypto bound (some issuer_id) (some (codes "testnet")) bound_result
      verifier
      (verify platform toy_crypto bound (some issuer_id) (some (codes "testnet")) verifier).1 refl
      refl

abbrev owner : Session
owner = record {
  replies =
      ok (
        field "addresses"
          (Value.list (
            cons
              (Value.dict (
                field "address_index" (nat 0)
                  (field "address" (Value.str recipient) (field "used" (Value.bool false) end))))
              nil))
          end)
      ∷ ok address_reply
      ∷ ok (field "signature" (Value.str spend_signature) end)
      ∷ ok spend_reply
      ∷ [];
  calls = [];
}

abbrev primary : MachineSettlement
primary = record { account_index = 0; address_index = 0 }

abbrev signer : MachineIdentity
signer = record { private_key = zeros 32; public_identity = issuer_identity }

create-IsBound_example :
    (issuer_identity ≡ issuer_identity)
    × IsBound platform toy_crypto bound none none owner
        (create platform toy_crypto primary signer (Value.bool true) owner).1
unfolding create myt_machine.Wallet.◌>>=◌ myt_machine.Wallet.lift myt_machine.Rpc.check_flag
    myt_machine.Settlement.address myt_machine.Wallet.call myt_machine.Json.get
    myt_machine.Json.lookup myt_machine.Settlement.select_address myt_machine.Settlement.rpc_int
    myt_machine.Settlement.rpc_string myt_machine.Json.get_or myt_machine.Settlement.rpc_bool
    myt_machine.Wallet.pure myt_machine.Binding.validate_binding_address
    myt_machine.Binding.is_base58 myt_machine.Binding.Service.validate_address
    myt_machine.Base.text_eq myt_machine.Base.Strings.is_digit myt_machine.Base.Strings.is_lower
    myt_machine.Base.Strings.is_upper myt_machine.Base.Strings.rstrip
    myt_machine.Base.Strings.to_lower myt_machine.Base.Strings.to_upper
    myt_machine.Binding.Service.check_own_address myt_machine.Binding.Service.verify_spend
    myt_machine.Binding.address_type_of myt_machine.Binding.checked_signature
    myt_machine.Binding.create_binding_content myt_machine.Binding.is_spend
    myt_machine.Binding.new_binding myt_machine.Binding.validate_binding_network
    myt_machine.Binding.validate_wallet_signature myt_machine.Binding.validated_address
    myt_machine.Binding.verify_binding_identity myt_machine.Binding.wallet_verification_metadata
    myt_machine.Identity.big_endian myt_machine.Identity.create_signature_frame
    myt_machine.Identity.decode_base64url myt_machine.Identity.decode_signature
    myt_machine.Identity.decode_text myt_machine.Identity.digest_of
    myt_machine.Identity.encode_base64url myt_machine.Identity.encode_digest
    myt_machine.Identity.encode_signature myt_machine.Identity.is_base32
    myt_machine.Identity.is_base64url myt_machine.Identity.is_context_char
    myt_machine.Identity.is_machine_id myt_machine.Identity.machine_id_digest
    myt_machine.Identity.sign myt_machine.Identity.validate_identity_context
    myt_machine.Identity.validate_identity_message myt_machine.Identity.verify_identity
    myt_machine.Payment.canonical_json myt_machine.Wallet.continue
create-IsBound_example =
    create-IsBound platform toy_crypto primary signer (Value.bool true) bound owner
      (create platform toy_crypto primary signer (Value.bool true) owner).1 refl
