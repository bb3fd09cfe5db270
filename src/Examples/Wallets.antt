-- ===== src/Examples/Wallets.antt =====
-- The theorems on the wallet, at concrete inputs.
use myt_machine.Base.{
  ℕ, ◌≡◌, refl, true, false, Bool, Option, none, some, List, [], ◌∷◌, ◌++◌, Text, replicate,
}
use myt_machine.Base.Strings.{codes}
use myt_machine.Errors.{ok}
use myt_machine.Json.{Value, Items, nil, cons, Fields, end, field}
use myt_machine.Validation.{normalize_txid}
use myt_machine.Proofs.{PaymentProof, proof_type, parse_proof_artifact}
use myt_machine.Payment.{Platform, PaymentRequest, nat, proof_message}
use myt_machine.Observation.{PaymentObservation}
use myt_machine.Wallet.{Session, Call}
use myt_machine.Wallet.Calls.{Only, is_check}
use myt_machine.Wallet.Sends.{Sends}
use myt_machine.Settlement.{MachineSettlement, address}
use myt_machine.Settlement.Payments.{pay, verify_payment}
use myt_machine.Settlement.Transfers.{Found, Transfer, confirmed}
use myt_machine.Settlement.Transfers.Confirmed.{IsConfirmed}
use myt_machine.Settlement.Status.{payment_status, payment_status-IsConfirmed}
use myt_machine.Settlement.Pay.{IsTransfer, pay-Sends}
use myt_machine.Verification.{artifact_of}
use myt_machine.Verification.Verifier.{verify}
use myt_machine.Verification.Again.{parse_proof_artifact_again}
use myt_machine.Verification.Reads.{verify-Only}
use myt_machine.Verification.Confirmed.{IsConfirmed as IsPaymentConfirmed, verify-IsConfirmed}
use myt_machine.Examples.Sample.{platform, sample, recipient, hex}

abbrev pub proof : PaymentProof
proof = record {
  txid = hex;
  address = recipient;
  message = codes "myt-machine/invoice/v1:" ++ hex;
  proof = codes "OutProofV2" ++ replicate 132 b'x';
}

parsed : parse_proof_artifact (artifact_of proof) ≡ ok proof
unfolding parse_proof_artifact artifact_of myt_machine.Json.equals_text myt_machine.Json.get
    myt_machine.Json.lookup myt_machine.Base.text_eq myt_machine.Proofs.is_proof_version
    myt_machine.Json.equals_one myt_machine.Json.contains myt_machine.Proofs.create_proof_artifact
    normalize_txid myt_machine.Validation.is_txid myt_machine.Validation.validate_address_text
    myt_machine.Base.Strings.is_space myt_machine.Validation.validate_message
    myt_machine.Validation.within_bytes myt_machine.Base.Strings.utf8
    myt_machine.Base.Strings.is_digit myt_machine.Base.Strings.is_upper
    myt_machine.Base.Strings.to_lower myt_machine.Base.Strings.utf8_char
    myt_machine.Validation.is_hex myt_machine.Validation.validate_signature
parsed = refl

parse_proof_artifact_again_test : parse_proof_artifact (artifact_of proof) ≡ ok proof
parse_proof_artifact_again_test = parse_proof_artifact_again (artifact_of proof) proof parsed

abbrev wallet : MachineSettlement
wallet = record { account_index = 0; address_index = 0 }

pay-Sends_example :
    Sends
      (IsTransfer wallet (Value.str recipient) (Value.str (codes "1.5")) (nat 1))
      (pay wallet (Value.str recipient) (Value.str (codes "1.5")) (nat 1))
pay-Sends_example = pay-Sends wallet (Value.str recipient) (Value.str (codes "1.5")) (nat 1)

verify-Only_test : Only is_check (verify platform (codes "testnet") sample (artifact_of proof) 10)
verify-Only_test = verify-Only platform (codes "testnet") sample (artifact_of proof) 10

abbrev entry : Fields
entry =
    field "type" (Value.str (codes "in")) (
      field "confirmations" (nat 3)
        (field "amount" (nat 5) (field "locked" (Value.bool false) end)))

abbrev one_entry : Session
one_entry = record { replies = ok (field "transfer" (Value.dict entry) end) ∷ []; calls = [] }

abbrev after_status : Session
after_status = record {
  replies = [];
  calls =
      record {
        method = "get_transfer_by_txid";
        params = field "txid" (Value.str hex) (field "account_index" (nat 0) end);
        mutation = false;
      }
      ∷ [];
}

abbrev found_sample : Found
found_sample = record {
  txid = hex;
  state = confirmed;
  confirmed = true;
  confirmations = 3;
  in_pool = some false;
  failed = false;
  amount = 5;
  transfers =
      record {
        type = codes "in";
        amount = 5;
        fee = 0;
        height = 0;
        confirmations = 3;
        confirmed = true;
        in_pool = some false;
        failed = false;
        locked = false;
      }
      ∷ [];
}

status_found :
    payment_status wallet (Value.str hex) one_entry ≡ (ok (some found_sample), after_status)
unfolding payment_status myt_machine.Wallet.◌>>=◌ myt_machine.Wallet.lift normalize_txid
    myt_machine.Validation.is_txid myt_machine.Settlement.Status.status_call
    myt_machine.Settlement.Transfers.status_of myt_machine.Wallet.call
    myt_machine.Settlement.Transfers.found myt_machine.Base.Strings.to_lower myt_machine.Json.get
    myt_machine.Json.lookup myt_machine.Settlement.Transfers.normalize_transfers
    myt_machine.Settlement.Transfers.normalize_transfer myt_machine.Settlement.rpc_string
    myt_machine.Base.text_eq myt_machine.Settlement.rpc_int myt_machine.Json.get_or
    myt_machine.Settlement.amount_of myt_machine.Amounts.amount_object myt_machine.Amounts.decimal
    myt_machine.Amounts.digits myt_machine.Amounts.format_myt_amount myt_machine.Amounts.zfill9
    myt_machine.Base.Strings.is_digit myt_machine.Base.Strings.is_upper
    myt_machine.Settlement.Transfers.entries_of myt_machine.Settlement.Transfers.has_entries
    myt_machine.Settlement.Transfers.has_type myt_machine.Settlement.Transfers.in_pool_of
    myt_machine.Settlement.Transfers.is_settled_type myt_machine.Settlement.Transfers.is_wrong_txid
    myt_machine.Settlement.Transfers.min_confirmations myt_machine.Settlement.Transfers.safe_sum
    myt_machine.Settlement.Transfers.state_of myt_machine.Settlement.Transfers.sum_amounts
    myt_machine.Settlement.rpc_bool myt_machine.Validation.is_hex myt_machine.Wallet.continue
status_found = refl

payment_status-IsConfirmed_example :
    IsConfirmed found_sample × (normalize_txid (Value.str hex) ≡ ok hex)
payment_status-IsConfirmed_example =
    payment_status-IsConfirmed wallet (Value.str hex) one_entry after_status found_sample
      status_found refl

abbrev pub address_reply : Fields
address_reply = field "valid" (Value.bool true) (
    field "nettype" (Value.str (codes "testnet"))
      (field "integrated" (Value.bool false) (field "subaddress" (Value.bool true) end)))

abbrev pub proof_reply : Fields
proof_reply = field "good" (Value.bool true) (
    field "received" (nat 5)
      (field "confirmations" (nat 12) (field "in_pool" (Value.bool false) end)))

abbrev pub good_wallet : Session
good_wallet = record {
  replies = ok address_reply ∷ ok address_reply ∷ ok proof_reply ∷ [];
  calls = [];
}

abbrev address_call : Call
address_call = record {
  method = "validate_address";
  params =
      field "address" (Value.str recipient)
        (field "any_net_type" (Value.bool false) (field "allow_openalias" (Value.bool false) end));
  mutation = false;
}

abbrev proof_call : Call
proof_call = record {
  method = "check_tx_proof";
  params = field "txid" (Value.str hex) (
      field "address" (Value.str recipient) (
        field "message" (Value.str proof.message) (field "signature" (Value.str proof.proof) end)));
  mutation = false;
}

abbrev after_verify : Session
after_verify = record { replies = []; calls = address_call ∷ address_call ∷ proof_call ∷ [] }

abbrev observation : PaymentObservation
observation = record {
  eligible = true;
  reason = codes "confirmed";
  txid = hex;
  request_message = codes "myt-machine/invoice/v1:" ++ hex;
  received_atomic = 5;
  confirmations = 12;
}

verified :
    verify platform (codes "testnet") sample (artifact_of proof) 10 good_wallet
    ≡ (ok observation, after_verify)
unfolding verify myt_machine.Wallet.◌>>=◌ myt_machine.Wallet.lift myt_machine.Verification.prepare
    myt_machine.Payment.bounded_int artifact_of myt_machine.Json.has_exactly myt_machine.Json.lookup
    myt_machine.Payment.is_version_one myt_machine.Json.get myt_machine.Verification.check_out_proof
    myt_machine.Verification.is_out_proof myt_machine.Base.text_eq myt_machine.Payment.is_base58
    parse_proof_artifact myt_machine.Json.equals_text myt_machine.Proofs.is_proof_version
    myt_machine.Amounts.amount_object myt_machine.Amounts.decimal myt_machine.Amounts.digits
    myt_machine.Amounts.format_myt_amount myt_machine.Amounts.zfill9
    myt_machine.Base.Strings.is_digit myt_machine.Base.Strings.is_lower
    myt_machine.Base.Strings.is_space myt_machine.Base.Strings.is_upper
    myt_machine.Base.Strings.to_lower myt_machine.Base.Strings.utf8
    myt_machine.Base.Strings.utf8_char myt_machine.Json.contains myt_machine.Json.equals_one
    myt_machine.Payment.as_dict myt_machine.Payment.canonical_json
    myt_machine.Payment.is_bounded_text myt_machine.Payment.is_identifier
    myt_machine.Payment.is_network myt_machine.Payment.is_recipient myt_machine.Payment.new
    myt_machine.Payment.optional_text myt_machine.Payment.post_init proof_message
    myt_machine.Payment.recipient_length myt_machine.Payment.serialize_payment_request
    myt_machine.Payment.validate_identifier myt_machine.Payment.validate_network
    myt_machine.Payment.validate_recipient myt_machine.Proofs.create_proof_artifact verify_payment
    myt_machine.Settlement.Payments.verify_proof myt_machine.Settlement.amount_of
    myt_machine.Settlement.rpc_bool myt_machine.Settlement.rpc_int myt_machine.Settlement.rpc_string
    myt_machine.Settlement.validate_wallet_address myt_machine.Validation.is_hex
    myt_machine.Validation.is_txid normalize_txid myt_machine.Validation.validate_address_text
    myt_machine.Validation.validate_message myt_machine.Validation.validate_signature
    myt_machine.Validation.within_bytes myt_machine.Verification.Verifier.ask_wallet
    myt_machine.Verification.Verifier.check_response
    myt_machine.Verification.Verifier.validate_request myt_machine.Verification.conclude
    myt_machine.Verification.local_failure myt_machine.Wallet.call myt_machine.Wallet.continue
    myt_machine.Wallet.pure
verified = refl

verify-IsConfirmed_example :
    IsPaymentConfirmed sample 10 observation good_wallet after_verify
    × (proof_message platform sample ≡ ok (codes "myt-machine/invoice/v1:" ++ hex))
verify-IsConfirmed_example =
    verify-IsConfirmed platform (codes "testnet") sample (artifact_of proof) 10 observation
      good_wallet after_verify verified refl
