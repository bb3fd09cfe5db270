-- ===== src/Verification.antt =====
-- src/myt_machine/invoice_verification.py: the read-only verification of an invoice payment through
-- the wallet.
pub mod Verifier
pub mod Again
pub mod Eligible
pub mod Confirmed
pub mod Reads
use myt_machine.Base.{
  ℕ, ◌-◌, ◌%◌, Bool, true, false, not, ◌&&◌, ◌||◌, Option, none, some, List, [], ◌∷◌, ◌++◌, String,
  Text, ◌==◌, ℕ_eq, Text_eq, ltb, leb, if◌then◌else◌, length, all, take, drop,
}
use myt_machine.Base.Int.{pos}
use myt_machine.Base.Strings.{codes}
use myt_machine.Errors.{
  input_error, configuration_error, rpc_protocol_error, Result, ok, err, ◌>>=◌, ◌>>◌, require,
}
use myt_machine.Json.{Value, Fields, end, field, get, has_exactly, equals_text}
use myt_machine.Proofs.{PaymentProof, proof_type, parse_proof_artifact}
use myt_machine.Payment.{
  Platform, PaymentRequest, nat, bounded_int, is_base58, is_version_one, validate_network,
  post_init, proof_message,
}
use myt_machine.Invoice.{max_confirmations}
use myt_machine.Observation.{PaymentObservation}
use myt_machine.Settlement.{rpc_bool, rpc_int, validation_params}
use myt_machine.Settlement.Payments.{PaymentVerification, verify_payment}

abbrev pub max_invoice_proof_bytes : ℕ
max_invoice_proof_bytes = 65536

abbrev pub proof_fields : List String
proof_fields = "type" ∷ "version" ∷ "txid" ∷ "address" ∷ "message" ∷ "proof" ∷ []

abbrev pub proof_prefix : Text
proof_prefix = codes "OutProofV2"

-- `_OUT_PROOF.fullmatch` and the two tests of the length.
unfoldable pub is_out_proof : Text → Bool
is_out_proof s =
    leb (length s) max_invoice_proof_bytes
    && (take 10 s == proof_prefix && leb 1 (length (drop 10 s)) && all is_base58 (drop 10 s))
    && (length s - 10) % 132 == 0

unfoldable pub check_out_proof : Value → Result (Unit {0})
check_out_proof (Value.str s) = require (is_out_proof s) input_error
check_out_proof _ = err input_error

abbrev pub negative : Text → Text → Text → PaymentObservation
negative reason txid message = record {
  eligible = false;
  reason = reason;
  txid = txid;
  request_message = message;
  received_atomic = 0;
  confirmations = 0;
}

-- The artifact that `parse_proof_artifact` returns.
unfoldable pub artifact_of : PaymentProof → Value
artifact_of proof = Value.dict (
    field "type" (Value.str proof_type) (
      field "version" (nat 1) (
        field "txid" (Value.str proof.txid) (
          field "address" (Value.str proof.address) (
            field "message" (Value.str proof.message)
              (field "proof" (Value.str proof.proof) end))))))

unfoldable pub local_failure : PaymentRequest → PaymentProof → Text → Option PaymentObservation
local_failure request proof message =
    if not (proof.address == request.recipient_address)
    then some (negative (codes "wrong_recipient") proof.txid message)
    else if not (proof.message == message)
    then some (negative (codes "wrong_request") proof.txid message)
    else none

abbrev pub exact_fields : Value → Result Fields
exact_fields (Value.dict f) = do require (has_exactly proof_fields f) input_error; ok f
exact_fields _ = err input_error

-- What `verify` concludes from the answer about the proof.
unfoldable pub conclude :
    PaymentRequest → ℕ → Text → Text → PaymentVerification → Result PaymentObservation
conclude request required txid message v =
    if not v.valid then ok (negative (codes "invalid_proof") txid message) else do
      confirmations ← rpc_int (nat v.confirmations) 0 max_confirmations
      if not (v.received == request.amount_atomic)
          then ok (negative (codes "wrong_amount") txid message)
          else if v.in_pool || ltb confirmations required
          then ok (record {
            eligible = false;
            reason = codes "awaiting_confirmations";
            txid = txid;
            request_message = message;
            received_atomic = v.received;
            confirmations = confirmations;
          })
          else ok (record {
            eligible = true;
            reason = codes "confirmed";
            txid = txid;
            request_message = message;
            received_atomic = v.received;
            confirmations = confirmations;
          })

module _ (p : Platform) where
  -- `_prepare_invoice_proof`
  unfoldable pub prepare :
      PaymentRequest → Value → ℕ → Result (PaymentProof × Text × Option PaymentObservation)
  prepare request artifact required = do
    bounded_int (nat required) 1 max_confirmations
    f ← exact_fields artifact
    require (is_version_one (get "version" f)) input_error
    check_out_proof (get "proof" f)
    proof ← parse_proof_artifact artifact
    message ← proof_message p request
    ok (proof, message, local_failure request proof message)
