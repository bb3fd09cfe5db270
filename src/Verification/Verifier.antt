-- ===== src/Verification/Verifier.antt =====
-- `WalletPaymentVerifier` of src/myt_machine/invoice_verification.py.
use myt_machine.Base.{
  ℕ, Bool, true, false, not, ◌&&◌, none, some, Text, ◌==◌, Text_eq, if◌then◌else◌,
}
use myt_machine.Base.Strings.{codes}
use myt_machine.Errors.{configuration_error, rpc_protocol_error, Result, ok, err, require}
use myt_machine.Json.{Value, Fields, get, equals_text}
use myt_machine.Proofs.{PaymentProof}
use myt_machine.Payment.{Platform, PaymentRequest, post_init}
use myt_machine.Observation.{PaymentObservation}
use myt_machine.Settlement.{rpc_bool, validation_params}
use myt_machine.Settlement.Payments.{verify_payment}
use myt_machine.Verification.{negative, artifact_of, conclude, prepare}
use myt_machine.Wallet.{Rpc, pure, lift, ◌>>=◌, ◌>>◌, call}

-- What the wallet says of the address of a request.
unfoldable pub check_response : Text → Fields → Result Bool
check_response network response = elim (rpc_bool (get "valid" response)) [
  | err e ↦ err e
  | ok false ↦ ok false
  | ok true ↦
      if not (equals_text (get "nettype" response) network)
      then err configuration_error
      else elim (rpc_bool (get "integrated" response)) [
        | err e ↦ err e
        | ok integrated ↦ elim (rpc_bool (get "subaddress" response)) [
          | err e ↦ err e
          | ok subaddress ↦
              if integrated && subaddress then err rpc_protocol_error else ok (not integrated)
        ]
      ]
]

module _ (p : Platform) (network : Text) where
  -- `validate_request`, where `network` is that of the verifier.
  unfoldable pub validate_request : PaymentRequest → Rpc Bool
  validate_request request = do
    lift (post_init p request)
    lift (require (request.network == network) configuration_error)
    response ← call "validate_address" (validation_params request.recipient_address) false
    lift (check_response network response)

  -- The part of `verify` that asks the wallet.
  unfoldable pub ask_wallet : PaymentRequest → PaymentProof → Text → ℕ → Rpc PaymentObservation
  ask_wallet request proof message required = do
    usable ← validate_request request
    if not usable then pure (negative (codes "invalid_recipient") proof.txid message) else do
      v ← verify_payment (artifact_of proof)
      lift (conclude request required proof.txid message v)

  unfoldable pub verify : PaymentRequest → Value → ℕ → Rpc PaymentObservation
  verify request artifact required = do
    (proof, message, failure) ← lift (prepare p request artifact required)
    elim failure [ some o ↦ pure o | none ↦ ask_wallet request proof message required ]
