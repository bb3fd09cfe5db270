-- ===== src/Verification/Reads.antt =====
-- Which calls a verification makes.
use myt_machine.Base.{ℕ, refl, true, false, Option, none, some, Text}
use myt_machine.Json.{Value}
use myt_machine.Proofs.{PaymentProof}
use myt_machine.Payment.{Platform, PaymentRequest}
use myt_machine.Observation.{PaymentObservation}
use myt_machine.Wallet.{pure}
use myt_machine.Wallet.Calls.{Only, is_check, Only-pure, Only-bind}
use myt_machine.Settlement.Checks.{checks-lift, checks-call, verify_payment_checks}
use myt_machine.Verification.Verifier.{validate_request, ask_wallet, verify}

module _ (p : Platform) (network : Text) where
  pub validate_request_checks :
      (request : PaymentRequest) → Only is_check (validate_request p network request)
  unfolding validate_request
  validate_request_checks request = Only-bind is_check _ _ (checks-lift _) λ a.
      Only-bind is_check _ _ (checks-lift _)
        λ b. Only-bind is_check _ _ (checks-call _ _ refl) λ response. checks-lift _

  ask_wallet_checks :
      (request : PaymentRequest) (proof : PaymentProof) (message : Text) (required : ℕ)
      → Only is_check (ask_wallet p network request proof message required)
  unfolding ask_wallet
  ask_wallet_checks request proof message required =
      Only-bind is_check _ _ (validate_request_checks request) elim [
        | false ↦ Only-pure is_check _
        | true ↦ Only-bind is_check _ _ (verify_payment_checks _) λ v. checks-lift _
      ]

  rest_checks :
      (request : PaymentRequest) (proof : PaymentProof) (message : Text) (required : ℕ)
      (failure : Option PaymentObservation)
      → Only is_check (elim failure [
        | some o ↦ pure o
        | none ↦ ask_wallet p network request proof message required
      ])
  rest_checks request proof message required (some o) = Only-pure is_check o
  rest_checks request proof message required none = ask_wallet_checks request proof message required

  -- Whatever it is given and whatever the wallet answers, `verify` makes only the calls
  -- `validate_address` and `check_tx_proof`, and neither is marked as a mutation.
  pub verify-Only :
      (request : PaymentRequest) (artifact : Value) (required : ℕ)
      → Only is_check (verify p network request artifact required)
  unfolding verify
  verify-Only request artifact required =
      Only-bind is_check _ _ (checks-lift _)
        λ (proof, message, failure). rest_checks request proof message required failure
