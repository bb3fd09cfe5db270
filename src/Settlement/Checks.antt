-- ===== src/Settlement/Checks.antt =====
-- The operations of the settlement that only check an address or a proof.
use myt_machine.Base.{◌≡◌, refl, true, false, ◌||◌, ◌==◌, String_eq, String}
use myt_machine.Errors.{Result}
use myt_machine.Json.{Value, Fields}
use myt_machine.Proofs.{PaymentProof}
use myt_machine.Wallet.{lift, call}
use myt_machine.Wallet.Calls.{Only, is_check, Only-lift, Only-pure, Only-call, Only-bind}
use myt_machine.Settlement.{validate_wallet_address}
use myt_machine.Settlement.Payments.{verify_proof, verify_payment}

abbrev pub checks-lift : {A : Type 0} (r : Result A) → Only is_check (lift r)
checks-lift r = Only-lift is_check r

abbrev pub checks-call :
    (method : String) (params : Fields)
    → (method == "validate_address" || method == "check_tx_proof") ≡ true
    → Only is_check (call method params false)
unfolding is_check
checks-call method params h = Only-call is_check method params false h

pub validate_wallet_address_checks : (value : Value) → Only is_check (validate_wallet_address value)
unfolding validate_wallet_address
validate_wallet_address_checks value = Only-bind is_check _ _ (checks-lift _) λ x0.
    Only-bind is_check _ _ (checks-call _ _ refl) λ x1. Only-bind is_check _ _ (checks-lift _) λ x2.
      Only-bind is_check _ _ (checks-lift _) λ x3. Only-bind is_check _ _ (checks-lift _) λ x4.
        Only-bind is_check _ _ (checks-lift _)
          λ x5. Only-bind is_check _ _ (checks-lift _) λ x6. Only-pure is_check _

pub verify_proof_checks : (proof : PaymentProof) → Only is_check (verify_proof proof)
unfolding verify_proof
verify_proof_checks proof = Only-bind is_check _ _ (validate_wallet_address_checks _) λ x0.
    Only-bind is_check _ _ (checks-call _ _ refl) λ x1. Only-bind is_check _ _ (checks-lift _) λ x2.
      Only-bind is_check _ _ (checks-lift _) λ x3. Only-bind is_check _ _ (checks-lift _) λ x4.
        Only-bind is_check _ _ (checks-lift _)
          λ x5. Only-bind is_check _ _ (checks-lift _) λ x6. Only-pure is_check _

pub verify_payment_checks : (artifact : Value) → Only is_check (verify_payment artifact)
unfolding verify_payment
verify_payment_checks artifact = Only-bind is_check _ _ (checks-lift _) λ x0. verify_proof_checks x0
