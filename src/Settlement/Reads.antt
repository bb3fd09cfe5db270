-- ===== src/Settlement/Reads.antt =====
-- Which operations of the settlement only read.
use myt_machine.Base.{◌≡◌, refl, true, false, String}
use myt_machine.Errors.{Result}
use myt_machine.Json.{Value, Fields}
use myt_machine.Wallet.{lift, call}
use myt_machine.Wallet.Calls.{
  Only, is_read, Only-lift, Only-pure, Only-call, Only-bind, Only_weaken, is_check,
  is_check-is_read, is_signing, is_query, is_read-is_signing,
}
use myt_machine.Settlement.{MachineSettlement, address, balance, validate_wallet_address, status}
use myt_machine.Settlement.Checks.{validate_wallet_address_checks}
use myt_machine.Settlement.Payments.{prove_payment, sign_message, verify_message}

abbrev reads-lift : {A : Type 0} (r : Result A) → Only is_read (lift r)
reads-lift r = Only-lift is_read r

abbrev reads-call :
    (method : String) (params : Fields)
    → is_query method ≡ true
    → Only is_read (call method params false)
unfolding is_read
reads-call method params h = Only-call is_read method params false h

abbrev signs-lift : {A : Type 0} (r : Result A) → Only is_signing (lift r)
signs-lift r = Only-lift is_signing r

abbrev signs-call : (params : Fields) → Only is_signing (call "sign" params false)
unfolding is_signing
signs-call params = Only-call is_signing "sign" params false refl

pub address-Only : (m : MachineSettlement) → Only is_read (address m)
unfolding address
address-Only m = Only-bind is_read _ _ (reads-call _ _ refl) λ x0.
    Only-bind is_read _ _ (reads-lift _) λ x1. Only-bind is_read _ _ (reads-lift _) λ x2.
      Only-bind is_read _ _ (reads-lift _) λ x3.
        Only-bind is_read _ _ (reads-lift _)
          λ x4. Only-bind is_read _ _ (reads-lift _) λ x5. Only-pure is_read _

pub balance-Only : (m : MachineSettlement) → Only is_read (balance m)
unfolding balance
balance-Only m = Only-bind is_read _ _ (reads-call _ _ refl) λ x0.
    Only-bind is_read _ _ (reads-lift _) λ x1. Only-bind is_read _ _ (reads-lift _) λ x2.
      Only-bind is_read _ _ (reads-lift _) λ x3. Only-bind is_read _ _ (reads-lift _) λ x4.
        Only-bind is_read _ _ (reads-lift _)
          λ x5. Only-bind is_read _ _ (reads-lift _) λ x6. Only-pure is_read _

pub validate_wallet_address-Only : (value : Value) → Only is_read (validate_wallet_address value)
validate_wallet_address-Only value =
    Only_weaken is_check is_read _ is_check-is_read (validate_wallet_address_checks value)

pub status-Only : (m : MachineSettlement) → Only is_read (status m)
unfolding status
status-Only m = Only-bind is_read _ _ (reads-call _ _ refl) λ x0.
    Only-bind is_read _ _ (reads-call _ _ refl) λ x1. Only-bind is_read _ _ (address-Only m) λ x2.
      Only-bind is_read _ _ (validate_wallet_address-Only _) λ x3.
        Only-bind is_read _ _ (balance-Only m) λ x4. Only-bind is_read _ _ (reads-lift _) λ x5.
          Only-bind is_read _ _ (reads-lift _)
            λ x6. Only-bind is_read _ _ (reads-lift _) λ x7. Only-pure is_read _

pub prove_payment-Only : (txid to message : Value) → Only is_read (prove_payment txid to message)
unfolding prove_payment
prove_payment-Only txid to message = Only-bind is_read _ _ (reads-lift _) λ x0.
    Only-bind is_read _ _ (reads-lift _) λ x1.
      Only-bind is_read _ _ (validate_wallet_address-Only _) λ x2.
        Only-bind is_read _ _ (reads-call _ _ refl)
          λ x3. Only-bind is_read _ _ (reads-lift _) λ x4. reads-lift _

pub sign_message-Only :
    (m : MachineSettlement) (message : Value) → Only is_signing (sign_message m message)
unfolding sign_message
sign_message-Only m message = Only-bind is_signing _ _ (signs-lift _) λ x0.
    Only-bind is_signing _ _ (Only_weaken is_read is_signing _ is_read-is_signing (address-Only m))
      λ x1. Only-bind is_signing _ _ (signs-call _) λ x2.
        Only-bind is_signing _ _ (signs-lift _)
          λ x3. Only-bind is_signing _ _ (signs-lift _) λ x4. Only-pure is_signing _

pub verify_message-Only :
    (signer message signature : Value) → Only is_read (verify_message signer message signature)
unfolding verify_message
verify_message-Only signer message signature = Only-bind is_read _ _ (reads-lift _) λ x0.
    Only-bind is_read _ _ (reads-lift _) λ x1.
      Only-bind is_read _ _ (validate_wallet_address-Only _) λ x2.
        Only-bind is_read _ _ (reads-call _ _ refl) λ x3. Only-bind is_read _ _ (reads-lift _) λ x4.
          Only-bind is_read _ _ (reads-lift _) λ x5.
            Only-bind is_read _ _ (reads-lift _)
              λ x6. Only-bind is_read _ _ (reads-lift _) λ x7. Only-pure is_read _
