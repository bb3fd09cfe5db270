-- ===== src/Reputation/Claim.antt =====
-- src/myt_machine/reputation_settlement.py: the local checks of `record_verified_settlement`, and the
-- evidence that it records.
use myt_machine.Base.{
  ℕ, Bool, true, false, ◌&&◌, Option, none, some, [], ◌∷◌, ◌++◌, Text, ◌==◌, ℕ_eq, Text_eq,
  option_text_eq,
}
use myt_machine.Base.Strings.{codes}
use myt_machine.Errors.{input_error, wallet_rpc_error, Result, ok, err, ◌>>=◌, ◌>>◌, require}
use myt_machine.Json.{Value, end, field}
use myt_machine.Payment.{Platform, PaymentRequest, validate_network, nat}
use myt_machine.Payment.Equal.{request_eq}
use myt_machine.Invoice.{InvoiceState, pending, paid, expired, is_paid, InvoiceRecord}
use myt_machine.Observation.{PaymentObservation}
use myt_machine.Proofs.{PaymentProof}
use myt_machine.Verification.{prepare}
use myt_machine.Identity.{Crypto, machine_id_digest}
use myt_machine.Binding.{AddressBinding, verify_binding_identity, parse_address_binding}
use myt_machine.Binding
use myt_machine.Payment
use myt_machine.Reputation.{content_digest}

abbrev pub is_absent : Option PaymentObservation → Bool
is_absent none = true
is_absent (some o) = false

abbrev pub same_state : InvoiceState → InvoiceState → Bool
same_state pending pending = true
same_state paid paid = true
same_state expired expired = true
same_state _ _ = false

abbrev pub same_number : Option ℕ → Option ℕ → Bool
same_number none none = true
same_number (some a) (some b) = a == b
same_number _ _ = false

-- `==` on invoice records.
unfoldable pub same_record : InvoiceRecord → InvoiceRecord → Bool
same_record a b =
    request_eq a.request b.request
    && same_state a.state b.state
    && a.required_confirmations == b.required_confirmations
    && a.txid == b.txid
    && same_number a.received_atomic b.received_atomic
    && same_number a.confirmations b.confirmations
    && same_number a.paid_at b.paid_at

-- `except WalletRpcError`: only the code of the wallet's error is kept.
unfoldable pub without_text : {A : Type 0} → Result A → Result A
without_text (ok a) = ok a
without_text (err (wallet_rpc_error code message)) =
    err (wallet_rpc_error code (codes "Wallet RPC application error"))
without_text (err e) = err e

-- The invoice, with the binding and the proof as they were read again.
pub record Claim : Type 0 where
  pub invoice : InvoiceRecord
  pub binding : AddressBinding
  pub proof : PaymentProof

module _ (p : Platform) (c : Crypto) (network expected : Text) where
  -- The checks before the invoice is read.
  unfoldable pub check_arguments : Result (Unit {0})
  check_arguments = do
    machine_id_digest c (Value.str expected)
    validate_network (Value.str network)
    ok tt

  -- The checks after it, up to the first call of the wallet.
  unfoldable pub check_claim : InvoiceRecord → AddressBinding → Value → Result Claim
  check_claim invoice binding proof = do
    require (is_paid invoice.state) input_error
    f ← Binding.as_dict p c binding
    again ← parse_address_binding p c (Value.dict f)
    require
        (again.address == invoice.request.recipient_address
          && again.network == network
          && again.identity.machine_id == expected)
        input_error
    r ← verify_binding_identity p c again (some expected)
    require r.valid input_error
    (proof', message, failure) ← prepare p invoice.request proof invoice.required_confirmations
    require (is_absent failure && some proof'.txid == invoice.txid) input_error
    ok (record { invoice = invoice; binding = again; proof = proof' })

  -- `evidence`
  unfoldable pub evidence_of : Claim → PaymentObservation → Result Value
  evidence_of claim o = do
    transaction ←
        content_digest p (codes "MYT-REPUTATION-TX-V1" ++ 10 ∷ [])
          (Value.dict (field "network" (Value.str network) (field "txid" (Value.str o.txid) end)))
    request ←
        content_digest p (codes "MYT-REPUTATION-REQUEST-V1" ++ 10 ∷ [])
          (Value.dict (Payment.as_dict claim.invoice.request))
    f ← Binding.as_dict p c claim.binding
    binding ← content_digest p (codes "MYT-REPUTATION-BINDING-V1" ++ 10 ∷ []) (Value.dict f)
    ok (
        Value.dict (
          field "type" (Value.str (codes "myt-recipient-settlement-observation")) (
            field "version" (nat 1) (
              field "network" (Value.str network) (
                field "subject_machine_id" (Value.str claim.binding.identity.machine_id) (
                  field "transaction_digest" (Value.str transaction) (
                    field "request_digest" (Value.str request)
                      (field "binding_digest" (Value.str binding) end))))))))

  -- The invoice read for the second time is what it was.
  unfoldable pub check_unchanged : Claim → Result InvoiceRecord → Result (Unit {0})
  check_unchanged claim current = do
    again ← current
    require (same_record again claim.invoice) input_error
