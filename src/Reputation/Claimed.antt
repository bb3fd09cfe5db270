-- ===== src/Reputation/Claimed.antt =====
-- What the checks of a settlement establish, and what the wallet answers (reputation_settlement.py).
use myt_machine.Base.{
  ℕ, ◌≡◌, sym, ap, ◌∙◌, true, ◌&&◌, some, Text, ◌==◌, Text_eq, option_text_eq, text_eq_iff,
  and_parts, arith,
}
use myt_machine.Errors.{
  Error, input_error, wallet_rpc_error, Result, ok, err, ok-injective, on_ok, require,
  require-eq-ok,
}
use myt_machine.Json.{Value}
use myt_machine.Payment.{Platform}
use myt_machine.Invoice.{InvoiceRecord, is_paid}
use myt_machine.Observation.{PaymentObservation}
use myt_machine.Verification.{artifact_of, prepare}
use myt_machine.Verification.Confirmed.{IsConfirmed, verify-IsConfirmed}
use myt_machine.Wallet.{Session}
use myt_machine.Wallet.Calls.{on_rpc, on_lift}
use myt_machine.Identity.{Crypto}
use myt_machine.Binding.{AddressBinding, verify_binding_identity, parse_address_binding}
use myt_machine.Binding
use myt_machine.Binding.Service
use myt_machine.Binding.Bound.{IsBound}
use myt_machine.Binding.Verified.{verify-IsBound}
use myt_machine.Reputation.Claim.{Claim, is_absent, without_text, check_claim}
use myt_machine.Reputation.Bridge.{ask_both}

pub refused_claim : {A : Type 0} {a : A} {e : Error} → ◌≡◌ {A = Result A} (err e) (ok a) → ⊥
refused_claim h = ground arith

pub without_text-eq-ok : {A : Type 0} (r : Result A) (a : A) → without_text r ≡ ok a → r ≡ ok a
unfolding without_text
without_text-eq-ok (ok b) a h = h
without_text-eq-ok (err (wallet_rpc_error code message)) a h = absurd (refused_claim h)
without_text-eq-ok (err e) a h = ground arith

module _ (p : Platform) (c : Crypto) (network expected : Text) where
  pub check_claim-eq-ok :
      (invoice : InvoiceRecord) (binding : AddressBinding) (proof : Value) (claim : Claim)
      → check_claim p c network expected invoice binding proof ≡ ok claim
      → (claim.invoice ≡ invoice)
        × (is_paid invoice.state ≡ true)
        × (claim.binding.address ≡ invoice.request.recipient_address)
        × (claim.binding.network ≡ network)
        × (claim.binding.identity.machine_id ≡ expected)
  unfolding check_claim
  check_claim-eq-ok invoice binding proof claim h =
      on_ok (require (is_paid invoice.state) input_error) _ h λ u e1 h1.
        on_ok (Binding.as_dict p c binding) _ h1 λ f e2 h2.
          on_ok (parse_address_binding p c (Value.dict f)) _ h2 λ again e3 h3.
            on_ok
              (require
                (again.address == invoice.request.recipient_address
                  && again.network == network
                  && again.identity.machine_id == expected)
                input_error)
              _ h3
              λ u' e4 h4. on_ok (verify_binding_identity p c again (some expected)) _ h4 λ r e5 h5.
                on_ok (require r.valid input_error) _ h5 λ u'' e6 h6.
                  on_ok (prepare p invoice.request proof invoice.required_confirmations) _ h6
                    λ found e7 h7.
                      on_ok
                        (require (is_absent found.2 && some found.0.txid == invoice.txid)
                          input_error)
                        _ h7
                        λ u3 e8 h8.
                          let same = ok-injective h8 in
                          let (both, third) =
                            and_parts
                              (again.address == invoice.request.recipient_address
                                && again.network == network)
                              _ (require-eq-ok _ input_error e4) in
                          let (first, second) =
                            and_parts (again.address == invoice.request.recipient_address) _ both in
                          (
                            ap (λ x. x.invoice) (sym same),
                            require-eq-ok _ _ e1,
                            ap (λ x. x.binding.address) (sym same)
                                ∙ (text_eq_iff again.address invoice.request.recipient_address).0
                                    first,
                            ap (λ x. x.binding.network) (sym same)
                                ∙ (text_eq_iff again.network network).0 second,
                            ap (λ x. x.binding.identity.machine_id) (sym same)
                                ∙ (text_eq_iff again.identity.machine_id expected).0 third,
                          )

  -- The wallet's two answers.
  pub ask_both-eq-ok :
      (capacity : ℕ) (claim : Claim) (o : PaymentObservation) (s s' : Session)
      → ask_both p c capacity network expected claim s ≡ (ok o, s')
      → o.eligible ≡ true
      → (s1 : Session) × IsBound p c claim.binding (some expected) (some network) s s1
        × IsConfirmed claim.invoice.request claim.invoice.required_confirmations o s1 s'
  unfolding ask_both
  ask_both-eq-ok capacity claim o s s' h e =
      on_rpc (Service.verify p c claim.binding (some expected) (some network)) _ s h λ v s1 e1 h1.
        on_lift (require v.valid input_error) _ s1 h1 λ u e2 h2. (
          s1,
          verify-IsBound p c claim.binding (some expected) (some network) v s s1 e1
              (require-eq-ok _ _ e2),
          (verify-IsConfirmed p network claim.invoice.request (artifact_of claim.proof)
              claim.invoice.required_confirmations o s1 s' h2 e).0,
        )
