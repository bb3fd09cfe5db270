-- ===== src/Reputation/Attributed.antt =====
-- What a settlement that was recorded rests on (src/myt_machine/reputation_settlement.py).
use myt_machine.Base.{
  ℕ, ◌≡◌, refl, sym, ap, subst, ◌∙◌, Bool, true, some, Text, ◌==◌, Text_eq, option_text_eq,
  option_eq_iff, and_parts, inl, inr,
}
use myt_machine.Errors.{input_error, ok, require-eq-ok, Result-cases}
use myt_machine.Json.{Value}
use myt_machine.Payment.{Platform}
use myt_machine.Invoice.{InvoiceRecord, is_paid}
use myt_machine.Observation.{PaymentObservation}
use myt_machine.InvoiceStore.Sql
use myt_machine.Billing.{get_invoice}
use myt_machine.Verification.Confirmed.{IsConfirmed}
use myt_machine.Wallet.{Session}
use myt_machine.Identity.{Crypto}
use myt_machine.Binding.{AddressBinding}
use myt_machine.Binding.Bound.{IsBound}
use myt_machine.Reputation.Store.{Db, record_settlement}
use myt_machine.Reputation.Claim.{
  Claim, without_text, check_arguments, check_claim, evidence_of, check_unchanged,
}
use myt_machine.Reputation.Bridge.{
  Course, service, ask_both, check_observation, record_evidence, confirm_claim, with_observation,
  with_claim, with_invoice, record_verified_settlement,
}
use myt_machine.Reputation.Claimed.{
  refused_claim, without_text-eq-ok, check_claim-eq-ok, ask_both-eq-ok,
}

-- The recorded settlement is of a paid invoice whose recipient is bound to the expected Machine ID and
-- whose payment the wallet confirmed again: from `s` to `bound_at` the wallet was asked about the
-- binding, and then up to `after` about the payment.
pub record IsAttributed (p : Platform) (c : Crypto) (network expected : Text) (claim : Claim)
    (v : Value) (s after : Session) : Type 0 where
  pub bound_at : Session
  pub observation : PaymentObservation
  pub paid : is_paid claim.invoice.state ≡ true
  pub recipient : claim.binding.address ≡ claim.invoice.request.recipient_address
  pub on_network : claim.binding.network ≡ network
  pub subject : claim.binding.identity.machine_id ≡ expected
  pub bound : IsBound p c claim.binding (some expected) (some network) s bound_at
  pub confirmed :
      IsConfirmed claim.invoice.request claim.invoice.required_confirmations observation bound_at
        after
  pub same_txid : some observation.txid ≡ claim.invoice.txid
  pub evidence : evidence_of p c network expected claim observation ≡ ok v

module _ (p : Platform) (c : Crypto) (capacity : ℕ) (network expected : Text) (course : Course)
    (id : Value) (a : Text × Bool) where
  -- The evidence of this claim was recorded.
  abbrev pub IsRecorded : Claim → Session → Session → Db → Type 0
  IsRecorded claim s after evidence =
      (v : Value) × IsAttributed p c network expected claim v s after
      × ((record_settlement p c capacity course.recording v evidence).0 ≡ ok a)

  confirm_claim-eq-ok :
      (claim : Claim) (v : Value) (invoices : Sql.Db) (s : Session) (evidence : Db)
      → (confirm_claim p c capacity network expected course id claim v invoices s evidence).result
        ≡ ok a
      → ((record_settlement p c capacity course.recording v evidence).0 ≡ ok a)
        × ((confirm_claim p c capacity network expected course id claim v invoices s
              evidence).session
            ≡ s)
  unfolding confirm_claim record_evidence
  confirm_claim-eq-ok claim v invoices s evidence h =
      elim (Result-cases (
        check_unchanged p c network expected claim
          (get_invoice p (service network) course.second id invoices).0)) [
            | inr (e, refused) ↦ absurd (refused_claim (rw (refused, confirm_claim) at h))
            | inl (u, same) ↦ (rw (same, confirm_claim) at h, rw (same, confirm_claim) refl)
          ]

  with_observation-eq-ok :
      (claim : Claim) (o : PaymentObservation) (invoices : Sql.Db) (s : Session) (evidence : Db)
      → (with_observation p c capacity network expected course id claim o invoices s
          evidence).result
        ≡ ok a
      → (o.eligible ≡ true)
        × (some o.txid ≡ claim.invoice.txid)
        × ((v : Value) × (evidence_of p c network expected claim o ≡ ok v)
            × ((record_settlement p c capacity course.recording v evidence).0 ≡ ok a)
            × ((with_observation p c capacity network expected course id claim o invoices s
                  evidence).session
                ≡ s))
  unfolding with_observation check_observation
  with_observation-eq-ok claim o invoices s evidence h =
      elim (Result-cases (check_observation p c capacity network expected claim o)) [
        | inr (e, refused) ↦ absurd (refused_claim (rw (refused, with_observation) at h))
        | inl (u, good) ↦ elim (Result-cases (evidence_of p c network expected claim o)) [
          | inr (e, refused) ↦
              absurd
                (refused_claim (rw (refused, with_observation) at rw (good, with_observation) at h))
          | inl (v, made) ↦
              let (recorded, there) =
                confirm_claim-eq-ok claim v invoices s evidence
                  (rw (made, with_observation) at rw (good, with_observation) at h) in
              let (eligible, same) =
                and_parts o.eligible (some o.txid == claim.invoice.txid)
                  (require-eq-ok _ input_error good) in
              (
                eligible,
                (option_eq_iff (some o.txid) claim.invoice.txid).0 same,
                (
                  v,
                  made,
                  recorded,
                  rw (good, with_observation) (rw (made, with_observation) there),
                ),
              )
        ]
      ]

  with_claim-eq-ok :
      (claim : Claim) (invoices : Sql.Db) (s : Session) (evidence : Db)
      → is_paid claim.invoice.state ≡ true
      → claim.binding.address ≡ claim.invoice.request.recipient_address
      → claim.binding.network ≡ network
      → claim.binding.identity.machine_id ≡ expected
      → (with_claim p c capacity network expected course id claim invoices s evidence).result ≡ ok a
      → IsRecorded claim s
          (with_claim p c capacity network expected course id claim invoices s evidence).session
          evidence
  unfolding with_claim
  with_claim-eq-ok claim invoices s evidence paid to on_network subject h =
      elim (Result-cases (without_text (ask_both p c capacity network expected claim s).0)) [
        | inr (e, refused) ↦ absurd (refused_claim (rw (refused, with_claim) at h))
        | inl (o, seen) ↦
            let s' = (ask_both p c capacity network expected claim s).1 in
            let (eligible, same, (v, made, recorded, there)) =
              with_observation-eq-ok claim o (course.between invoices) s' evidence
                (rw (seen, with_claim) at h) in
            let (s1, bound, confirmed) =
              ask_both-eq-ok p c network expected capacity claim o s s'
                (ap (λ r. (r, s')) (without_text-eq-ok _ o seen)) eligible in
            (
              v,
              record {
                bound_at = s1;
                observation = o;
                paid = paid;
                recipient = to;
                on_network = on_network;
                subject = subject;
                bound = bound;
                confirmed =
                    subst
                      (λ x.
                        IsConfirmed claim.invoice.request claim.invoice.required_confirmations o s1
                          x)
                      (sym (rw (seen, with_claim) there)) confirmed;
                same_txid = same;
                evidence = made;
              },
              recorded,
            )
      ]

  with_invoice-eq-ok :
      (binding : AddressBinding) (proof : Value) (invoice : InvoiceRecord) (invoices : Sql.Db)
      (s : Session) (evidence : Db)
      → (with_invoice p c capacity network expected course id binding proof invoice invoices s
          evidence).result
        ≡ ok a
      → (claim : Claim) × (claim.invoice ≡ invoice)
        × IsRecorded claim s
            (with_invoice p c capacity network expected course id binding proof invoice invoices s
              evidence).session
            evidence
  unfolding with_invoice
  with_invoice-eq-ok binding proof invoice invoices s evidence h =
      elim (Result-cases (check_claim p c network expected invoice binding proof)) [
        | inr (e, refused) ↦ absurd (refused_claim (rw (refused, with_invoice) at h))
        | inl (claim, checked) ↦
            let (same, paid, to, on_network, subject) =
              check_claim-eq-ok p c network expected invoice binding proof claim checked in
            (
              claim,
              same,
              rw (checked, with_invoice)
                  (with_claim-eq-ok claim invoices s evidence
                    (ap (λ x. is_paid x.state) same ∙ paid)
                    (to ∙ ap (λ x. x.request.recipient_address) (sym same)) on_network subject
                    (rw (checked, with_invoice) at h)),
            )
      ]

  -- A settlement that is recorded, newly or again, is of the invoice that the service found under the
  -- ID: it is paid, its recipient is the address of a binding to the expected Machine ID on the network,
  -- and the wallet was asked twice from the session `s` on, and nothing after that. The last call of the
  -- first part is about the wallet signature of the binding, and its reply is that the signature is
  -- good; the identity's signature verifies too. The last call of all is about a proof of the payment,
  -- and its reply is that the exact amount was paid to the recipient, out of the pool and at the
  -- required depth, in the transaction that the invoice names. What is recorded is the evidence of
  -- these.
  pub record_verified_settlement-IsAttributed :
      (binding : AddressBinding) (proof : Value) (invoices : Sql.Db) (s : Session) (evidence : Db)
      → (record_verified_settlement p c capacity network expected course id binding proof invoices s
          evidence).result
        ≡ ok a
      → (claim : Claim) × ((get_invoice p (service network) course.first id invoices).0
          ≡ ok claim.invoice)
        × IsRecorded claim s
            (record_verified_settlement p c capacity network expected course id binding proof
              invoices s evidence).session
            evidence
  unfolding record_verified_settlement
  record_verified_settlement-IsAttributed binding proof invoices s evidence h =
      elim (Result-cases (check_arguments p c network expected)) [
        | inr (e, refused) ↦ absurd (refused_claim (rw (refused, record_verified_settlement) at h))
        | inl (u, good) ↦
            elim (Result-cases (get_invoice p (service network) course.first id invoices).0) [
              | inr (e, refused) ↦ absurd (
                  refused_claim (
                    rw (refused, record_verified_settlement) at rw
                      (good, record_verified_settlement) at h))
              | inl (invoice, found) ↦
                  let (claim, same, recorded) =
                    with_invoice-eq-ok binding proof invoice _ s evidence (
                      rw (found, record_verified_settlement) at rw
                        (good, record_verified_settlement) at h) in
                  (
                    claim,
                    found ∙ ap ok (sym same),
                    rw (good, record_verified_settlement)
                        (rw (found, record_verified_settlement) recorded),
                  )
            ]
      ]
