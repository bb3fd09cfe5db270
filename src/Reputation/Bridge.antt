-- ===== src/Reputation/Bridge.antt =====
-- `record_verified_settlement` of src/myt_machine/reputation_settlement.py, into an evidence store that
-- is open already.
use myt_machine.Base.{ℕ, Bool, ◌&&◌, none, some, Text, ◌==◌, Text_eq, option_text_eq}
use myt_machine.Errors.{Error, input_error, Result, ok, err, require}
use myt_machine.Json.{Value}
use myt_machine.Payment.{Platform}
use myt_machine.Invoice.{InvoiceRecord}
use myt_machine.Observation.{PaymentObservation}
use myt_machine.InvoiceStore
use myt_machine.InvoiceStore.Sql
use myt_machine.Billing.{BillingService, get_invoice}
use myt_machine.Verification.{artifact_of}
use myt_machine.Verification.Verifier
use myt_machine.Wallet.{Rpc, Session, lift, ◌>>=◌, ◌>>◌}
use myt_machine.Identity.{Crypto}
use myt_machine.Binding.{AddressBinding}
use myt_machine.Binding.Service
use myt_machine.Reputation.Store.{Moment, Db, record_settlement}
use myt_machine.Reputation.Claim.{
  Claim, without_text, check_arguments, check_claim, evidence_of, check_unchanged,
}

-- What came of it: the digest and whether it is new, and the invoices, the wallet and the evidence
-- afterwards.
pub record Outcome : Type 0 where
  pub result : Result (Text × Bool)
  pub invoices : Sql.Db
  pub session : Session
  pub evidence : Db

-- The moments of the two readings of the invoice and of the recording, and what others do to the
-- invoices while the wallet is asked.
pub record Course : Type 0 where
  pub first : InvoiceStore.Moment
  pub second : InvoiceStore.Moment
  pub recording : Moment
  pub between : Sql.Db → Sql.Db

abbrev pub service : Text → BillingService
service network = record { network = network; verifier = none }

module _ (p : Platform) (c : Crypto) (capacity : ℕ) (network expected : Text) where
  -- The binding and then the payment, verified by the wallet.
  unfoldable pub ask_both : Claim → Rpc PaymentObservation
  ask_both claim = do
    v ← Service.verify p c claim.binding (some expected) (some network)
    lift (require v.valid input_error)
    Verifier.verify p network claim.invoice.request (artifact_of claim.proof)
        claim.invoice.required_confirmations

  unfoldable pub check_observation : Claim → PaymentObservation → Result (Unit {0})
  check_observation claim o = require (o.eligible && some o.txid == claim.invoice.txid) input_error

  abbrev pub stop : Error → Sql.Db → Session → Db → Outcome
  stop e invoices s evidence = record {
    result = err e;
    invoices = invoices;
    session = s;
    evidence = evidence;
  }

  -- The recording, at last.
  unfoldable pub record_evidence : Course → Value → Sql.Db → Session → Db → Outcome
  record_evidence course v invoices s evidence =
      let (answer, evidence') = record_settlement p c capacity course.recording v evidence in
      record { result = answer; invoices = invoices; session = s; evidence = evidence' }

  -- The second reading of the invoice.
  unfoldable pub confirm_claim : Course → Value → Claim → Value → Sql.Db → Session → Db → Outcome
  confirm_claim course id claim v invoices s evidence =
      let (current, invoices') = get_invoice p (service network) course.second id invoices in
      elim (check_unchanged p c network expected claim current) [
        | err e ↦ stop e invoices' s evidence
        | ok _ ↦ record_evidence course v invoices' s evidence
      ]

  unfoldable pub with_observation :
      Course → Value → Claim → PaymentObservation → Sql.Db → Session → Db → Outcome
  with_observation course id claim o invoices s evidence = elim (check_observation claim o) [
    | err e ↦ stop e invoices s evidence
    | ok _ ↦ elim (evidence_of p c network expected claim o) [
      | err e ↦ stop e invoices s evidence
      | ok v ↦ confirm_claim course id claim v invoices s evidence
    ]
  ]

  unfoldable pub with_claim : Course → Value → Claim → Sql.Db → Session → Db → Outcome
  with_claim course id claim invoices s evidence =
      let (seen, s') = ask_both claim s in
      elim (without_text seen) [
        | err e ↦ stop e (course.between invoices) s' evidence
        | ok o ↦ with_observation course id claim o (course.between invoices) s' evidence
      ]

  unfoldable pub with_invoice :
      Course → Value → AddressBinding → Value → InvoiceRecord → Sql.Db → Session → Db → Outcome
  with_invoice course id binding proof invoice invoices s evidence =
      elim (check_claim p c network expected invoice binding proof) [
        | err e ↦ stop e invoices s evidence
        | ok claim ↦ with_claim course id claim invoices s evidence
      ]

  unfoldable pub record_verified_settlement :
      Course → Value → AddressBinding → Value → Sql.Db → Session → Db → Outcome
  record_verified_settlement course id binding proof invoices s evidence =
      elim (check_arguments p c network expected) [
        | err e ↦ stop e invoices s evidence
        | ok _ ↦
            let (found, invoices') = get_invoice p (service network) course.first id invoices in
            elim found [
              | err e ↦ stop e invoices' s evidence
              | ok invoice ↦ with_invoice course id binding proof invoice invoices' s evidence
            ]
      ]
