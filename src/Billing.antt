-- ===== src/Billing.antt =====
-- src/myt_machine/billing.py: `BillingService` over the store and the wallet verifier.
pub mod Gate
use myt_machine.Base.{
  ℕ, Bool, true, false, not, Option, none, some, List, Text, ◌==◌, Text_eq, if◌then◌else◌,
}
use myt_machine.Base.Strings.{codes}
use myt_machine.Errors.{
  input_error, configuration_error, invoice_not_paid, Result, ok, err, ◌>>=◌, ◌>>◌, require,
}
use myt_machine.Json.{Value, Fields, end, field}
use myt_machine.Payment.{Platform, PaymentRequest, canonical_json, create_payment_request, nat}
use myt_machine.Invoice.{InvoiceState, pending, paid, expired, is_pending, is_paid, InvoiceRecord}
use myt_machine.Observation.{PaymentObservation}
use myt_machine.InvoiceStore
use myt_machine.InvoiceStore.{Moment, now_of}
use myt_machine.InvoiceStore.Sql.{Db}
use myt_machine.InvoiceStore.Finalize.{finalize}
use myt_machine.Verification.Verifier.{validate_request, verify}
use myt_machine.Wallet.{Session}

pub record InvoiceVerification : Type 0 where
  pub invoice : InvoiceRecord
  pub reason : Text

-- The network of the service, and whether it has a verifier, which is then on the same wallet.
pub record BillingService : Type 0 where
  pub network : Text
  pub verifier : Option Text

-- The arguments of `create_invoice`; an optional one that is not given is `None`.
pub record InvoiceTerms : Type 0 where
  pub recipient_address : Value
  pub amount_atomic : Value
  pub expires_in : Value
  pub invoice_id : Value
  pub memo : Value
  pub reference : Value
  pub idempotency_key : Value
  pub required_confirmations : Value

abbrev pub parameters : Text → InvoiceTerms → Value
parameters network t = Value.dict (
    field "network" (Value.str network) (
      field "recipient_address" t.recipient_address (
        field "amount_atomic" t.amount_atomic (
          field "expires_in" t.expires_in (
            field "invoice_id" t.invoice_id (
              field "memo" t.memo (
                field "reference" t.reference
                  (field "required_confirmations" t.required_confirmations end))))))))

abbrev pub unpaid_reason : InvoiceState → Text
unpaid_reason paid = codes "already_paid"
unpaid_reason _ = codes "expired"

-- The reason that `verify_invoice` gives.
unfoldable pub reason_of : InvoiceState → Text → Text
reason_of expired reason = codes "expired"
reason_of _ reason = reason

module _ (p : Platform) (b : BillingService) where
  -- `hashlib.sha256(canonical_json(parameters).encode("ascii")).hexdigest()`
  unfoldable pub fingerprint_of : InvoiceTerms → Result Text
  fingerprint_of t = do content ← canonical_json p (parameters b.network t); ok (p.sha256 content)

  -- The new request, at the time that the store's clock shows.
  unfoldable pub request_of : Text → Moment → InvoiceTerms → Result PaymentRequest
  request_of fresh m t = do
    now ← now_of m
    create_payment_request p fresh m.clock t.recipient_address t.amount_atomic (Value.str b.network)
        t.expires_in t.memo t.reference t.invoice_id (some (nat now))

  -- The request goes into the store, where the wallet found its recipient usable.
  unfoldable pub store_invoice :
      ℕ → Moment → InvoiceTerms → PaymentRequest → Result Bool → Db → Result InvoiceRecord × Db
  store_invoice max_invoices m t request (err e) db = (err e, db)
  store_invoice max_invoices m t request (ok false) db = (err input_error, db)
  store_invoice max_invoices m t request (ok true) db = elim (fingerprint_of t) [
    | err e ↦ (err e, db)
    | ok f ↦
        InvoiceStore.create p max_invoices m request t.required_confirmations (Value.str f)
          t.idempotency_key db
  ]

  -- `create_invoice`: `m` is when the service reads the clock, `later` when the store does, and
  -- others change the table by `between` while the wallet is asked.
  unfoldable pub create_invoice :
      ℕ
      → Text
      → Moment
      → Moment
      → (Db → Db)
      → InvoiceTerms
      → Db
      → Session
      → (Result InvoiceRecord × Db) × Session
  create_invoice max_invoices fresh m later between t db s = elim (request_of fresh m t) [
    | err e ↦ ((err e, db), s)
    | ok request ↦ elim b.verifier [
      | none ↦ ((err configuration_error, db), s)
      | some network ↦
          let (usable, s') = validate_request p network request s in
          (store_invoice max_invoices later t request usable (between db), s')
    ]
  ]

  unfoldable pub on_network : Result InvoiceRecord → Result InvoiceRecord
  on_network r = do
    record' ← r
    require (record'.request.network == b.network) configuration_error
    ok record'

  unfoldable pub get_invoice : Moment → Value → Db → Result InvoiceRecord × Db
  get_invoice m id db = let (r, db') = InvoiceStore.get p m id db in (on_network r, db')

  unfoldable pub list_invoices : Moment → Value → Value → Db → Result (List InvoiceRecord) × Db
  list_invoices m limit after = InvoiceStore.list p m (Value.str b.network) limit after

  unfoldable pub invoice_status : Moment → Value → Db → Result InvoiceState × Db
  invoice_status m id db =
      let (r, db') = get_invoice m id db in ((do record' ← r; ok record'.state), db')

  unfoldable pub gate : InvoiceRecord → Result InvoiceRecord
  gate invoice = if is_paid invoice.state then ok invoice else err invoice_not_paid

  unfoldable pub require_paid : Moment → Value → Db → Result InvoiceRecord × Db
  require_paid m id db = let (r, db') = get_invoice m id db in ((do i ← r; gate i), db')

  abbrev pub answer : Text → Result InvoiceRecord → Result InvoiceVerification
  answer reason r = do
    current ← r
    ok (record { invoice = current; reason = reason_of current.state reason })

  -- The new payment, or the invoice as it is by now.
  unfoldable pub settled :
      Bool → Moment → Value → InvoiceRecord → PaymentObservation → Db → Result InvoiceRecord × Db
  settled true m id current o db = finalize p m current.request o db
  settled false m id current o db = get_invoice m id db

  -- The end of `verify_invoice`, at a later moment and on the table that it finds then.
  unfoldable pub settle_invoice :
      Moment → Value → InvoiceRecord → PaymentObservation → Db → Result InvoiceVerification × Db
  settle_invoice m id current o db =
      let (r, db') = settled o.eligible m id current o db in (answer o.reason r, db')

  unfoldable pub settle_seen :
      Moment
      → Value
      → InvoiceRecord
      → Result PaymentObservation
      → Db
      → Result InvoiceVerification × Db
  settle_seen m id current (err e) db = (err e, db)
  settle_seen m id current (ok o) db = settle_invoice m id current o db

  -- `verify_invoice` of a pending invoice, where others change the table by `between` while the
  -- wallet is asked.
  unfoldable pub verify_pending :
      Option Text
      → Moment
      → (Db → Db)
      → Value
      → Value
      → InvoiceRecord
      → Db
      → Session
      → (Result InvoiceVerification × Db) × Session
  verify_pending none m between id proof current db s = ((err configuration_error, db), s)
  verify_pending (some network) m between id proof current db s =
      let (seen, s') = verify p network current.request proof current.required_confirmations s in
      (settle_seen m id current seen (between db), s')

  unfoldable pub verify_current :
      Moment
      → (Db → Db)
      → Value
      → Value
      → Result InvoiceRecord
      → Db
      → Session
      → (Result InvoiceVerification × Db) × Session
  verify_current later between id proof (err e) db s = ((err e, db), s)
  verify_current later between id proof (ok current) db s =
      if is_pending current.state
      then verify_pending b.verifier later between id proof current db s
      else ((ok (record { invoice = current; reason = unpaid_reason current.state }), db), s)

  unfoldable pub verify_invoice :
      Moment
      → Moment
      → (Db → Db)
      → Value
      → Value
      → Db
      → Session
      → (Result InvoiceVerification × Db) × Session
  verify_invoice m later between id proof db s =
      let (r, db') = get_invoice m id db in verify_current later between id proof r db' s
