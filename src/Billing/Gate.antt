-- ===== src/Billing/Gate.antt =====
-- Which invoices the billing service (billing.py) lets through.
use myt_machine.Base.{
  ◌≡◌, refl, ◌∙◌, sym, ap, subst, Bool, true, false, Option, none, some, Text, ◌==◌, Text_eq,
  text_eq_iff, inl, inr, Bool-cases,
}
use myt_machine.Errors.{
  Result, ok, err, configuration_error, ok-injective, on_ok, require, require-eq-ok, Result-cases,
}
use myt_machine.Json.{Value}
use myt_machine.Payment.{Platform, validate_identifier}
use myt_machine.Invoice.{is_paid, is_pending, InvoiceRecord}
use myt_machine.Invoice.Valid.{IsValidRecord}
use myt_machine.Observation.{PaymentObservation}
use myt_machine.InvoiceStore.Sql.{Db, expire_rows}
use myt_machine.InvoiceStore.Decode.{decode}
use myt_machine.InvoiceStore.{operate, Moment, with_checked, now_of, fetch, get, get_body}
use myt_machine.InvoiceStore.Answers.{
  refused_ok, transaction_value, decode-IsValidRecord, finalize_lem,
}
use myt_machine.Billing.{
  BillingService, InvoiceVerification, on_network, get_invoice, gate, require_paid, settled,
  settle_invoice, settle_seen, verify_pending, verify_current, verify_invoice, answer,
}
use myt_machine.Wallet.{Session}

get_body-IsValidRecord :
    (p : Platform) (m : Moment) (id : Text) (db : Db) (r : InvoiceRecord)
    → (db' : Db) × (get_body p m id db ≡ ok (r, db'))
    → IsValidRecord p r
unfolding get_body
get_body-IsValidRecord p m id db r (db', h) = on_ok (now_of m) _ h λ now e1 h1.
    on_ok (fetch id (expire_rows now db)) _ h1 λ row e2 h2.
      on_ok (decode p row) _ h2 λ current e3 h3.
        subst (IsValidRecord p) (ap (λ t. t.0) (ok-injective h3))
          (decode-IsValidRecord p row current e3)

get-IsValidRecord :
    (p : Platform) (m : Moment) (v : Value) (db : Db) (r : InvoiceRecord)
    → (get p m v db).0 ≡ ok r
    → IsValidRecord p r
unfolding get
get-IsValidRecord p m v db r h = elim (Result-cases (validate_identifier v)) [
  | inr (e, refused) ↦ absurd (
      refused_ok e r (
        sym (
          ap (λ (c : Result Text). (with_checked c (λ id. operate m (get_body p m id)) db).0)
            refused)
        ∙ h))
  | inl (id, named) ↦ get_body-IsValidRecord p m id db r (
      transaction_value m (get_body p m id) db r (
        sym (
          ap (λ (c : Result Text). (with_checked c (λ id. operate m (get_body p m id)) db).0) named)
        ∙ h))
]

module _ (p : Platform) (b : BillingService) where
  on_network-eq-ok :
      (found : Result InvoiceRecord) (r : InvoiceRecord)
      → on_network p b found ≡ ok r
      → (found ≡ ok r) × (r.request.network ≡ b.network)
  unfolding on_network
  on_network-eq-ok found r h = on_ok found _ h λ r' e1 h1.
      on_ok (require (r'.request.network == b.network) configuration_error) _ h1 λ u e2 h2.
        let same = ok-injective h2 in
        (
          e1 ∙ ap (λ x. ok x) same,
          ap (λ x. x.request.network) (sym same)
              ∙ (text_eq_iff r'.request.network b.network).0 (require-eq-ok _ _ e2),
        )

  get_invoice-IsValidRecord :
      (m : Moment) (id : Value) (db : Db) (r : InvoiceRecord)
      → (get_invoice p b m id db).0 ≡ ok r
      → IsValidRecord p r × (r.request.network ≡ b.network)
  unfolding get_invoice
  get_invoice-IsValidRecord m id db r h =
      let (found, network) = on_network-eq-ok (get p m id db).0 r h in
      (get-IsValidRecord p m id db r found, network)

  gate-eq-ok : (r r' : InvoiceRecord) → gate p b r ≡ ok r' → (r ≡ r') × (is_paid r'.state ≡ true)
  unfolding gate
  gate-eq-ok r r' h = elim (Bool-cases (is_paid r.state)) [
    | inl is_open ↦
        let same = ok-injective (rw is_open at h) in
        (same, ap (λ x. is_paid x.state) (sym same) ∙ is_open)
    | inr closed ↦ absurd (refused_ok _ r' (rw closed at h))
  ]

  -- What holds of every invoice that the service hands out.
  abbrev IsOurs : InvoiceRecord → Type 0
  IsOurs r = IsValidRecord p r × (r.request.network ≡ b.network)

  answer-IsOurs :
      (reason : Text) (r : Result InvoiceRecord) (v : InvoiceVerification)
      → ((i : InvoiceRecord) → r ≡ ok i → IsOurs i)
      → answer p b reason r ≡ ok v
      → IsOurs v.invoice
  answer-IsOurs reason (ok i) v ours h =
      subst IsOurs (ap (λ x. x.invoice) (ok-injective h)) (ours i refl)
  answer-IsOurs reason (err e) v ours h = absurd (refused_ok e v h)

  settled-IsOurs :
      (eligible : Bool) (m : Moment) (id : Value) (current : InvoiceRecord) (o : PaymentObservation)
      (db : Db) (i : InvoiceRecord)
      → IsOurs current
      → (settled p b eligible m id current o db).0 ≡ ok i
      → IsOurs i
  unfolding settled
  settled-IsOurs true m id current o db i (valid, network) h =
      let (eligible, message, same, closed, good) = finalize_lem p m current.request o db i h in
      (good, ap (λ x. x.network) same ∙ network)
  settled-IsOurs false m id current o db i ours h = get_invoice-IsValidRecord m id db i h

  settle_seen-IsOurs :
      (m : Moment) (id : Value) (current : InvoiceRecord) (seen : Result PaymentObservation)
      (db : Db) (v : InvoiceVerification)
      → IsOurs current
      → (settle_seen p b m id current seen db).0 ≡ ok v
      → IsOurs v.invoice
  unfolding settle_seen settle_invoice
  settle_seen-IsOurs m id current (err e) db v ours h = absurd (refused_ok e v h)
  settle_seen-IsOurs m id current (ok o) db v ours h =
      answer-IsOurs o.reason (settled p b o.eligible m id current o db).0 v
        (λ i e. settled-IsOurs o.eligible m id current o db i ours e) h

  verify_pending-IsOurs :
      (network : Option Text) (m : Moment) (between : Db → Db) (id proof : Value)
      (current : InvoiceRecord) (db : Db) (s : Session) (v : InvoiceVerification)
      → IsOurs current
      → (verify_pending p b network m between id proof current db s).0.0 ≡ ok v
      → IsOurs v.invoice
  unfolding verify_pending
  verify_pending-IsOurs none m between id proof current db s v ours h = absurd (refused_ok _ v h)
  verify_pending-IsOurs (some network) m between id proof current db s v ours h =
      settle_seen-IsOurs m id current _ (between db) v ours h

  verify_current-IsOurs :
      (m : Moment) (between : Db → Db) (id proof : Value) (r : Result InvoiceRecord) (db : Db)
      (s : Session) (v : InvoiceVerification)
      → ((i : InvoiceRecord) → r ≡ ok i → IsOurs i)
      → (verify_current p b m between id proof r db s).0.0 ≡ ok v
      → IsOurs v.invoice
  unfolding verify_current
  verify_current-IsOurs m between id proof (err e) db s v ours h = absurd (refused_ok e v h)
  verify_current-IsOurs m between id proof (ok current) db s v ours h =
      elim (Bool-cases (is_pending current.state)) [
        | inl is_open ↦
            verify_pending-IsOurs b.verifier m between id proof current db s v (ours current refl)
              (rw is_open at h)
        | inr closed ↦
            subst IsOurs (ap (λ x. x.invoice) (ok-injective (rw closed at h))) (ours current refl)
      ]

-- `require_paid` returns only an invoice that is paid, belongs to the network of the service and is
-- accepted by the invoice checks, and so has its exact amount, enough confirmations and a payment
-- time before its expiry.
pub require_paid_lem :
    (p : Platform) (b : BillingService) (m : Moment) (id : Value) (db : Db) (r : InvoiceRecord)
    → (require_paid p b m id db).0 ≡ ok r
    → (is_paid r.state ≡ true) × (r.request.network ≡ b.network) × IsValidRecord p r
unfolding require_paid
require_paid_lem p b m id db r h = on_ok (get_invoice p b m id db).0 _ h λ found e1 h1.
    let (same, is_open) = gate-eq-ok p b found r h1 in
    let (valid, network) = get_invoice-IsValidRecord p b m id db r (e1 ∙ ap (λ x. ok x) same) in
    (is_open, network, valid)

-- Whatever becomes of the table while the wallet is asked, and whatever the wallet answers, an
-- invoice that `verify_invoice` returns is accepted by the invoice checks and belongs to the network
-- of the service.
pub verify_invoice_lem :
    (p : Platform) (b : BillingService) (m later : Moment) (between : Db → Db) (id proof : Value)
    (db : Db) (s : Session) (v : InvoiceVerification)
    → (verify_invoice p b m later between id proof db s).0.0 ≡ ok v
    → IsValidRecord p v.invoice × (v.invoice.request.network ≡ b.network)
unfolding verify_invoice
verify_invoice_lem p b m later between id proof db s v h =
    verify_current-IsOurs p b later between id proof (get_invoice p b m id db).0
      (get_invoice p b m id db).1 s v (λ i e. get_invoice-IsValidRecord p b m id db i e) h
