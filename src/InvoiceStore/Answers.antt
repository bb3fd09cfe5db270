-- ===== src/InvoiceStore/Answers.antt =====
-- What the methods of the store answer: a new invoice that is read later, and a payment.
use myt_machine.Base.{
  ℕ, ◌≡◌, ◌∙◌, sym, ap, subst, true, false, some, Text, ◌==◌, Text_eq, inl, inr, Bool-cases, arith,
  text_eq_iff,
}
use myt_machine.Errors.{
  Error, Result, ok, err, input_error, invoice_conflict, value_error, require, on_ok, ok-injective,
  require-eq-ok, Result-cases,
}
use myt_machine.Json.{Value}
use myt_machine.Validation.{normalize_txid}
use myt_machine.Payment.{
  Platform, PaymentRequest, proof_message, text, parse_payment_request, serialize_payment_request,
  validate_identifier, is_identifier,
}
use myt_machine.Payment.Equal.{request_eq, request_eq_iff}
use myt_machine.Invoice.{is_pending, InvoiceRecord, new_record}
use myt_machine.Invoice.Valid.{IsValidRecord, new_record-eq-ok}
use myt_machine.Observation.{PaymentObservation}
use myt_machine.InvoiceStore.Sql.{Row, Db, find_id, expire_rows, update_paid}
use myt_machine.InvoiceStore.Decode.{decode, decode_row, decode_amount, as_storage_error}
use myt_machine.InvoiceStore.{operate, Moment, with_checked, now_of, fetch, get_body, get}
use myt_machine.InvoiceStore.Finalize.{
  paid_record, payment, check_observation, settle, finalize_body, finalize,
}
use myt_machine.InvoiceStore.Sound.{stored_record}
use myt_machine.InvoiceStore.Change.{transaction-cases}
use myt_machine.InvoiceStore.Methods.{GoesThrough, transaction-ok}

pub refused_ok : {A : Type 0} (e : Error) (a : A) → err e ≡ ok a → ⊥
refused_ok e a h = ground arith

as_storage_error-eq-ok : {A : Type 0} (m : Result A) (a : A) → as_storage_error m ≡ ok a → m ≡ ok a
unfolding as_storage_error
as_storage_error-eq-ok (ok b) a h = h
as_storage_error-eq-ok (err value_error) a h = ground arith
as_storage_error-eq-ok (err e) a h = ground arith

-- Whatever a row holds, a record that decoding returns is one that the invoice checks accept.
pub decode-IsValidRecord :
    (p : Platform) (row : Row) (r : InvoiceRecord) → decode p row ≡ ok r → IsValidRecord p r
unfolding decode decode_row
decode-IsValidRecord p row r h =
    on_ok (parse_payment_request p (text row.request)) _ (as_storage_error-eq-ok _ r h) λ q e1 h1.
      on_ok (serialize_payment_request p q) _ h1 λ s e2 h2.
        on_ok (require _ input_error) _ h2 λ u e3 h3.
          on_ok (decode_amount row.received_atomic) _ h3 λ a e4 h4.
            let (same, valid) = new_record-eq-ok p (stored_record row q a) r h4 in
            subst (IsValidRecord p) (sym same) valid

-- A row that is read back has the state of its record.
pub decode-state :
    (p : Platform) (row : Row) (r : InvoiceRecord) → decode p row ≡ ok r → r.state ≡ row.state
unfolding decode decode_row
decode-state p row r h =
    on_ok (parse_payment_request p (text row.request)) _ (as_storage_error-eq-ok _ r h) λ q e1 h1.
      on_ok (serialize_payment_request p q) _ h1 λ s e2 h2.
        on_ok (require _ input_error) _ h2 λ u e3 h3.
          on_ok (decode_amount row.received_atomic) _ h3
            λ a e4 h4. ap (λ x. x.state) (new_record-eq-ok p (stored_record row q a) r h4).0

get_body_found :
    (p : Platform) (m : Moment) (now : ℕ) (id : Text) (row : Row) (r : InvoiceRecord) (db : Db)
    → now_of m ≡ ok now
    → find_id id (expire_rows now db) ≡ some row
    → decode p row ≡ ok r
    → get_body p m id db ≡ ok (r, expire_rows now db)
unfolding get_body fetch
get_body_found p m now id row r db time found decoded = ground arith

-- `get` of a stored invoice, where the transaction goes through, the ID is well formed and the row
-- can be decoded after the expiry, answers with the decoded row and leaves the table with the due
-- invoices expired.
pub get_found :
    (p : Platform) (m : Moment) (now : ℕ) (id : Text) (row : Row) (r : InvoiceRecord) (db : Db)
    → GoesThrough m now
    → is_identifier id ≡ true
    → find_id id (expire_rows now db) ≡ some row
    → decode p row ≡ ok r
    → get p m (Value.str id) db ≡ (ok r, expire_rows now db)
unfolding get validate_identifier
get_found p m now id row r db through named found decoded = rw named (
    transaction-ok m now through (get_body p m id) db r (expire_rows now db)
      (get_body_found p m now id row r db through.time found decoded))

pair_eq : {A B : Type 0} {a b : A} {c d : B} → a ≡ b → c ≡ d → ◌≡◌ {A = A × B} (a, c) (b, d)
pair_eq e f = λ i. (e i, f i)

-- The value that a transaction returns is its body's.
pub transaction_value :
    {A : Type 0} (m : Moment) (body : Db → Result (A × Db)) (db : Db) (a : A)
    → (operate m body db).0 ≡ ok a
    → (db' : Db) × (body db ≡ ok (a, db'))
transaction_value m body db a h = elim (transaction-cases m body db) [
  | inl (e, failed) ↦ absurd (refused_ok e a (sym (ap (λ t. t.0) failed) ∙ h))
  | inr (b, db', returned, done) ↦
      (db', returned ∙ ap (λ x. ok (x, db')) (ok-injective (sym (ap (λ t. t.0) done) ∙ h)))
]

-- A transaction that returns has the value and the table of its body.
pub transaction-eq-ok :
    {A : Type 0} (m : Moment) (body : Db → Result (A × Db)) (db : Db) (a : A) (db' : Db)
    → operate m body db ≡ (ok a, db')
    → body db ≡ ok (a, db')
transaction-eq-ok m body db a db' h = elim (transaction-cases m body db) [
  | inl (e, failed) ↦ absurd (refused_ok e a (ap (λ t. t.0) (sym failed ∙ h)))
  | inr (b, d, returned, done) ↦
      returned
      ∙ ap ok (pair_eq (ok-injective (ap (λ t. t.0) (sym done ∙ h))) (ap (λ t. t.1) (sym done ∙ h)))
]

check_observation-eq-ok :
    (p : Platform) (request : PaymentRequest) (o : PaymentObservation) (txid : Text)
    → check_observation p request o ≡ ok txid
    → (o.eligible ≡ true) × (proof_message p request ≡ ok o.request_message)
unfolding check_observation
check_observation-eq-ok p request o txid h = on_ok (require o.eligible input_error) _ h λ u e1 h1.
    on_ok (normalize_txid (Value.str o.txid)) _ h1 λ t e2 h2.
      on_ok (proof_message p request) _ h2 λ message e3 h3.
        on_ok (require (o.request_message == message) input_error) _ h3 λ v e4 h4. (
          require-eq-ok _ _ e1,
          e3 ∙ ap ok (sym ((text_eq_iff o.request_message message).0 (require-eq-ok _ _ e4))),
        )

settle-eq-ok :
    (p : Platform) (row : Row) (current : InvoiceRecord) (txid : Text) (o : PaymentObservation)
    (now : ℕ) (rows : Db) (r : InvoiceRecord) (db' : Db)
    → settle p row current txid o now rows ≡ ok (r, db')
    → (r ≡ paid_record current txid o now) × IsValidRecord p r
unfolding settle
settle-eq-ok p row current txid o now rows r db' h =
    on_ok (new_record p (paid_record current txid o now)) _ h λ made e1 h1.
      on_ok (update_paid row (payment txid o now) rows) _ h1 λ rows' e2 h2.
        let (same, valid) = new_record-eq-ok p (paid_record current txid o now) made e1 in
        let returned = ap (λ t. t.0) (ok-injective h2) in
        (sym returned ∙ same, subst (IsValidRecord p) (sym same ∙ returned) valid)

finalize_body-eq-ok :
    (p : Platform) (m : Moment) (request : PaymentRequest) (o : PaymentObservation) (txid : Text)
    (db : Db) (r : InvoiceRecord)
    → (db' : Db) × (finalize_body p m request o txid db ≡ ok (r, db'))
    → (r.request ≡ request) × (is_pending r.state ≡ false) × IsValidRecord p r
unfolding finalize_body is_pending
finalize_body-eq-ok p m request o txid db r (db', h) = on_ok (now_of m) _ h λ now e1 h1.
    on_ok (fetch request.invoice_id (expire_rows now db)) _ h1 λ row e2 h2.
      on_ok (decode p row) _ h2 λ current e3 h3.
        on_ok (require (request_eq current.request request) invoice_conflict) _ h3 λ u e4 h4.
          let same = (request_eq_iff current.request request).0 (require-eq-ok _ _ e4) in
          elim (Bool-cases (is_pending current.state)) [
            | inl is_open ↦
                let (paid_now, valid) =
                  settle-eq-ok p row current txid o now (expire_rows now db) r db'
                    (rw is_open at h4) in
                (ap (λ t. t.request) paid_now ∙ same, ap (λ t. is_pending t.state) paid_now, valid)
            | inr closed ↦
                let returned = ap (λ t. t.0) (ok-injective (rw closed at h4)) in
                (
                  ap (λ t. t.request) (sym returned) ∙ same,
                  ap (λ t. is_pending t.state) (sym returned) ∙ closed,
                  subst (IsValidRecord p) returned (decode-IsValidRecord p row current e3),
                )
          ]

-- `_finalize` returns only for eligible evidence with the message of this very request, and the
-- record that it returns has this request, is accepted by the invoice checks and is not pending.
pub finalize_lem :
    (p : Platform) (m : Moment) (request : PaymentRequest) (o : PaymentObservation) (db : Db)
    (r : InvoiceRecord)
    → (finalize p m request o db).0 ≡ ok r
    → (o.eligible ≡ true)
      × (proof_message p request ≡ ok o.request_message)
      × (r.request ≡ request)
      × (is_pending r.state ≡ false)
      × IsValidRecord p r
unfolding finalize
finalize_lem p m request o db r h = elim (Result-cases (check_observation p request o)) [
  | inr (e, refused) ↦ absurd (
      refused_ok e r (
        sym (
          ap
            (λ (c : Result Text).
              (with_checked c (λ txid. operate m (finalize_body p m request o txid)) db).0)
            refused)
        ∙ h))
  | inl (txid, checked) ↦
      let (eligible, message) = check_observation-eq-ok p request o txid checked in
      let (same, closed, valid) = finalize_body-eq-ok p m request o txid db r (
        transaction_value m (finalize_body p m request o txid) db r (
          sym (
            ap
              (λ (c : Result Text).
                (with_checked c (λ txid. operate m (finalize_body p m request o txid)) db).0)
              checked)
          ∙ h)) in
      (eligible, message, same, closed, valid)
]
