-- ===== src/InvoiceStore/Sound.antt =====
-- Rows beside the records that they were written from.
use myt_machine.Base.{
  ℕ, ◌≡◌, ◌≤◌, refl, ◌∙◌, sym, subst, true, ◌&&◌, Option, none, some, [], ◌∷◌, Text, ◌==◌,
  text_eq_iff, ℕ_eq, Text_eq, length, all, All, arith, Bool-cases, inl, inr,
}
use mathlib.Core.Option
use myt_machine.Base.Strings.{is_digit}
use myt_machine.Errors.{ok, >>=-eq-ok, ok-injective}
use myt_machine.Amounts.{uint64_max, decimal}
use myt_machine.Amounts.Decimal.{
  decimal-all, length-decimal, number_from-decimal, is_positive, decimal-is_positive,
}
use myt_machine.Amounts.RoundTrip.{int_of_text-short}
use myt_machine.Payment.{Platform, PaymentRequest, bounded_int, serialize_payment_request}
use myt_machine.Payment.Valid.{bounded_int-eq-ok}
use myt_machine.Payment.RoundTrip.{IsFaithful, parse-encoded, serialize-IsValid, serialize-eq-ok}
use myt_machine.Invoice.{
  InvoiceState, pending, paid, expired, is_pending, InvoiceRecord, max_confirmations, new_record,
}
use myt_machine.Invoice.Valid.{HasEvidence, IsValidRecord, new_record_iff, new_record-eq-ok}
use myt_machine.Observation.{PaymentObservation}
use myt_machine.Json.{Value}
use myt_machine.InvoiceStore.{
  Creation, check_creation, new_row, validate_fingerprint, optional_identifier,
}
use myt_machine.InvoiceStore.Finalize.{paid_record, payment}
use myt_machine.InvoiceStore.Sql.{Row, Db, is_due, expire_row, expire_rows, pay_row}
use myt_machine.InvoiceStore.Decode.{is_amount, decode_amount, decode_row, decode}

abbrev pub stored_record : Row → PaymentRequest → Option ℕ → InvoiceRecord
stored_record row request received = record {
  request = request;
  state = row.state;
  required_confirmations = row.required_confirmations;
  txid = row.txid;
  received_atomic = received;
  confirmations = row.confirmations;
  paid_at = row.paid_at;
}

-- The row was written from a valid record whose request `json` reads back.
pub record IsSound (p : Platform) (row : Row) : Type 0 where
  pub request : PaymentRequest
  pub received : Option ℕ
  pub faithful : IsFaithful p request
  pub stored : row.request ≡ faithful.encoded
  pub named : row.invoice_id ≡ request.invoice_id
  pub networked : row.network ≡ request.network
  pub expires : row.expires_at ≡ request.expires_at
  pub amount : row.received_atomic ≡ Option.map decimal received
  pub valid : IsValidRecord p (stored_record row request received)

is_amount-is_positive :
    (s : Text) → is_positive s ≡ true → all is_digit s ≡ true → length s ≤ 20 → is_amount s ≡ true
unfolding is_amount
is_amount-is_positive [] h d l = ground arith
is_amount-is_positive (c ∷ s) h d l = ground arith

decode_amount-decimal :
    (n : ℕ) → 1 ≤ n → n ≤ uint64_max → decode_amount (some (decimal n)) ≡ ok (some n)
unfolding decode_amount
decode_amount-decimal n h k =
    rw
      (
        is_amount-is_positive (decimal n) (decimal-is_positive n h) (decimal-all n)
            (length-decimal 19 n (omega arith)),
        int_of_text-short (decimal n) (omega (arith, length-decimal 19 n (omega arith))),
        number_from-decimal n,
      )
      refl

-- Payment data has the exact amount of the request.
evidence_amount :
    (s : InvoiceState) (r : PaymentRequest) (required : ℕ) (t : Option Text) (a : ℕ)
    (c d : Option ℕ)
    → HasEvidence s r required t (some a) c d
    → a ≡ r.amount_atomic
evidence_amount paid r required (some t) a (some c) (some d) h = h.1
evidence_amount pending r required none a c d h = absurd h
evidence_amount pending r required (some t) a c d h = absurd h
evidence_amount expired r required none a c d h = absurd h
evidence_amount expired r required (some t) a c d h = absurd h
evidence_amount _ r required t a c d h = absurd h

decode_amount-map :
    (p : Platform) (r : InvoiceRecord)
    → IsValidRecord p r
    → (o : Option ℕ) → r.received_atomic ≡ o
    → decode_amount (Option.map decimal o) ≡ ok o
decode_amount-map p r v none e = unfold decode_amount in refl
decode_amount-map p r v (some a) e =
    let exact =
      evidence_amount r.state r.request r.required_confirmations r.txid a r.confirmations r.paid_at
        (subst
          (λ o.
            HasEvidence r.state r.request r.required_confirmations r.txid o r.confirmations
              r.paid_at)
          e v.evidence) in
    let range = v.request.amount in decode_amount-decimal a (omega arith) (omega arith)

module _ (p : Platform) (row : Row) (s : IsSound p row) where
  columns_agree :
      (s.faithful.encoded == s.faithful.encoded
        && row.invoice_id == s.request.invoice_id
        && row.network == s.request.network
        && row.expires_at == s.request.expires_at)
      ≡ true
  columns_agree = ground (
    arith,
    s.named,
    s.networked,
    s.expires,
    text_eq_iff s.faithful.encoded s.faithful.encoded,
    text_eq_iff row.invoice_id s.request.invoice_id,
    text_eq_iff row.network s.request.network,
  )

  decode_row-IsSound : decode_row p row ≡ ok (stored_record row s.request s.received)
  unfolding decode_row
  decode_row-IsSound =
      rw (s.stored, parse-encoded p s.request s.faithful s.valid.request)
        (rw (serialize-IsValid p s.request s.faithful s.valid.request) (
          rw
            (
              columns_agree,
              s.amount,
              decode_amount-map p (stored_record row s.request s.received) s.valid s.received refl,
            )
            ((new_record_iff p (stored_record row s.request s.received)).1 s.valid)))

  -- A sound row decodes to its record.
  pub decode-IsSound : decode p row ≡ ok (stored_record row s.request s.received)
  unfolding decode
  decode-IsSound = rw decode_row-IsSound refl

-- The row is read back as a valid record with its ID, its state and its payment data.
pub record IsReadable (p : Platform) (row : Row) : Type 0 where
  pub read : InvoiceRecord
  pub decodes : decode p row ≡ ok read
  pub valid : IsValidRecord p read
  pub id : read.request.invoice_id ≡ row.invoice_id
  pub state : read.state ≡ row.state
  pub txid : read.txid ≡ row.txid

pub IsSound-IsReadable : (p : Platform) (row : Row) → IsSound p row → IsReadable p row
IsSound-IsReadable p row s = record {
  read = stored_record row s.request s.received;
  decodes = decode-IsSound p row s;
  valid = s.valid;
  id = sym s.named;
  state = refl;
  txid = refl;
}

due_pending : (n : ℕ) (row : Row) → is_due n row ≡ true → is_pending row.state ≡ true
unfolding is_due
due_pending n row h = ground arith

-- Each statement keeps the rows sound.
none_of_unpaid :
    (s : InvoiceState) (r : PaymentRequest) (n : ℕ) (t : Option Text) (a c d : Option ℕ)
    → is_pending s ≡ true
    → HasEvidence s r n t a c d
    → HasEvidence expired r n t a c d
unfolding is_pending
none_of_unpaid pending r n none none none none h e = e
none_of_unpaid pending r n t a c d h e = absurd e
none_of_unpaid _ r n t a c d h e = ground arith

pub expire_row-IsSound :
    (p : Platform) (n : ℕ) (row : Row) → IsSound p row → IsSound p (expire_row n row)
unfolding expire_row
expire_row-IsSound p n row s = elim (Bool-cases (is_due n row)) [
  | inr kept ↦ rw kept s
  | inl due ↦ rw due (record {
    request = s.request;
    received = s.received;
    faithful = s.faithful;
    stored = s.stored;
    named = s.named;
    networked = s.networked;
    expires = s.expires;
    amount = s.amount;
    valid = record {
      request = s.valid.request;
      required = s.valid.required;
      evidence =
          none_of_unpaid row.state s.request row.required_confirmations row.txid s.received
            row.confirmations row.paid_at (due_pending n row due) s.valid.evidence;
    };
  })
]

pub expire_rows-IsSound :
    (p : Platform) (n : ℕ) (rows : Db) → All (IsSound p) rows → All (IsSound p) (expire_rows n rows)
unfolding expire_rows
expire_rows-IsSound p n [] h = tt
expire_rows-IsSound p n (r ∷ rows) h =
    (expire_row-IsSound p n r h.0, expire_rows-IsSound p n rows h.1)

-- A row that is paid with a record that the constructor accepts.
pub pay_row-IsSound :
    (p : Platform) (row : Row) (s : IsSound p row) (txid : Text) (o : PaymentObservation) (now : ℕ)
    (r : InvoiceRecord)
    → new_record p (paid_record (stored_record row s.request s.received) txid o now) ≡ ok r
    → IsSound p (pay_row (payment txid o now) row)
unfolding pay_row
pay_row-IsSound p row s txid o now r h = record {
  request = s.request;
  received = some o.received_atomic;
  faithful = s.faithful;
  stored = s.stored;
  named = s.named;
  networked = s.networked;
  expires = s.expires;
  amount = refl;
  valid =
      (new_record-eq-ok p (paid_record (stored_record row s.request s.received) txid o now) r h).1;
}

-- The row of a new invoice.
pub new_row-IsSound :
    (p : Platform) (request : PaymentRequest) (required fingerprint key : Value) (c : Creation)
    → IsFaithful p request
    → check_creation p request required fingerprint key ≡ ok c
    → IsSound p (new_row c)
unfolding check_creation
new_row-IsSound p request required fingerprint key c f h =
    let (encoded, e1, h1) = >>=-eq-ok (serialize_payment_request p request) _ h in
    let (n, e2, h2) = >>=-eq-ok (bounded_int required 1 max_confirmations) _ h1 in
    let (fp, e3, h3) = >>=-eq-ok (validate_fingerprint fingerprint) _ h2 in
    let (k, e4, h4) = >>=-eq-ok (optional_identifier key) _ h3 in
    let valid = serialize-eq-ok p request encoded e1 in
    let (v, low, high) = bounded_int-eq-ok required 1 max_confirmations n e2 in
    subst (λ c. IsSound p (new_row c)) (ok-injective h4)
      (record {
        request = request;
        received = none;
        faithful = f;
        stored = ok-injective (sym e1 ∙ serialize-IsValid p request f valid);
        named = refl;
        networked = refl;
        expires = refl;
        amount = refl;
        valid = record { request = valid; required = (low, high); evidence = tt };
      })
