-- ===== src/InvoiceStore/Step.antt =====
-- The store as a transition system: what one call of a method of `SQLiteInvoiceStore` may do to the
-- table, said of the columns of the rows and not of the statements.
use myt_machine.Base.{
  ap, ◌∙◌, ℕ, ◌≡◌, ◌≤◌, ◌<◌, refl, sym, subst, inl, inr, some, [], ◌∷◌, Text, ◌==◌, Text_eq, arith,
  text_eq_iff, Bool-cases, any, true, false,
}
use myt_machine.Payment.{Platform, PaymentRequest, nat}
use myt_machine.Invoice.{InvoiceState, pending, paid, expired, is_pending}
use myt_machine.InvoiceStore.Sql.{
  Row, Db, find_id, conflicts, is_due, expire_row, expire_rows, is_target, pay_row, pay_rows,
}
use myt_machine.InvoiceStore.{new_row}
use myt_machine.InvoiceStore.Finalize.{payment, Operation, create_op, finalize_op, run}
use myt_machine.InvoiceStore.Rows.{
  insert_row-eq-ok, update_paid-eq-ok, is_target_parts, find_id-has_id,
}
use myt_machine.Amounts.{decimal}
use myt_machine.Observation.{PaymentObservation}
use myt_machine.InvoiceStore.Answers.{decode-state}
use myt_machine.InvoiceStore.Change.{
  Change, kept, swept, created, settled, clock_of, Allowed, run-Change,
}

-- The rows of two tables, one by one.
pub data Each (R : Row → Row → Type 0) : Db → Db → Type 0 where
  end_of : Each R [] []
  next_of :
      {r r' : Row} {rows rows' : Db} → R r r' → Each R rows rows' → Each R (r ∷ rows) (r' ∷ rows')

-- The expiry of a row: a pending invoice whose time is over becomes expired, and nothing else changes.
pub data Expires (now : ℕ) (r r' : Row) : Type 0 where
  over :
      r.state ≡ pending → r.expires_at ≤ now → record r { state = expired } ≡ r' → Expires now r r'
  in_time : r.state ≡ pending → now < r.expires_at → r ≡ r' → Expires now r r'
  closed : (is_pending r.state ≡ false) → r ≡ r' → Expires now r r'

-- The payment of an invoice: its pending row gets the four columns, and nothing else changes.
pub data Pays (id : Text) (now : ℕ) (txid amount : Text) (confirmations : ℕ) (r r' : Row)
    : Type 0 where
  pays :
      r.invoice_id ≡ id
      → r.state ≡ pending
      → record r {
        state = paid;
        txid = some txid;
        received_atomic = some amount;
        confirmations = some confirmations;
        paid_at = some now;
      }
        ≡ r'
      → Pays id now txid amount confirmations r r'
  other :
      ((r.invoice_id == id) ≡ true → is_pending r.state ≡ true → ⊥)
      → r ≡ r'
      → Pays id now txid amount confirmations r r'

-- The request that an operation makes an invoice for.
abbrev pub Makes : Operation → PaymentRequest → Type 0
Makes (create_op m request required fingerprint key) r = r ≡ request
Makes _ r = ⊥

-- The request whose invoice an operation pays, and the observation that it pays it with.
abbrev pub Settles : Operation → PaymentRequest → PaymentObservation → Type 0
Settles (finalize_op m request o) r seen = (r ≡ request) × (seen ≡ o)
Settles _ r seen = ⊥

-- One step of an operation.
pub data Step (op : Operation) (db db' : Db) : Type 0 where
  nothing : db ≡ db' → Step op db db'
  expiry : (now : ℕ) → clock_of op ≡ nat now → Each (Expires now) db db' → Step op db db'
  creation :
      (now : ℕ) (swept_rows : Db) (request : PaymentRequest) (new : Row)
      → clock_of op ≡ nat now
      → Makes op request
      → Each (Expires now) db swept_rows
      → (new.invoice_id ≡ request.invoice_id)
        × (new.network ≡ request.network)
        × (new.expires_at ≡ request.expires_at)
        × (new.state ≡ pending)
      → (request.created_at ≤ now) × (now < request.expires_at)
      → any (conflicts new) swept_rows ≡ false
      → new ∷ swept_rows ≡ db'
      → Step op db db'
  settlement :
      (now : ℕ) (swept_rows : Db) (row : Row) (request : PaymentRequest) (o : PaymentObservation)
      (txid : Text)
      → clock_of op ≡ nat now
      → Settles op request o
      → Each (Expires now) db swept_rows
      → find_id request.invoice_id swept_rows ≡ some row
      → row.state ≡ pending
      → Each
          (Pays request.invoice_id now txid (decimal o.received_atomic) o.confirmations)
          swept_rows
          db'
      → Step op db db'

pending_state : (s : InvoiceState) → is_pending s ≡ true → s ≡ pending
unfolding is_pending
pending_state pending h = refl
pending_state _ h = ground arith

due_parts :
    (now : ℕ) (r : Row) → is_due now r ≡ true → (is_pending r.state ≡ true) × (r.expires_at ≤ now)
unfolding is_due
due_parts now r h = ground arith

later_of :
    (now : ℕ) (r : Row) → is_due now r ≡ false → is_pending r.state ≡ true → now < r.expires_at
unfolding is_due
later_of now r h k = ground arith

expire_row-Expires : (now : ℕ) (r : Row) → Expires now r (expire_row now r)
unfolding expire_row
expire_row-Expires now r = elim (Bool-cases (is_due now r)) [
  | inl due ↦
      let (open_row, time) = due_parts now r due in
      rw due (over (pending_state r.state open_row) time refl)
  | inr not_due ↦ elim (Bool-cases (is_pending r.state)) [
    | inl open_row ↦
        rw not_due (in_time (pending_state r.state open_row) (later_of now r not_due open_row) refl)
    | inr shut ↦ rw not_due (closed shut refl)
  ]
]

expire_rows-Expires : (now : ℕ) (rows : Db) → Each (Expires now) rows (expire_rows now rows)
unfolding expire_rows
expire_rows-Expires now [] = end_of
expire_rows-Expires now (r ∷ rows) =
    next_of (expire_row-Expires now r) (expire_rows-Expires now rows)

not_target :
    (id : Text) (r : Row)
    → is_target id r ≡ false
    → (r.invoice_id == id) ≡ true
    → is_pending r.state ≡ true
    → ⊥
unfolding is_target
not_target id r h a b = ground arith

pay_row-Pays :
    (id : Text) (txid : Text) (o : PaymentObservation) (now : ℕ) (r : Row)
    → is_target id r ≡ true
    → Pays id now txid
        (decimal o.received_atomic)
        o.confirmations
        r
        (pay_row (payment txid o now) r)
unfolding pay_row
pay_row-Pays id txid o now r h =
    let (named, open_row) = is_target_parts id r h in
    pays ((text_eq_iff r.invoice_id id).0 named) (pending_state r.state open_row) refl

pay_rows-Pays :
    (id : Text) (txid : Text) (o : PaymentObservation) (now : ℕ) (rows : Db)
    → Each
        (Pays id now txid (decimal o.received_atomic) o.confirmations)
        rows
        (pay_rows id (payment txid o now) rows)
unfolding pay_rows
pay_rows-Pays id txid o now [] = end_of
pay_rows-Pays id txid o now (r ∷ rows) = elim (Bool-cases (is_target id r)) [
  | inl target ↦
      rw target (next_of (pay_row-Pays id txid o now r target) (pay_rows-Pays id txid o now rows))
  | inr spared ↦
      rw spared (next_of (other (not_target id r spared) refl) (pay_rows-Pays id txid o now rows))
]

module _ (p : Platform) (op : Operation) where
  Change-Step :
      (db db' : Db) → Change p (Makes op) (Settles op) (clock_of op) db db' → Step op db db'
  Change-Step db db' (kept e) = nothing e
  Change-Step db db' (swept now t e) =
      expiry now t (subst (Each (Expires now) db) e (expire_rows-Expires now db))
  Change-Step db db' (created now c required fingerprint key t q checked payable e) =
      let (front, checks_hold, apart) = insert_row-eq-ok (new_row c) (expire_rows now db) db' e in
      creation now (expire_rows now db) c.request (new_row c) t q (expire_rows-Expires now db)
        (refl, refl, refl, refl) payable apart front
  Change-Step db db' (settled now row current txid o r t allowed found decoded is_open made e) =
      let rows = expire_rows now db in
      let id = current.request.invoice_id in
      settlement now rows row current.request o txid t allowed (expire_rows-Expires now db) found
        (sym (decode-state p row current decoded) ∙ pending_state current.state is_open)
        (subst (Each (Pays id now txid (decimal o.received_atomic) o.confirmations) rows)
          (ap (λ i. pay_rows i (payment txid o now) rows) (sym (find_id-has_id id row rows found))
            ∙ (update_paid-eq-ok row (payment txid o now) rows db' e).0)
          (pay_rows-Pays id txid o now rows))

own_request : (op : Operation) → Allowed (Makes op) (Settles op) op
own_request (create_op m request required fingerprint key) = refl
own_request (finalize_op m request o) = (refl, refl)
own_request _ = tt

-- Every call of a method of the store, whether it returns or raises, is one step of the relation
-- `Step` for this call and its clock: the table is as before; or, row by row, the pending invoices
-- whose time is over have become expired and nothing else has changed; or that, and, for a `create`,
-- one new pending invoice of its request stands in front, which is not over and is apart from the
-- others; or that, and, for a finalisation, the pending row of the invoice of its request, which is
-- there, has become paid at the time of the clock with the amount and the confirmations of the
-- observation, in these columns only, and no other row has changed.
pub run-Step :
    (p : Platform) (max_invoices : ℕ) (op : Operation) (db : Db)
    → Step op db (run p max_invoices op db)
run-Step p max_invoices op db =
    Change-Step p op db (run p max_invoices op db)
      (run-Change p (Makes op) (Settles op) max_invoices op db (own_request op))
