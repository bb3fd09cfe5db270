-- ===== src/InvoiceStore/Finalize.antt =====
-- `SQLiteInvoiceStore._finalize` of src/myt_machine/invoice_store.py, and any of the store's
-- operations as one value.
use myt_machine.Base.{ℕ, List, [], ◌∷◌, Text, ◌==◌, Text_eq, some, if◌then◌else◌}
use myt_machine.Errors.{input_error, invoice_conflict, Result, ok, ◌>>=◌, ◌>>◌, require}
use myt_machine.Json.{Value}
use myt_machine.Amounts.{decimal}
use myt_machine.Validation.{normalize_txid}
use myt_machine.Payment.{Platform, PaymentRequest, proof_message}
use myt_machine.Payment.Equal.{request_eq}
use myt_machine.Invoice.{paid, is_pending, InvoiceRecord, new_record}
use myt_machine.Observation.{PaymentObservation}
use myt_machine.InvoiceStore.Sql.{Row, Db, Payment, expire_rows, update_paid}
use myt_machine.InvoiceStore.Decode.{decode}
use myt_machine.InvoiceStore.{
  operate, Moment, with_checked, now_of, fetch, create, get, list, expire,
}

-- The record of an invoice that is paid now.
abbrev pub paid_record : InvoiceRecord → Text → PaymentObservation → ℕ → InvoiceRecord
paid_record current txid o now = record {
  request = current.request;
  state = paid;
  required_confirmations = current.required_confirmations;
  txid = some txid;
  received_atomic = some o.received_atomic;
  confirmations = some o.confirmations;
  paid_at = some now;
}

abbrev pub payment : Text → PaymentObservation → ℕ → Payment
payment txid o now = record {
  txid = txid;
  received_atomic = decimal o.received_atomic;
  confirmations = o.confirmations;
  paid_at = now;
}

module _ (p : Platform) where
  unfoldable pub check_observation : PaymentRequest → PaymentObservation → Result Text
  check_observation request o = do
    require o.eligible input_error
    txid ← normalize_txid (Value.str o.txid)
    message ← proof_message p request
    require (o.request_message == message) input_error
    ok txid

  -- The part of `_finalize` that pays a pending invoice.
  unfoldable pub settle :
      Row → InvoiceRecord → Text → PaymentObservation → ℕ → Db → Result (InvoiceRecord × Db)
  settle row current txid o now rows = do
    r ← new_record p (paid_record current txid o now)
    rows' ← update_paid row (payment txid o now) rows
    ok (r, rows')

  unfoldable pub finalize_body :
      Moment → PaymentRequest → PaymentObservation → Text → Db → Result (InvoiceRecord × Db)
  finalize_body m request o txid db = do
    now ← now_of m
    let rows = expire_rows now db
    row ← fetch request.invoice_id rows
    current ← decode p row
    require (request_eq current.request request) invoice_conflict
    if is_pending current.state then settle row current txid o now rows else ok (current, rows)

  unfoldable pub finalize :
      Moment → PaymentRequest → PaymentObservation → Db → Result InvoiceRecord × Db
  finalize m request o =
      with_checked (check_observation request o) λ txid. operate m (finalize_body m request o txid)

-- One call of a method of the store.
pub data Operation : Type 0 where
  create_op : Moment → PaymentRequest → Value → Value → Value → Operation
  get_op : Moment → Value → Operation
  list_op : Moment → Value → Value → Value → Operation
  expire_op : Moment → Operation
  finalize_op : Moment → PaymentRequest → PaymentObservation → Operation

module _ (p : Platform) (max_invoices : ℕ) where
  -- The database after a call, and after calls one after the other: `BEGIN IMMEDIATE` puts the
  -- transactions of all threads and processes in such an order.
  unfoldable pub run : Operation → Db → Db
  run (create_op m request required fingerprint key) db =
      (create p max_invoices m request required fingerprint key db).1
  run (get_op m id) db = (get p m id db).1
  run (list_op m network limit after) db = (list p m network limit after db).1
  run (expire_op m) db = (expire m db).1
  run (finalize_op m request o) db = (finalize p m request o db).1

  unfoldable pub run_all : List Operation → Db → Db
  run_all [] db = db
  run_all (op ∷ ops) db = run_all ops (run op db)
