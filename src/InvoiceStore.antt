-- ===== src/InvoiceStore.antt =====
-- src/myt_machine/invoice_store.py: the operations of `SQLiteInvoiceStore` on the table `invoices`.
-- A database is the list of its rows, the latest first. `Sql` has the statements, with the
-- constraints of the schema; this file has the transaction and the methods.
pub mod Sql
pub mod Decode
pub mod Finalize
pub mod Rows
pub mod Sound
pub mod Change
pub mod Step
pub mod Invariant
pub mod History
pub mod Methods
pub mod Answers
pub mod Created
use myt_machine.Base.{
  ℕ, Bool, true, false, not, ◌&&◌, ◌||◌, Option, none, some, List, [], ◌∷◌, Text, ◌==◌, ℕ_eq,
  Text_eq, leb, ltb, length, all, if◌then◌else◌,
}
use mathlib.Core.Option
use myt_machine.Base.Strings.{is_digit}
use myt_machine.Errors.{
  Error, input_error, configuration_error, invoice_conflict, invoice_not_found,
  invoice_storage_error, Result, ok, err, ◌>>=◌, ◌>>◌, require,
}
use myt_machine.Json.{Value}
use myt_machine.Amounts.{decimal}
use myt_machine.Validation.{normalize_txid}
use myt_machine.Payment.{
  Platform, PaymentRequest, bounded_int, nat, unix_time, validate_identifier, validate_network,
  proof_message, serialize_payment_request,
}
use myt_machine.Payment.Equal.{request_eq}
use myt_machine.Invoice.{
  InvoiceState, pending, paid, is_pending, InvoiceRecord, max_confirmations, new_record,
}
use myt_machine.InvoiceStore.Sql.{
  Row, Db, find_id, find_key, select_page, expire_rows, count_expired, insert_row, update_paid,
}
use myt_machine.InvoiceStore.Decode.{decode, decode_all}

-- What `lstat` says of the database file.
pub record FileStatus : Type 0 where
  pub is_regular : Bool
  pub links : ℕ
  pub mode : ℕ

-- What one operation reads from outside: the clock, the file (`none` if it cannot be accessed), the
-- platform, and whether SQLite opens the transaction and commits it.
pub record Moment : Type 0 where
  pub clock : Value
  pub file : Option FileStatus
  pub is_windows : Bool
  pub begins : Bool
  pub commits : Bool

unfoldable pub check_file : Moment → Result (Unit {0})
check_file m = elim m.file [
  | none ↦ err configuration_error
  | some s ↦ do
    require (s.is_regular && s.links == 1) configuration_error
    require (m.is_windows || s.mode == 0o600) configuration_error
]

-- The table after ROLLBACK, from the table at BEGIN and the table that the statements had written.
unfoldable pub rollback : Db → Db → Db
rollback start written = start

-- `_transaction`: COMMIT keeps what the body wrote. The `finally` clause rolls back what was written
-- where the body raises, and where COMMIT raises.
unfoldable pub transaction : {A : Type 0} → Moment → (Db → Result A × Db) → Db → Result A × Db
transaction m body db = elim (check_file m) [
  | err e ↦ (err e, db)
  | ok _ ↦
      if not m.begins
      then (err invoice_storage_error, db)
      else (let (result, written) = body db in
          elim result [
            | err e ↦ (err e, rollback db written)
            | ok a ↦
                if m.commits
                then (ok a, written)
                else (err invoice_storage_error, rollback db written)
          ])
]

-- A method that checks its arguments before it opens the transaction.
abbrev pub with_checked : {A B : Type 0} → Result A → (A → Db → Result B × Db) → Db → Result B × Db
with_checked (ok a) k db = k a db
with_checked (err e) k db = (err e, db)

-- `_now`
unfoldable pub now_of : Moment → Result ℕ
now_of m = unix_time Value.null (some m.clock)

-- `_expire`, which each method executes first: the table with the due invoices expired, or the
-- table as it was where the clock raises.
unfoldable pub sweep : Moment → Db → Db
sweep m db = elim (now_of m) [ ok now ↦ expire_rows now db | err e ↦ db ]

-- The statements of a method: a body that raises has swept the table. What follows the sweep are
-- SELECTs and checks, and one INSERT or UPDATE, which changes nothing where it raises and is followed
-- at most by the constructor of the record, whose checks have passed before.
unfoldable pub attempt : {A : Type 0} → Moment → (Db → Result (A × Db)) → Db → Result A × Db
attempt m body db = elim (body db) [
  | ok (a, written) ↦ (ok a, written)
  | err e ↦ (err e, sweep m db)
]

-- A method's body in a transaction.
abbrev pub operate : {A : Type 0} → Moment → (Db → Result (A × Db)) → Db → Result A × Db
operate m body = transaction m (attempt m body)

unfoldable pub is_fingerprint : Text → Bool
is_fingerprint s = length s == 64 && all (λ c. is_digit c || leb b'a' c && leb c b'f') s

unfoldable pub validate_fingerprint : Value → Result Text
validate_fingerprint (Value.str s) = if is_fingerprint s then ok s else err input_error
validate_fingerprint _ = err input_error

-- An argument that may be `None`.
unfoldable pub optional_identifier : Value → Result (Option Text)
optional_identifier Value.null = ok none
optional_identifier v = do s ← validate_identifier v; ok (some s)

-- The checked arguments of `create`.
pub record Creation : Type 0 where
  pub request : PaymentRequest
  pub encoded : Text
  pub required_confirmations : ℕ
  pub creation_fingerprint : Text
  pub idempotency_key : Option Text

-- `fetchone`, where no row is an invoice that does not exist.
unfoldable pub fetch : Text → Db → Result Row
fetch id rows = elim (find_id id rows) [ none ↦ err invoice_not_found | some row ↦ ok row ]

abbrev pub new_row : Creation → Row
new_row c = record {
  invoice_id = c.request.invoice_id;
  network = c.request.network;
  request = c.encoded;
  expires_at = c.request.expires_at;
  state = pending;
  required_confirmations = c.required_confirmations;
  txid = none;
  received_atomic = none;
  confirmations = none;
  paid_at = none;
  idempotency_key = c.idempotency_key;
  creation_fingerprint = c.creation_fingerprint;
}

abbrev pub pending_record : PaymentRequest → ℕ → InvoiceRecord
pending_record request required = record {
  request = request;
  state = pending;
  required_confirmations = required;
  txid = none;
  received_atomic = none;
  confirmations = none;
  paid_at = none;
}

abbrev pub page_arguments : Value → Value → Value → Result (Text × ℕ × Option Text)
page_arguments network limit after = do
  n ← validate_network network
  l ← bounded_int limit 1 100
  a ← optional_identifier after
  ok (n, l, a)

-- The row of an idempotency key, if there is a key.
abbrev pub find_previous : Option Text → Db → Option Row
find_previous none rows = none
find_previous (some k) rows = find_key k rows

module _ (p : Platform) where
  unfoldable pub check_creation : PaymentRequest → Value → Value → Value → Result Creation
  check_creation request required fingerprint key = do
    encoded ← serialize_payment_request p request
    required' ← bounded_int required 1 max_confirmations
    fingerprint' ← validate_fingerprint fingerprint
    key' ← optional_identifier key
    ok (record {
      request = request;
      encoded = encoded;
      required_confirmations = required';
      creation_fingerprint = fingerprint';
      idempotency_key = key';
    })

  -- The part of `create` after the look-up of the idempotency key.
  unfoldable pub create_new : ℕ → Creation → ℕ → Db → Result (InvoiceRecord × Db)
  create_new max_invoices c now rows = do
    require (leb c.request.created_at now && ltb now c.request.expires_at) input_error
    require (ltb (length rows) max_invoices) invoice_storage_error
    rows' ← insert_row (new_row c) rows
    created ← new_record p (pending_record c.request c.required_confirmations)
    ok (created, rows')

  -- A repeated idempotency key answers with the invoice that it made.
  unfoldable pub replay : Creation → Row → Db → Result (InvoiceRecord × Db)
  replay c previous rows = do
    require (previous.creation_fingerprint == c.creation_fingerprint) invoice_conflict
    r ← decode p previous
    ok (r, rows)

  unfoldable pub create_body : ℕ → Moment → Creation → Db → Result (InvoiceRecord × Db)
  create_body max_invoices m c db = do
    now ← now_of m
    let rows = expire_rows now db
    elim (find_previous c.idempotency_key rows) [
      | none ↦ create_new max_invoices c now rows
      | some previous ↦ replay c previous rows
    ]

  unfoldable pub create :
      ℕ → Moment → PaymentRequest → Value → Value → Value → Db → Result InvoiceRecord × Db
  create max_invoices m request required fingerprint key =
      with_checked (check_creation request required fingerprint key)
        λ c. operate m (create_body max_invoices m c)

  unfoldable pub get_body : Moment → Text → Db → Result (InvoiceRecord × Db)
  get_body m id db = do
    now ← now_of m
    let rows = expire_rows now db
    row ← fetch id rows
    r ← decode p row
    ok (r, rows)

  unfoldable pub get : Moment → Value → Db → Result InvoiceRecord × Db
  get m invoice_id = with_checked (validate_identifier invoice_id) λ id. operate m (get_body m id)

  unfoldable pub list_body : Moment → Text → Text → ℕ → Db → Result (List InvoiceRecord × Db)
  list_body m network after limit db = do
    now ← now_of m
    let rows = expire_rows now db
    records ← decode_all p (select_page network after limit rows)
    ok (records, rows)

  unfoldable pub list : Moment → Value → Value → Value → Db → Result (List InvoiceRecord) × Db
  list m network limit after =
      with_checked (page_arguments network limit after)
        λ (n, l, a). operate m (list_body m n (Option.get_or a []) l)

unfoldable pub expire_body : Moment → Db → Result (ℕ × Db)
expire_body m db = do now ← now_of m; ok (count_expired now db, expire_rows now db)

unfoldable pub expire : Moment → Db → Result ℕ × Db
expire m = operate m (expire_body m)
