-- ===== src/InvoiceStore/Methods.antt =====
-- What the methods of the store answer, and when they leave the table alone.
use myt_machine.Base.{
  ℕ, ◌≡◌, refl, ◌∙◌, sym, ap, true, false, Option, none, some, [], ◌∷◌, Text, ◌==◌, Text_eq, inl,
  inr, Bool-cases, arith, if◌then◌else◌,
}
use mathlib.Core.Option
use myt_machine.Errors.{Error, Result, ok, err, invoice_conflict}
use myt_machine.Json.{Value}
use myt_machine.Payment.{Platform, PaymentRequest, validate_identifier}
use myt_machine.Invoice.{InvoiceRecord}
use myt_machine.InvoiceStore.Sql.{Row, Db, same, find_key, expire_row, expire_rows}
use myt_machine.InvoiceStore.Decode.{decode}
use myt_machine.InvoiceStore.{
  operate, transaction, attempt, rollback, Moment, check_file, with_checked, now_of, Creation,
  check_creation, replay, create_body, create, get, page_arguments, list, expire_body, expire,
}
use myt_machine.InvoiceStore.Finalize.{
  check_observation, finalize, Operation, create_op, get_op, list_op, expire_op, finalize_op, run,
}
use myt_machine.InvoiceStore.Change.{transaction-cases}

-- A transaction that goes through: the file is as it should be, and SQLite opens and commits.
pub record GoesThrough (m : Moment) (now : ℕ) : Type 0 where
  pub file : check_file m ≡ ok tt
  pub begins : m.begins ≡ true
  pub commits : m.commits ≡ true
  pub time : now_of m ≡ ok now

module _ {A : Type 0} (m : Moment) (now : ℕ) (through : GoesThrough m now)
    (body : Db → Result (A × Db)) (db : Db) where
  -- Then the method returns what its body returns, and raises what its body raises.
  pub transaction-ok : (a : A) (db' : Db) → body db ≡ ok (a, db') → operate m body db ≡ (ok a, db')
  unfolding transaction attempt rollback
  transaction-ok a db' h = ground (arith, through.file, through.begins, h, through.commits)

  pub transaction-err : (e : Error) → body db ≡ err e → operate m body db ≡ (err e, db)
  unfolding transaction attempt rollback
  transaction-err e h = ground (arith, through.file, through.begins, h)

-- The error that a call raises, if it raises.
abbrev error_of : {A : Type 0} → Result A → Option Error
error_of (ok a) = none
error_of (err e) = some e

unfoldable pub raised : Platform → ℕ → Operation → Db → Option Error
raised p max_invoices (create_op m request required fingerprint key) db =
    error_of (create p max_invoices m request required fingerprint key db).0
raised p max_invoices (get_op m id) db = error_of (get p m id db).0
raised p max_invoices (list_op m network limit after) db =
    error_of (list p m network limit after db).0
raised p max_invoices (expire_op m) db = error_of (expire m db).0
raised p max_invoices (finalize_op m request o) db = error_of (finalize p m request o db).0

transaction_atomic :
    {A : Type 0} (m : Moment) (body : Db → Result (A × Db)) (db : Db) (e : Error)
    → error_of (operate m body db).0 ≡ some e
    → (operate m body db).1 ≡ db
transaction_atomic m body db e h = elim (transaction-cases m body db) [
  | inl (f, failed) ↦ ap (λ t. t.1) failed
  | inr (a, db', returned, done) ↦ absurd (no_error a (sym (ap (λ t. error_of t.0) done) ∙ h))
]
  where
    no_error : {A : Type 0} (a : A) → error_of (ok a) ≡ some e → ⊥
    no_error a x = ground arith

with_checked_atomic :
    {A B : Type 0} (r : Result A) (k : A → Db → Result B × Db) (db : Db) (e : Error)
    → ((a : A) → error_of (k a db).0 ≡ some e → (k a db).1 ≡ db)
    → error_of (with_checked r k db).0 ≡ some e
    → (with_checked r k db).1 ≡ db
with_checked_atomic (ok a) k db e h x = h a x
with_checked_atomic (err f) k db e h x = refl

-- A call that raises, for whatever reason, has changed nothing in the table, not even the invoices
-- that were due to expire.
pub run_atomic :
    (p : Platform) (max_invoices : ℕ) (op : Operation) (db : Db) (e : Error)
    → raised p max_invoices op db ≡ some e
    → run p max_invoices op db ≡ db
unfolding raised run create get list expire finalize
run_atomic p max_invoices (create_op m request required fingerprint key) db e h =
    with_checked_atomic (check_creation p request required fingerprint key) _ db e
      (λ c. transaction_atomic m _ db e) h
run_atomic p max_invoices (get_op m id) db e h =
    with_checked_atomic (validate_identifier id) _ db e (λ i. transaction_atomic m _ db e) h
run_atomic p max_invoices (list_op m network limit after) db e h =
    with_checked_atomic (page_arguments network limit after) _ db e
      (λ t. transaction_atomic m _ db e) h
run_atomic p max_invoices (expire_op m) db e h = transaction_atomic m (expire_body m) db e h
run_atomic p max_invoices (finalize_op m request o) db e h =
    with_checked_atomic (check_observation p request o) _ db e (λ t. transaction_atomic m _ db e) h

-- Expiring invoices leaves their keys alone.
expire_row-key : (n : ℕ) (r : Row) → (expire_row n r).idempotency_key ≡ r.idempotency_key
unfolding expire_row
expire_row-key n r = ground arith

expire_row-fingerprint :
    (n : ℕ) (r : Row) → (expire_row n r).creation_fingerprint ≡ r.creation_fingerprint
unfolding expire_row
expire_row-fingerprint n r = ground arith

find_key-expire_rows :
    (n : ℕ) (k : Text) (rows : Db)
    → find_key k (expire_rows n rows) ≡ Option.map (expire_row n) (find_key k rows)
unfolding find_key expire_rows
find_key-expire_rows n k [] = refl
find_key-expire_rows n k (r ∷ rows) = elim (Bool-cases (same r.idempotency_key (some k))) [
  | inl found ↦ rw (found, ap (λ i. same i (some k)) (expire_row-key n r) ∙ found) refl
  | inr other ↦
      rw (other, ap (λ i. same i (some k)) (expire_row-key n r) ∙ other)
        (find_key-expire_rows n k rows)
]

create_body-again :
    (p : Platform) (max_invoices : ℕ) (m : Moment) (now : ℕ) (c : Creation) (k : Text) (row : Row)
    (db : Db)
    → now_of m ≡ ok now
    → c.idempotency_key ≡ some k
    → find_key k db ≡ some row
    → create_body p max_invoices m c db ≡ replay p c (expire_row now row) (expire_rows now db)
unfolding create_body
create_body-again p max_invoices m now c k row db time keyed found =
    let there = find_key-expire_rows now k db ∙ ap (Option.map (expire_row now)) found in
    ground (arith, there)

replay-equal :
    (p : Platform) (c : Creation) (now : ℕ) (row : Row) (rows : Db) (r : InvoiceRecord)
    → (row.creation_fingerprint == c.creation_fingerprint) ≡ true
    → decode p (expire_row now row) ≡ ok r
    → replay p c (expire_row now row) rows ≡ ok (r, rows)
unfolding replay
replay-equal p c now row rows r equal decoded = ground (arith, expire_row-fingerprint now row)

replay-other :
    (p : Platform) (c : Creation) (now : ℕ) (row : Row) (rows : Db)
    → (row.creation_fingerprint == c.creation_fingerprint) ≡ false
    → replay p c (expire_row now row) rows ≡ err invoice_conflict
unfolding replay
replay-other p c now row rows other = ground (arith, expire_row-fingerprint now row)

-- A `create` whose arguments pass their checks, whose transaction goes through and whose
-- idempotency key is that of a stored row which can be decoded after the expiry, makes no invoice:
-- where the fingerprint is that of the row it answers with the row's invoice as it is now, and
-- otherwise it raises `InvoiceConflict` and the table is as before.
pub create_again :
    (p : Platform) (max_invoices : ℕ) (m : Moment) (now : ℕ) (request : PaymentRequest)
    (required fingerprint key : Value) (c : Creation) (k : Text) (row : Row) (r : InvoiceRecord)
    (db : Db)
    → GoesThrough m now
    → check_creation p request required fingerprint key ≡ ok c
    → c.idempotency_key ≡ some k
    → find_key k db ≡ some row
    → decode p (expire_row now row) ≡ ok r
    → create p max_invoices m request required fingerprint key db ≡ (
        if row.creation_fingerprint == c.creation_fingerprint
        then (ok r, expire_rows now db)
        else (err invoice_conflict, db))
unfolding create
create_again p max_invoices m now request required fingerprint key c k row r db through checked
      keyed found decoded =
    rw checked (elim (Bool-cases (row.creation_fingerprint == c.creation_fingerprint)) [
      | inl equal ↦ rw equal (
          transaction-ok m now through (create_body p max_invoices m c) db r (expire_rows now db) (
            create_body-again p max_invoices m now c k row db through.time keyed found
            ∙ replay-equal p c now row (expire_rows now db) r equal decoded))
      | inr other ↦ rw other (
          transaction-err m now through (create_body p max_invoices m c) db invoice_conflict (
            create_body-again p max_invoices m now c k row db through.time keyed found
            ∙ replay-other p c now row (expire_rows now db) other))
    ])
