-- ===== src/InvoiceStore/Invariant.antt =====
-- Invariants of the table under calls of the store in any order.
use myt_machine.Base.{
  ℕ, ◌≡◌, refl, ◌∙◌, sym, subst, some, List, [], ◌∷◌, Text, All, inl, inr, Bool-cases,
  some-injective, arith,
}
use myt_machine.Errors.{ok, ok-injective}
use myt_machine.Payment.{Platform, PaymentRequest}
use myt_machine.Payment.RoundTrip.{IsFaithful}
use myt_machine.Invoice.{new_record}
use myt_machine.Observation.{PaymentObservation}
use myt_machine.InvoiceStore.Sql.{
  Row, Db, find_id, expire_rows, is_target, pay_row, pay_rows, Payment,
}
use myt_machine.InvoiceStore.{new_row}
use myt_machine.InvoiceStore.Finalize.{
  paid_record, payment, Operation, create_op, finalize_op, run, run_all,
}
use myt_machine.InvoiceStore.Rows.{
  IsConsistent, has_id, Named, Named-find_id, find_id-has_id, is_target_parts,
  expire_rows-IsConsistent, insert_row-eq-ok, insert_row-IsConsistent, update_paid-eq-ok,
  update_paid-IsConsistent,
}
use myt_machine.InvoiceStore.Sound.{
  IsReadable, IsSound-IsReadable, IsSound, decode-IsSound, expire_rows-IsSound, pay_row-IsSound,
  new_row-IsSound,
}
use myt_machine.Json.{Value}
use myt_machine.InvoiceStore.Change.{
  clock_of, Change, kept, swept, created, settled, Allowed, run-Change,
}

-- No condition on the requests.
pub any_request : (op : Operation) → Allowed (λ _. Unit) (λ r o. Unit) op
any_request (create_op m request required fingerprint key) = tt
any_request (finalize_op m request o) = tt
any_request _ = tt

Change-IsConsistent :
    (p : Platform) (Q : PaymentRequest → Type 0) (F : PaymentRequest → PaymentObservation → Type 0)
    (clock : Value) (db db' : Db)
    → Change p Q F clock db db'
    → IsConsistent db
    → IsConsistent db'
Change-IsConsistent p Q F clock db db' (kept e) c = subst IsConsistent e c
Change-IsConsistent p Q F clock db db' (swept now t e) c =
    subst IsConsistent e (expire_rows-IsConsistent now db c)
Change-IsConsistent p Q F clock db db'
      (created now new required fingerprint key t q checked payable e) c =
    insert_row-IsConsistent (new_row new) (expire_rows now db) db' e
      (expire_rows-IsConsistent now db c)
Change-IsConsistent p Q F clock db db'
      (settled now row current txid o r time allowed found decoded is_open made e) c =
    update_paid-IsConsistent current.request.invoice_id row (payment txid o now)
      (expire_rows now db) db' found e (expire_rows-IsConsistent now db c)

-- The paid row is the one that was found.
pay_rows-IsSound :
    (p : Platform) (id : Text) (e : Payment) (t : Row) (rows : Db)
    → Named (λ r. r ≡ t) id rows
    → IsSound p (pay_row e t)
    → All (IsSound p) rows
    → All (IsSound p) (pay_rows id e rows)
unfolding pay_rows
pay_rows-IsSound p id e t [] only s h = tt
pay_rows-IsSound p id e t (r ∷ rows) only s h = (
  elim (Bool-cases (is_target id r)) [
    | inl target ↦
        rw target
          (subst (λ x. IsSound p (pay_row e x)) (sym (only.0 (is_target_parts id r target).0)) s)
    | inr other ↦ rw other h.0
  ],
  pay_rows-IsSound p id e t rows only.1 s h.1,
)

-- The row that an ID finds is among the rows.
find_id-All :
    (P : Row → Type 0) (id : Text) (t : Row) (rows : Db)
    → find_id id rows ≡ some t
    → All P rows
    → P t
unfolding find_id
find_id-All P id t [] h a = absurd (ground arith)
find_id-All P id t (r ∷ rows) h a = elim (Bool-cases (has_id id r)) [
  | inl named ↦ subst P (some-injective (rw named at h)) a.0
  | inr other ↦ find_id-All P id t rows (rw other at h) a.1
]

Change-IsSound :
    (p : Platform) (F : PaymentRequest → PaymentObservation → Type 0) (clock : Value) (db db' : Db)
    → Change p (IsFaithful p) F clock db db'
    → IsConsistent db
    → All (IsSound p) db
    → All (IsSound p) db'
Change-IsSound p F clock db db' (kept e) c a = subst (All (IsSound p)) e a
Change-IsSound p F clock db db' (swept now t e) c a =
    subst (All (IsSound p)) e (expire_rows-IsSound p now db a)
Change-IsSound p F clock db db' (created now new required fingerprint key t q checked payable e) c
      a =
    subst (All (IsSound p)) (insert_row-eq-ok (new_row new) (expire_rows now db) db' e).0 (
      new_row-IsSound p new.request required fingerprint key new q checked,
      expire_rows-IsSound p now db a,
    )
Change-IsSound p F clock db db'
      (settled now row current txid o r time allowed found decoded is_open made e) c a =
    let rows = expire_rows now db in
    let s =
      find_id-All (IsSound p) current.request.invoice_id row rows found
        (expire_rows-IsSound p now db a) in
    let same = ok-injective (sym decoded ∙ decode-IsSound p row s) in
    subst (All (IsSound p)) (update_paid-eq-ok row (payment txid o now) rows db' e).0 (
      pay_rows-IsSound p row.invoice_id (payment txid o now) row rows
        (subst (λ i. Named (λ r. r ≡ row) i rows)
          (sym (find_id-has_id current.request.invoice_id row rows found))
          (Named-find_id (λ r. r ≡ row) current.request.invoice_id row rows refl found
            (expire_rows-IsConsistent now db c)))
        (pay_row-IsSound p row s txid o now r
          (subst (λ x. new_record p (paid_record x txid o now) ≡ ok r) same made))
        (expire_rows-IsSound p now db a))

-- From a consistent table, any calls of the store, in any order and whether they return or raise,
-- leave a consistent table: no two invoices share an ID, an idempotency key, or a transaction on
-- one network, and every row meets the schema's checks.
pub run_all-IsConsistent :
    (p : Platform) (max_invoices : ℕ) (ops : List Operation) (db : Db)
    → IsConsistent db
    → IsConsistent (run_all p max_invoices ops db)
unfolding run_all
run_all-IsConsistent p max_invoices [] db c = c
run_all-IsConsistent p max_invoices (op ∷ ops) db c =
    run_all-IsConsistent p max_invoices ops (run p max_invoices op db) (
      Change-IsConsistent p (λ _. Unit) (λ r o. Unit) (clock_of op) db _
        (run-Change p (λ _. Unit) (λ r o. Unit) max_invoices op db (any_request op)) c)

IsSound-after :
    (p : Platform) (max_invoices : ℕ) (ops : List Operation) (db : Db)
    → All (Allowed (IsFaithful p) (λ r o. Unit)) ops
    → IsConsistent db
    → All (IsSound p) db
    → All (IsSound p) (run_all p max_invoices ops db)
unfolding run_all
IsSound-after p max_invoices [] db q c a = a
IsSound-after p max_invoices (op ∷ ops) db q c a =
    let step = run-Change p (IsFaithful p) (λ r o. Unit) max_invoices op db q.0 in
    IsSound-after p max_invoices ops (run p max_invoices op db) q.1
      (Change-IsConsistent p (IsFaithful p) (λ r o. Unit) (clock_of op) db _ step c)
      (Change-IsSound p (λ r o. Unit) (clock_of op) db _ step c a)

All-IsReadable :
    (p : Platform) (rows : Db) → All (IsSound p) rows → All (λ r. IsSound p r × IsReadable p r) rows
All-IsReadable p [] a = tt
All-IsReadable p (r ∷ rows) a = ((a.0, IsSound-IsReadable p r a.0), All-IsReadable p rows a.1)

-- From a consistent table whose rows are sound, and where `json` reads back the requests for which
-- invoices are made, any calls of the store leave every row sound, and `decode` reads it back: as a
-- record with the row's ID, state and transaction that the invoice checks accept, so that a paid
-- invoice has the exact amount, enough confirmations and a payment time before its expiry.
pub run_all-IsSound :
    (p : Platform) (max_invoices : ℕ) (ops : List Operation) (db : Db)
    → All (Allowed (IsFaithful p) (λ r o. Unit)) ops
    → IsConsistent db
    → All (IsSound p) db
    → All (λ row. IsSound p row × IsReadable p row) (run_all p max_invoices ops db)
run_all-IsSound p max_invoices ops db q c a =
    All-IsReadable p (run_all p max_invoices ops db) (IsSound-after p max_invoices ops db q c a)
