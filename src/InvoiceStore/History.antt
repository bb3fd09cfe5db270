-- ===== src/InvoiceStore/History.antt =====
-- What becomes of one stored invoice under the later calls of the store.
use myt_machine.Base.{
  ℕ, ◌≡◌, ◌∙◌, ap, subst, false, some, List, [], ◌∷◌, Text, some-injective, any, inl, inr,
  Bool-cases, arith, if◌then◌else◌, text_eq_iff,
}
use myt_machine.Errors.{ok}
use myt_machine.Payment.{Platform, PaymentRequest}
use myt_machine.Invoice.{is_pending}
use myt_machine.Observation.{PaymentObservation}
use myt_machine.InvoiceStore.Sql.{
  Row, Db, conflicts, find_id, is_due, expire_row, expire_rows, insert_row, is_target, pay_row,
  pay_rows, Payment,
}
use myt_machine.InvoiceStore.{new_row}
use myt_machine.InvoiceStore.Finalize.{payment, Operation, run, run_all}
use myt_machine.InvoiceStore.Rows.{has_id, insert_row-eq-ok, update_paid-eq-ok}
use myt_machine.Json.{Value}
use myt_machine.InvoiceStore.Change.{clock_of, Change, kept, swept, created, settled, run-Change}
use myt_machine.InvoiceStore.Invariant.{any_request}

-- A row keeps its terms, and a row that is paid or expired stays as it is.
pub record Evolves (r s : Row) : Type 0 where
  pub invoice_id : s.invoice_id ≡ r.invoice_id
  pub network : s.network ≡ r.network
  pub request : s.request ≡ r.request
  pub expires_at : s.expires_at ≡ r.expires_at
  pub required_confirmations : s.required_confirmations ≡ r.required_confirmations
  pub idempotency_key : s.idempotency_key ≡ r.idempotency_key
  pub creation_fingerprint : s.creation_fingerprint ≡ r.creation_fingerprint
  pub final : is_pending r.state ≡ false → s ≡ r

Evolves-refl : (r : Row) → Evolves r r
Evolves-refl r = ground arith

Evolves-trans : (r s t : Row) → Evolves r s → Evolves s t → Evolves r t
Evolves-trans r s t a b = record {
  invoice_id = b.invoice_id ∙ a.invoice_id;
  network = b.network ∙ a.network;
  request = b.request ∙ a.request;
  expires_at = b.expires_at ∙ a.expires_at;
  required_confirmations = b.required_confirmations ∙ a.required_confirmations;
  idempotency_key = b.idempotency_key ∙ a.idempotency_key;
  creation_fingerprint = b.creation_fingerprint ∙ a.creation_fingerprint;
  final = λ h. b.final (ap (λ x. is_pending x.state) (a.final h) ∙ h) ∙ a.final h;
}

expire_row-Evolves : (n : ℕ) (r : Row) → Evolves r (expire_row n r)
unfolding expire_row is_due
expire_row-Evolves n r = ground arith

pay_row-Evolves :
    (id : Text) (e : Payment) (r : Row) → Evolves r (if is_target id r then pay_row e r else r)
unfolding is_target pay_row
pay_row-Evolves id e r = ground arith

-- The row with this ID, after a change, has evolved from the row before.
abbrev pub Kept : Text → Row → Db → Type 0
Kept id r db = (s : Row) × (find_id id db ≡ some s) × Evolves r s

expire_rows-Kept :
    (n : ℕ) (id : Text) (r : Row) (rows : Db)
    → find_id id rows ≡ some r
    → Kept id r (expire_rows n rows)
unfolding find_id expire_rows
expire_rows-Kept n id r [] h = absurd (ground arith)
expire_rows-Kept n id r (s ∷ rows) h = elim (Bool-cases (has_id id s)) [
  | inl named ↦
      let same = some-injective (rw named at h) in
      (
        expire_row n r,
        ground (arith, (expire_row-Evolves n s).invoice_id, same),
        expire_row-Evolves n r,
      )
  | inr other ↦
      let (t, found, later) = expire_rows-Kept n id r rows (rw other at h) in
      (t, ground (arith, (expire_row-Evolves n s).invoice_id), later)
]

pay_rows-Kept :
    (k : Text) (e : Payment) (id : Text) (r : Row) (rows : Db)
    → find_id id rows ≡ some r
    → Kept id r (pay_rows k e rows)
unfolding find_id pay_rows
pay_rows-Kept k e id r [] h = absurd (ground arith)
pay_rows-Kept k e id r (s ∷ rows) h = elim (Bool-cases (has_id id s)) [
  | inl named ↦
      let same = some-injective (rw named at h) in
      (
        (if is_target k r then pay_row e r else r),
        ground (arith, (pay_row-Evolves k e s).invoice_id, same),
        pay_row-Evolves k e r,
      )
  | inr other ↦
      let (t, found, later) = pay_rows-Kept k e id r rows (rw other at h) in
      (t, ground (arith, (pay_row-Evolves k e s).invoice_id), later)
]

-- A row that conflicts with none has another ID than any row that is found.
find_id-conflicts :
    (id : Text) (n r : Row) (rows : Db)
    → any (conflicts n) rows ≡ false
    → find_id id rows ≡ some r
    → has_id id n ≡ false
unfolding find_id conflicts
find_id-conflicts id n r [] h f = ground arith
find_id-conflicts id n r (s ∷ rows) h f = ground (
  arith,
  find_id-conflicts id n r rows,
  text_eq_iff n.invoice_id s.invoice_id,
  text_eq_iff s.invoice_id id,
  text_eq_iff n.invoice_id id,
)

insert_row-Kept :
    (n : Row) (id : Text) (r : Row) (rows rows' : Db)
    → insert_row n rows ≡ ok rows'
    → find_id id rows ≡ some r
    → find_id id rows' ≡ some r
unfolding find_id
insert_row-Kept n id r rows rows' h f =
    let (same, checked, apart) = insert_row-eq-ok n rows rows' h in
    subst (λ d. find_id id d ≡ some r) same (rw (find_id-conflicts id n r rows apart f) f)

Change-Kept :
    (p : Platform) (Q : PaymentRequest → Type 0) (F : PaymentRequest → PaymentObservation → Type 0)
    (clock : Value) (db db' : Db) (id : Text) (r : Row)
    → Change p Q F clock db db'
    → find_id id db ≡ some r
    → Kept id r db'
Change-Kept p Q F clock db db' id r (kept e) f =
    (r, subst (λ d. find_id id d ≡ some r) e f, Evolves-refl r)
Change-Kept p Q F clock db db' id r (swept now t e) f =
    subst (Kept id r) e (expire_rows-Kept now id r db f)
Change-Kept p Q F clock db db' id r (created now new required fingerprint key t q checked payable e)
      f =
    let (s, found, later) = expire_rows-Kept now id r db f in
    (s, insert_row-Kept (new_row new) id s (expire_rows now db) db' e found, later)
Change-Kept p Q F clock db db' id r
      (settled now row current txid o rec time allowed found decoded is_open made e) f =
    let (s, there, later) = expire_rows-Kept now id r db f in
    let (t, paid, last) =
      pay_rows-Kept row.invoice_id (payment txid o now) id s (expire_rows now db) there in
    subst (Kept id r) (update_paid-eq-ok row (payment txid o now) (expire_rows now db) db' e).0
      (t, paid, Evolves-trans r s t later last)

-- Whatever calls of the store follow, an invoice that is in the table is still found under its ID,
-- its terms are the same, and if it was paid or expired its row is the same.
pub run_all-Kept :
    (p : Platform) (max_invoices : ℕ) (ops : List Operation) (db : Db) (id : Text) (r : Row)
    → find_id id db ≡ some r
    → (s : Row) × (find_id id (run_all p max_invoices ops db) ≡ some s) × Evolves r s
unfolding run_all
run_all-Kept p max_invoices [] db id r f = (r, f, Evolves-refl r)
run_all-Kept p max_invoices (op ∷ ops) db id r f =
    let (s, found, later) =
      Change-Kept p (λ _. Unit) (λ r o. Unit) (clock_of op) db _ id r
        (run-Change p (λ _. Unit) (λ r o. Unit) max_invoices op db (any_request op)) f in
    let (t, there, last) = run_all-Kept p max_invoices ops (run p max_invoices op db) id s found in
    (t, there, Evolves-trans r s t later last)
