-- ===== src/InvoiceStore/Sql.antt =====
-- The statements of src/myt_machine/invoice_store.py on the table `invoices`, with its constraints.
use myt_machine.Base.{
  ℕ, suc, Bool, true, false, not, ◌&&◌, ◌||◌, Option, none, some, List, [], ◌∷◌, Text, ◌==◌,
  Text_eq, leb, take, any, if◌then◌else◌,
}
use myt_machine.Base.Strings.{text_lt}
use myt_machine.Errors.{invoice_conflict, Result, ok, err}
use myt_machine.Payment.{is_network}
use myt_machine.Invoice.{InvoiceState, paid, expired, is_pending, is_paid}

-- A row, with the types that the schema declares for its columns: SQLite itself would also hold
-- values of other types there.
pub record Row : Type 0 where
  pub invoice_id : Text
  pub network : Text
  pub request : Text
  pub expires_at : ℕ
  pub state : InvoiceState
  pub required_confirmations : ℕ
  pub txid : Option Text
  pub received_atomic : Option Text
  pub confirmations : Option ℕ
  pub paid_at : Option ℕ
  pub idempotency_key : Option Text
  pub creation_fingerprint : Text

abbrev pub Db : Type 0
Db = List Row

-- Equality of two columns of a UNIQUE constraint: NULL is equal to nothing.
unfoldable pub same : Option Text → Option Text → Bool
same (some a) (some b) = a == b
same _ _ = false

-- PRIMARY KEY, UNIQUE(idempotency_key) and UNIQUE(network, txid).
unfoldable pub conflicts : Row → Row → Bool
conflicts a b =
    a.invoice_id == b.invoice_id
    || same a.idempotency_key b.idempotency_key
    || a.network == b.network && same a.txid b.txid

abbrev pub is_some {ℓ} : {A : Type ℓ} → Option A → Bool
is_some none = false
is_some (some _) = true

-- The CHECK constraints.
unfoldable pub checks : Row → Bool
checks r =
    is_network r.network
    && leb 1 r.required_confirmations
    && (is_paid r.state
          && is_some r.txid
          && is_some r.received_atomic
          && is_some r.confirmations
          && is_some r.paid_at
        || not (is_paid r.state)
          && not (is_some r.txid)
          && not (is_some r.received_atomic)
          && not (is_some r.confirmations)
          && not (is_some r.paid_at))

-- `SELECT * FROM invoices WHERE invoice_id=?`
unfoldable pub find_id : Text → Db → Option Row
find_id id [] = none
find_id id (r ∷ rows) = if r.invoice_id == id then some r else find_id id rows

-- `SELECT * FROM invoices WHERE idempotency_key=?`
unfoldable pub find_key : Text → Db → Option Row
find_key k [] = none
find_key k (r ∷ rows) = if same r.idempotency_key (some k) then some r else find_key k rows

insert_by_id : Row → List Row → List Row
insert_by_id r [] = r ∷ []
insert_by_id r (s ∷ rows) =
    if text_lt s.invoice_id r.invoice_id then s ∷ insert_by_id r rows else r ∷ s ∷ rows

sort_by_id : List Row → List Row
unfolding insert_by_id
sort_by_id [] = []
sort_by_id (r ∷ rows) = insert_by_id r (sort_by_id rows)

selected : Text → Text → Db → List Row
selected network after [] = []
selected network after (r ∷ rows) =
    let rest = selected network after rows in
    if r.network == network && text_lt after r.invoice_id then r ∷ rest else rest

-- `WHERE network=? AND invoice_id>? ORDER BY invoice_id LIMIT ?`
unfoldable pub select_page : Text → Text → ℕ → Db → List Row
unfolding selected sort_by_id
select_page network after limit rows = take limit (sort_by_id (selected network after rows))

-- `state='PENDING' AND expires_at<=?`
unfoldable pub is_due : ℕ → Row → Bool
is_due now r = is_pending r.state && leb r.expires_at now

unfoldable pub expire_row : ℕ → Row → Row
expire_row now r = if is_due now r then record r { state = expired } else r

-- `_expire`: the rows after the update, and how many it changed.
unfoldable pub expire_rows : ℕ → Db → Db
expire_rows now [] = []
expire_rows now (r ∷ rows) = expire_row now r ∷ expire_rows now rows

unfoldable pub count_expired : ℕ → Db → ℕ
count_expired now [] = 0
count_expired now (r ∷ rows) =
    let rest = count_expired now rows in if is_due now r then suc rest else rest

-- `INSERT INTO invoices`, where an `IntegrityError` becomes an `InvoiceConflict`.
unfoldable pub insert_row : Row → Db → Result Db
insert_row r rows =
    if checks r && not (any (conflicts r) rows) then ok (r ∷ rows) else err invoice_conflict

-- The columns that `UPDATE invoices SET state='PAID',…` writes.
pub record Payment : Type 0 where
  pub txid : Text
  pub received_atomic : Text
  pub confirmations : ℕ
  pub paid_at : ℕ

unfoldable pub pay_row : Payment → Row → Row
pay_row e r = record r {
  state = paid;
  txid = some e.txid;
  received_atomic = some e.received_atomic;
  confirmations = some e.confirmations;
  paid_at = some e.paid_at;
}

-- `WHERE invoice_id=? AND state='PENDING'`
unfoldable pub is_target : Text → Row → Bool
is_target id r = r.invoice_id == id && is_pending r.state

unfoldable pub pay_rows : Text → Payment → Db → Db
pay_rows id e [] = []
pay_rows id e (r ∷ rows) = (if is_target id r then pay_row e r else r) ∷ pay_rows id e rows

-- A row that holds the transaction already, on the network of the row to be paid.
unfoldable pub holds : Text → Text → Row → Bool
holds network txid r = r.network == network && same r.txid (some txid)

-- The update of one selected row, where an `IntegrityError` becomes an `InvoiceConflict`.
unfoldable pub update_paid : Row → Payment → Db → Result Db
update_paid target e rows =
    if any (holds target.network e.txid) rows
    then err invoice_conflict
    else ok (pay_rows target.invoice_id e rows)
