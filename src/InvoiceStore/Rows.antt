-- ===== src/InvoiceStore/Rows.antt =====
-- The constraints of the table `invoices` under each statement.
use myt_machine.Base.{
  ℕ, ◌≡◌, refl, ◌∙◌, sym, ap, Bool, true, false, Option, none, some, [], ◌∷◌, Text, ◌==◌, Text_eq,
  text_eq_iff, text_eq_sym, any, arith, inl, inr, Bool-cases, some-injective, subst, or_parts,
}
use myt_machine.Errors.{ok}
use myt_machine.Invoice.{is_pending, is_paid}
use myt_machine.InvoiceStore.Sql.{
  Row, Db, same, conflicts, checks, find_id, is_due, expire_row, expire_rows, insert_row, Payment,
  pay_row, is_target, pay_rows, holds, update_paid,
}

-- Every row meets the CHECK constraints, and no two rows meet in a PRIMARY KEY or UNIQUE column.
abbrev pub IsConsistent : Db → Type 0
IsConsistent [] = Unit
IsConsistent (r ∷ rows) = (checks r ≡ true) × (any (conflicts r) rows ≡ false) × IsConsistent rows

conflicts-expire_row :
    (n : ℕ) (a b : Row) → conflicts (expire_row n a) (expire_row n b) ≡ conflicts a b
unfolding conflicts expire_row
conflicts-expire_row n a b = ground arith

checks-expire_row : (n : ℕ) (r : Row) → checks r ≡ true → checks (expire_row n r) ≡ true
unfolding checks expire_row is_due is_pending is_paid
checks-expire_row n r h = ground arith

any-expire_rows :
    (n : ℕ) (r : Row) (rows : Db)
    → any (conflicts (expire_row n r)) (expire_rows n rows) ≡ any (conflicts r) rows
unfolding expire_rows
any-expire_rows n r [] = refl
any-expire_rows n r (s ∷ rows) =
    ground (arith, conflicts-expire_row n r s, any-expire_rows n r rows)

pub expire_rows-IsConsistent :
    (n : ℕ) (rows : Db) → IsConsistent rows → IsConsistent (expire_rows n rows)
unfolding expire_rows
expire_rows-IsConsistent n [] h = tt
expire_rows-IsConsistent n (r ∷ rows) h =
    (checks-expire_row n r h.0, any-expire_rows n r rows ∙ h.1, expire_rows-IsConsistent n rows h.2)

-- An accepted row is put before the others, meets its checks and conflicts with none of them.
pub insert_row-eq-ok :
    (r : Row) (rows rows' : Db)
    → insert_row r rows ≡ ok rows'
    → (r ∷ rows ≡ rows') × (checks r ≡ true) × (any (conflicts r) rows ≡ false)
unfolding insert_row
insert_row-eq-ok r rows rows' h = ground arith

pub insert_row-IsConsistent :
    (r : Row) (rows rows' : Db)
    → insert_row r rows ≡ ok rows'
    → IsConsistent rows
    → IsConsistent rows'
insert_row-IsConsistent r rows rows' h c =
    let (e, checked, apart) = insert_row-eq-ok r rows rows' h in
    subst IsConsistent e (checked, apart, c)

-- Paying.
abbrev pub has_id : Text → Row → Bool
has_id id r = r.invoice_id == id

checks-pay_row : (e : Payment) (r : Row) → checks r ≡ true → checks (pay_row e r) ≡ true
unfolding checks pay_row is_paid
checks-pay_row e r h = ground arith

pub same_sym : (a b : Option Text) → same a b ≡ same b a
unfolding same
same_sym none none = refl
same_sym none (some t) = refl
same_sym (some s) none = refl
same_sym (some s) (some t) = text_eq_sym s t

-- The paid row is apart from a row that does not hold the transaction, on either side.
conflicts-pay_row_left :
    (e : Payment) (r s : Row)
    → conflicts r s ≡ false
    → holds r.network e.txid s ≡ false
    → conflicts (pay_row e r) s ≡ false
unfolding conflicts pay_row holds
conflicts-pay_row_left e r s h k =
    ground (arith, same_sym s.txid (some e.txid), text_eq_sym r.network s.network)

conflicts-pay_row_right :
    (e : Payment) (r s : Row)
    → conflicts r s ≡ false
    → holds s.network e.txid r ≡ false
    → conflicts r (pay_row e s) ≡ false
unfolding conflicts pay_row holds
conflicts-pay_row_right e r s h k = ground arith

any-pay_row :
    (e : Payment) (r : Row) (rows : Db)
    → any (conflicts r) rows ≡ false
    → any (holds r.network e.txid) rows ≡ false
    → any (conflicts (pay_row e r)) rows ≡ false
any-pay_row e r [] h k = refl
any-pay_row e r (s ∷ rows) h k = ground (arith, conflicts-pay_row_left e r s, any-pay_row e r rows)

-- An update that finds no pending row with the ID changes nothing.
pay_rows_absent :
    (id : Text) (e : Payment) (rows : Db) → any (has_id id) rows ≡ false → pay_rows id e rows ≡ rows
unfolding pay_rows is_target
pay_rows_absent id e [] h = refl
pay_rows_absent id e (r ∷ rows) h = ground (arith, pay_rows_absent id e rows)

-- A row that conflicts with none of the rows shares its ID with none of them.
has_id-conflicts :
    (r : Row) (rows : Db) → any (conflicts r) rows ≡ false → any (has_id r.invoice_id) rows ≡ false
unfolding conflicts
has_id-conflicts r [] h = refl
has_id-conflicts r (s ∷ rows) h =
    ground (arith, has_id-conflicts r rows, text_eq_sym r.invoice_id s.invoice_id)

-- What holds of every row with the ID.
abbrev pub Named : (Row → Type 0) → Text → Db → Type 0
Named P id [] = Unit
Named P id (r ∷ rows) = (has_id id r ≡ true → P r) × Named P id rows

abbrev pub OnNetwork : Text → Text → Db → Type 0
OnNetwork id network = Named (λ r. r.network ≡ network) id

pub is_target_parts :
    (id : Text) (r : Row)
    → is_target id r ≡ true
    → (has_id id r ≡ true) × (is_pending r.state ≡ true)
unfolding is_target
is_target_parts id r h = ground arith

conflicts-pay_rows :
    (id network : Text) (e : Payment) (r : Row) (rows : Db)
    → OnNetwork id network rows
    → any (conflicts r) rows ≡ false
    → holds network e.txid r ≡ false
    → any (conflicts r) (pay_rows id e rows) ≡ false
unfolding pay_rows
conflicts-pay_rows id network e r [] on h k = refl
conflicts-pay_rows id network e r (s ∷ rows) on h k = elim (Bool-cases (is_target id s)) [
  | inl target ↦ rw target (
      ground (
        arith,
        conflicts-pay_row_right e r s,
        ap (λ n. holds n e.txid r) (on.0 (is_target_parts id s target).0) ∙ k,
        conflicts-pay_rows id network e r rows on.1,
      ))
  | inr other ↦ rw other (ground (arith, conflicts-pay_rows id network e r rows on.1))
]

pub pay_rows-IsConsistent :
    (id network : Text) (e : Payment) (rows : Db)
    → OnNetwork id network rows
    → any (holds network e.txid) rows ≡ false
    → IsConsistent rows
    → IsConsistent (pay_rows id e rows)
unfolding pay_rows
pay_rows-IsConsistent id network e [] on k c = tt
pay_rows-IsConsistent id network e (r ∷ rows) on k c = elim (Bool-cases (is_target id r)) [
  | inl target ↦
      let (named, is_open) = is_target_parts id r target in
      let free = ap (λ n. any (holds n e.txid) rows) (on.0 named) ∙ (or_parts _ _ k).1 in
      rw
        (
          target,
          pay_rows_absent id e rows (
              ap (λ i. any (has_id i) rows) (sym ((text_eq_iff r.invoice_id id).0 named))
              ∙ has_id-conflicts r rows c.1),
        )
        (checks-pay_row e r c.0, any-pay_row e r rows c.1 free, c.2)
  | inr other ↦ rw other (
    c.0,
    conflicts-pay_rows id network e r rows on.1 c.1 (or_parts _ _ k).0,
    pay_rows-IsConsistent id network e rows on.1 (or_parts _ _ k).1 c.2,
  )
]

Named-absent :
    (P : Row → Type 0) (id : Text) (rows : Db) → any (has_id id) rows ≡ false → Named P id rows
Named-absent P id [] h = tt
Named-absent P id (r ∷ rows) h =
    ((λ named. absurd (ground arith)), Named-absent P id rows (or_parts _ _ h).1)

-- An ID names one row, so what holds of the row that is found holds of all rows with its ID.
pub Named-find_id :
    (P : Row → Type 0) (id : Text) (t : Row) (rows : Db)
    → P t
    → find_id id rows ≡ some t
    → IsConsistent rows
    → Named P id rows
unfolding find_id
Named-find_id P id t [] good h c = absurd (ground arith)
Named-find_id P id t (r ∷ rows) good h c = elim (Bool-cases (has_id id r)) [
  | inl named ↦ (
    (λ _. subst P (some-injective (sym (rw named at h))) good),
    Named-absent P id rows (
        ap (λ i. any (has_id i) rows) (sym ((text_eq_iff r.invoice_id id).0 named))
        ∙ has_id-conflicts r rows c.1),
  )
  | inr other ↦
      ((λ named. absurd (ground arith)), Named-find_id P id t rows good (rw other at h) c.2)
]

-- A row that is found has the ID that was asked for.
pub find_id-has_id :
    (id : Text) (t : Row) (rows : Db) → find_id id rows ≡ some t → t.invoice_id ≡ id
unfolding find_id
find_id-has_id id t [] h = ground arith
find_id-has_id id t (r ∷ rows) h =
    ground (arith, text_eq_iff r.invoice_id id, find_id-has_id id t rows)

-- What `update_paid` returns.
pub update_paid-eq-ok :
    (t : Row) (e : Payment) (rows rows' : Db)
    → update_paid t e rows ≡ ok rows'
    → (pay_rows t.invoice_id e rows ≡ rows') × (any (holds t.network e.txid) rows ≡ false)
unfolding update_paid
update_paid-eq-ok t e rows rows' h = ground arith

pub update_paid-IsConsistent :
    (id : Text) (t : Row) (e : Payment) (rows rows' : Db)
    → find_id id rows ≡ some t
    → update_paid t e rows ≡ ok rows'
    → IsConsistent rows
    → IsConsistent rows'
update_paid-IsConsistent id t e rows rows' found h c =
    let (same_rows, free) = update_paid-eq-ok t e rows rows' h in
    subst IsConsistent same_rows (
      pay_rows-IsConsistent t.invoice_id t.network e rows
        (subst (λ i. OnNetwork i t.network rows) (sym (find_id-has_id id t rows found))
          (Named-find_id (λ r. r.network ≡ t.network) id t rows refl found c))
        free c)
