-- ===== src/Reputation/Transactions.antt =====
-- Transactions of the evidence store, and the size of what they read (reputation_store.py).
use myt_machine.Base.{
  ℕ, suc, ◌+◌, ◌≡◌, refl, sym, ap, ◌∙◌, subst, List, [], ◌∷◌, Text, Text_eq, ◌⊎◌, inl, inr,
  Bool-cases, length, leb, arith,
}
use myt_machine.Errors.{
  Error, reputation_storage_error, Result, ok, err, ok-injective, on_ok, require, Result-cases,
}
use myt_machine.Payment.{Platform}
use myt_machine.Identity.{Crypto}
use myt_machine.Reputation.Evidence.{
  ArtifactRow, SettlementRow, Entry, insert_by, order_by, decode, decode_settlement,
  decode_artifacts, decode_settlements,
}
use myt_machine.Reputation.Store.{Moment, Db, check_file, transaction, checked, size, read_all}

length-insert_by :
    {A : Type 0} (key : A → Text) (x : A) (xs : List A)
    → length (insert_by key x xs) ≡ suc (length xs)
unfolding insert_by
length-insert_by key x [] = refl
length-insert_by key x (y ∷ ys) = ground (arith, length-insert_by key x ys)

length-order_by : {A : Type 0} (key : A → Text) (xs : List A) → length (order_by key xs) ≡ length xs
unfolding order_by
length-order_by key [] = refl
length-order_by key (x ∷ xs) =
    length-insert_by key x (order_by key xs) ∙ ap suc (length-order_by key xs)

pub refused_call : {A : Type 0} {a : A} {e : Error} → ◌≡◌ {A = Result A} (err e) (ok a) → ⊥
refused_call h = ground arith

-- A transaction raises and leaves the tables alone, or it returns what its body returned.
pub transaction-cases :
    {A : Type 0} (m : Moment) (body : Db → Result (A × Db)) (db : Db)
    → ((e : Error) × (transaction m body db ≡ (err e, db)))
      ⊎ ((a : A) × (db' : Db) × (body db ≡ ok (a, db')) × (transaction m body db ≡ (ok a, db')))
unfolding transaction
transaction-cases m body db = elim (Result-cases (check_file m)) [
  | inr (e, refused) ↦ inl (e, ground arith)
  | inl (u, accepted) ↦ elim (Bool-cases m.begins) [
    | inr closed ↦ inl (reputation_storage_error, ground arith)
    | inl begun ↦ elim (Result-cases (body db)) [
      | inr (e, raised) ↦ inl (e, ground arith)
      | inl ((a, db'), returned) ↦ elim (Bool-cases m.commits) [
        | inr lost ↦ inl (reputation_storage_error, ground arith)
        | inl done ↦ inr (a, db', returned, ground arith)
      ]
    ]
  ]
]

-- What a body that returns keeps true of the tables, the method keeps true whatever it answers.
pub transaction-keeps :
    {A : Type 0} (P : Db → Type 0) (m : Moment) (body : Db → Result (A × Db)) (db : Db)
    → ((a : A) (db' : Db) → body db ≡ ok (a, db') → P db')
    → P db
    → P (transaction m body db).1
transaction-keeps P m body db step s = elim (transaction-cases m body db) [
  | inl (e, failed) ↦ rw failed s
  | inr (a, db', returned, done) ↦ rw done (step a db' returned)
]

pub checked-keeps :
    {A B : Type 0} (P : Db → Type 0) (r : Result A) (method : A → Db → Result B × Db) (db : Db)
    → ((a : A) → P (method a db).1)
    → P db
    → P (checked r method db).1
checked-keeps P (ok a) method db step s = step a
checked-keeps P (err e) method db step s = s

module _ (p : Platform) (c : Crypto) (capacity : ℕ) where
  length-decode_artifacts :
      (rows : List ArtifactRow) (es : List Entry)
      → decode_artifacts p c rows ≡ ok es
      → length es ≡ length rows
  unfolding decode_artifacts
  length-decode_artifacts [] es h = ap length (sym (ok-injective h))
  length-decode_artifacts (row ∷ rows) es h = on_ok (decode p c row) _ h λ e e1 h1.
      on_ok (decode_artifacts p c rows) _ h1 λ rest e2 h2.
        ap length (sym (ok-injective h2)) ∙ ap suc (length-decode_artifacts rows rest e2)

  length-decode_settlements :
      (rows : List SettlementRow) (ss : List SettlementRow)
      → decode_settlements p c rows ≡ ok ss
      → length ss ≡ length rows
  unfolding decode_settlements
  length-decode_settlements [] ss h = ap length (sym (ok-injective h))
  length-decode_settlements (row ∷ rows) ss h = on_ok (decode_settlement p c row) _ h λ s e1 h1.
      on_ok (decode_settlements p c rows) _ h1 λ rest e2 h2.
        ap length (sym (ok-injective h2)) ∙ ap suc (length-decode_settlements rows rest e2)

  pub read_all-size :
      (db : Db) (r : List Entry × List SettlementRow)
      → read_all p c capacity db ≡ ok r
      → length r.0 + length r.1 ≡ size db
  unfolding read_all
  read_all-size db r h =
      on_ok (require (leb (size db) capacity) reputation_storage_error) _ h λ u e1 h1.
        on_ok (decode_artifacts p c (order_by (λ r. r.id) db.artifacts)) _ h1 λ es e2 h2.
          on_ok (decode_settlements p c (order_by (λ r. r.digest) db.settlements)) _ h2 λ ss e3 h3.
            let n = length-decode_artifacts _ es e2 ∙ length-order_by (λ r. r.id) db.artifacts in
            let m =
              length-decode_settlements _ ss e3 ∙ length-order_by (λ r. r.digest) db.settlements in
            subst (λ x. length x.0 + length x.1 ≡ size db) (ok-injective h3) (rw n rw m refl)
