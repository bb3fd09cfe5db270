-- ===== src/InvoiceStore/Change.antt =====
-- What a call of the store may do to the table, as a step relation: nothing, mark invoices as
-- expired, and then add one new pending invoice or pay one pending invoice.
use myt_machine.Base.{
  ℕ, ◌≡◌, ◌≤◌, ◌<◌, refl, ◌∙◌, sym, ap, subst, ◌⊎◌, inl, inr, true, ◌&&◌, some, List, [], Text,
  ◌==◌, Text_eq, arith, leb, ltb, length, Bool-cases, Option-cases,
}
use mathlib.Core.Option
use myt_machine.Errors.{
  Error, input_error, invoice_conflict, invoice_storage_error, Result, ok, err, require, on_ok,
  ok-injective, require-eq-ok, Result-cases,
}
use myt_machine.Json.{Value}
use myt_machine.Payment.Valid.{bounded_int-eq-ok}
use myt_machine.Payment.{
  nat, unix_time, max_timestamp, Platform, PaymentRequest, bounded_int, serialize_payment_request,
  validate_identifier,
}
use myt_machine.Payment.Equal.{request_eq, request_eq_iff}
use myt_machine.Invoice.{is_pending, InvoiceRecord, max_confirmations, new_record}
use myt_machine.Observation.{PaymentObservation}
use myt_machine.InvoiceStore.Sql.{
  Row, Db, find_id, select_page, expire_rows, insert_row, update_paid,
}
use myt_machine.InvoiceStore.Decode.{decode, decode_all}
use myt_machine.InvoiceStore.{
  operate, transaction, attempt, rollback, Moment, find_previous, check_file, with_checked, now_of,
  Creation, check_creation, new_row, validate_fingerprint, optional_identifier, pending_record,
  create_new, replay, create_body, create, fetch, get_body, get, list_body, page_arguments, list,
  expire_body, expire,
}
use myt_machine.InvoiceStore.Finalize.{
  paid_record, payment, check_observation, settle, finalize_body, finalize, Operation, create_op,
  get_op, list_op, expire_op, finalize_op, run,
}

-- A transaction raises and leaves the table alone, or it returns what its body returned.
pub transaction-cases :
    {A : Type 0} (m : Moment) (body : Db → Result (A × Db)) (db : Db)
    → ((e : Error) × (operate m body db ≡ (err e, db)))
      ⊎ ((a : A) × (db' : Db) × (body db ≡ ok (a, db')) × (operate m body db ≡ (ok a, db')))
unfolding transaction attempt rollback
transaction-cases m body db = elim (Result-cases (check_file m)) [
  | inr (e, refused) ↦ inl (e, ground arith)
  | inl (u, accepted) ↦ elim (Bool-cases m.begins) [
    | inr closed ↦ inl (invoice_storage_error, ground arith)
    | inl open_now ↦ elim (Result-cases (body db)) [
      | inr (e, raised) ↦ inl (e, ground arith)
      | inl ((a, db'), returned) ↦ elim (Bool-cases m.commits) [
        | inr lost ↦ inl (invoice_storage_error, ground arith)
        | inl done ↦ inr (a, db', returned, ground arith)
      ]
    ]
  ]
]

-- `Q` holds of the requests for which invoices are made, `F` of the requests and observations for
-- which they are paid, and `clock` is what the clock says.
pub data Change (p : Platform) (Q : PaymentRequest → Type 0)
    (F : PaymentRequest → PaymentObservation → Type 0) (clock : Value) (db db' : Db) : Type 0 where
  kept : db ≡ db' → Change p Q F clock db db'
  swept : (now : ℕ) → clock ≡ nat now → expire_rows now db ≡ db' → Change p Q F clock db db'
  created :
      (now : ℕ) (c : Creation) (required fingerprint key : Value)
      → clock ≡ nat now
      → Q c.request
      → check_creation p c.request required fingerprint key ≡ ok c
      → (c.request.created_at ≤ now) × (now < c.request.expires_at)
      → insert_row (new_row c) (expire_rows now db) ≡ ok db'
      → Change p Q F clock db db'
  settled :
      (now : ℕ) (row : Row) (current : InvoiceRecord) (txid : Text) (o : PaymentObservation)
      (r : InvoiceRecord)
      → clock ≡ nat now
      → F current.request o
      → find_id current.request.invoice_id (expire_rows now db) ≡ some row
      → decode p row ≡ ok current
      → is_pending current.state ≡ true
      → new_record p (paid_record current txid o now) ≡ ok r
      → update_paid row (payment txid o now) (expire_rows now db) ≡ ok db'
      → Change p Q F clock db db'

payable :
    (now : ℕ) (r : PaymentRequest)
    → (leb r.created_at now && ltb now r.expires_at) ≡ true
    → (r.created_at ≤ now) × (now < r.expires_at)
payable now r h = ground arith

fetch-eq-ok :
    (id : Text) (rows : Db) (row : Row) → fetch id rows ≡ ok row → find_id id rows ≡ some row
unfolding fetch
fetch-eq-ok id rows row h = ground arith

-- The arguments that were checked are those of the call.
creation-request :
    (p : Platform) (request : PaymentRequest) (required fingerprint key : Value) (c : Creation)
    → check_creation p request required fingerprint key ≡ ok c
    → c.request ≡ request
unfolding check_creation
creation-request p request required fingerprint key c h =
    on_ok (serialize_payment_request p request) _ h λ encoded e1 h1.
      on_ok (bounded_int required 1 max_confirmations) _ h1 λ n e2 h2.
        on_ok (validate_fingerprint fingerprint) _ h2 λ f e3 h3.
          on_ok (optional_identifier key) _ h3
            λ k e4 h4. sym (ap (λ t. t.request) (ok-injective h4))

-- The requests that an operation makes invoices for, and what it pays them with.
abbrev pub Allowed :
    (PaymentRequest → Type 0) → (PaymentRequest → PaymentObservation → Type 0) → Operation → Type 0
Allowed Q F (create_op m request required fingerprint key) = Q request
Allowed Q F (finalize_op m request o) = F request o
Allowed Q F _ = Unit

now_of-clock : (m : Moment) (now : ℕ) → now_of m ≡ ok now → m.clock ≡ nat now
unfolding now_of unix_time
now_of-clock m now h = (bounded_int-eq-ok m.clock 0 max_timestamp now h).0

-- The clock of the transaction of a call.
abbrev pub clock_of : Operation → Value
clock_of (create_op m request required fingerprint key) = m.clock
clock_of (get_op m id) = m.clock
clock_of (list_op m network limit after) = m.clock
clock_of (expire_op m) = m.clock
clock_of (finalize_op m request o) = m.clock

module _ (p : Platform) (Q : PaymentRequest → Type 0)
    (F : PaymentRequest → PaymentObservation → Type 0) where
  -- A call makes a change if the body of its transaction does.
  transaction-Change :
      {A : Type 0} (m : Moment) (body : Db → Result (A × Db)) (db : Db)
      → ((a : A) (db' : Db) → body db ≡ ok (a, db') → Change p Q F m.clock db db')
      → Change p Q F m.clock db (operate m body db).1
  transaction-Change m body db h = elim (transaction-cases m body db) [
    | inl (e, failed) ↦ rw failed (kept refl)
    | inr (a, db', run_body, done) ↦ rw done (h a db' run_body)
  ]

  with_checked-Change :
      {A B : Type 0} (clock : Value) (r : Result A) (k : A → Db → Result B × Db) (db : Db)
      → ((a : A) → r ≡ ok a → Change p Q F clock db (k a db).1)
      → Change p Q F clock db (with_checked r k db).1
  with_checked-Change clock (ok a) k db h = h a refl
  with_checked-Change clock (err e) k db h = kept refl

  get_body-Change :
      (m : Moment) (id : Text) (db : Db) (r : InvoiceRecord) (db' : Db)
      → get_body p m id db ≡ ok (r, db')
      → Change p Q F m.clock db db'
  unfolding get_body
  get_body-Change m id db r db' h = on_ok (now_of m) _ h λ now e1 h1.
      on_ok (fetch id (expire_rows now db)) _ h1 λ row e2 h2.
        on_ok (decode p row) _ h2
          λ rec e3 h3. swept now (now_of-clock m now e1) (ap (λ t. t.1) (ok-injective h3))

  list_body-Change :
      (m : Moment) (network after : Text) (limit : ℕ) (db : Db) (rs : List InvoiceRecord) (db' : Db)
      → list_body p m network after limit db ≡ ok (rs, db')
      → Change p Q F m.clock db db'
  unfolding list_body
  list_body-Change m network after limit db rs db' h = on_ok (now_of m) _ h λ now e1 h1.
      on_ok (decode_all p (select_page network after limit (expire_rows now db))) _ h1
        λ records e2 h2. swept now (now_of-clock m now e1) (ap (λ t. t.1) (ok-injective h2))

  expire_body-Change :
      (m : Moment) (db : Db) (n : ℕ) (db' : Db)
      → expire_body m db ≡ ok (n, db')
      → Change p Q F m.clock db db'
  unfolding expire_body
  expire_body-Change m db n db' h =
      on_ok (now_of m) _ h
        λ now e1 h1. swept now (now_of-clock m now e1) (ap (λ t. t.1) (ok-injective h1))

  create_new-Change :
      (max_invoices : ℕ) (m : Moment) (now : ℕ) (c : Creation) (required fingerprint key : Value)
      (db : Db) (r : InvoiceRecord) (db' : Db)
      → now_of m ≡ ok now
      → Q c.request
      → check_creation p c.request required fingerprint key ≡ ok c
      → create_new p max_invoices c now (expire_rows now db) ≡ ok (r, db')
      → Change p Q F m.clock db db'
  unfolding create_new
  create_new-Change max_invoices m now c required fingerprint key db r db' time q checked h =
      on_ok (require (leb c.request.created_at now && ltb now c.request.expires_at) input_error) _ h
        λ u e1 h1.
          on_ok (require (ltb (length (expire_rows now db)) max_invoices) invoice_storage_error) _
            h1
            λ v e2 h2. on_ok (insert_row (new_row c) (expire_rows now db)) _ h2 λ rows e3 h3.
              on_ok (new_record p (pending_record c.request c.required_confirmations)) _ h3
                λ made e4 h4.
                  created now c required fingerprint key (now_of-clock m now time) q checked
                    (payable now c.request (require-eq-ok _ _ e1))
                    (e3 ∙ ap (λ t. ok t.1) (ok-injective h4))

  replay-rows :
      (c : Creation) (previous : Row) (rows : Db) (r : InvoiceRecord) (db' : Db)
      → replay p c previous rows ≡ ok (r, db')
      → rows ≡ db'
  unfolding replay
  replay-rows c previous rows r db' h =
      on_ok (require (previous.creation_fingerprint == c.creation_fingerprint) invoice_conflict) _ h
        λ u e1 h1. on_ok (decode p previous) _ h1 λ made e2 h2. ap (λ t. t.1) (ok-injective h2)

  create_body-Change :
      (max_invoices : ℕ) (m : Moment) (c : Creation) (required fingerprint key : Value) (db : Db)
      (r : InvoiceRecord) (db' : Db)
      → Q c.request
      → check_creation p c.request required fingerprint key ≡ ok c
      → create_body p max_invoices m c db ≡ ok (r, db')
      → Change p Q F m.clock db db'
  unfolding create_body
  create_body-Change max_invoices m c required fingerprint key db r db' q checked h =
      on_ok (now_of m) _ h λ now e1 h1.
        elim (Option-cases (find_previous c.idempotency_key (expire_rows now db))) [
          | inl fresh ↦
              create_new-Change max_invoices m now c required fingerprint key db r db' e1 q checked
                (rw fresh at h1)
          | inr (previous, again) ↦
              swept now (now_of-clock m now e1)
                (replay-rows c previous (expire_rows now db) r db' (rw again at h1))
        ]

  settle-Change :
      (m : Moment) (now : ℕ) (row : Row) (current : InvoiceRecord) (request : PaymentRequest)
      (txid : Text) (o : PaymentObservation) (db : Db) (r : InvoiceRecord) (db' : Db)
      → now_of m ≡ ok now
      → find_id request.invoice_id (expire_rows now db) ≡ some row
      → decode p row ≡ ok current
      → F request o
      → request_eq current.request request ≡ true
      → is_pending current.state ≡ true
      → settle p row current txid o now (expire_rows now db) ≡ ok (r, db')
      → Change p Q F m.clock db db'
  unfolding settle
  settle-Change m now row current request txid o db r db' time found decoded allowed same is_open
        h =
      on_ok (new_record p (paid_record current txid o now)) _ h λ paid e1 h1.
        on_ok (update_paid row (payment txid o now) (expire_rows now db)) _ h1 λ rows e2 h2.
          settled now row current txid o paid (now_of-clock m now time)
            (subst (λ x. F x o) (sym ((request_eq_iff current.request request).0 same)) allowed)
            (ap (λ (q : PaymentRequest). find_id q.invoice_id (expire_rows now db))
                ((request_eq_iff current.request request).0 same)
              ∙ found)
            decoded is_open e1 (e2 ∙ ap (λ t. ok t.1) (ok-injective h2))

  finalize_body-Change :
      (m : Moment) (request : PaymentRequest) (o : PaymentObservation) (txid : Text) (db : Db)
      (r : InvoiceRecord) (db' : Db)
      → F request o
      → finalize_body p m request o txid db ≡ ok (r, db')
      → Change p Q F m.clock db db'
  unfolding finalize_body
  finalize_body-Change m request o txid db r db' allowed h = on_ok (now_of m) _ h λ now e1 h1.
      on_ok (fetch request.invoice_id (expire_rows now db)) _ h1 λ row e2 h2.
        on_ok (decode p row) _ h2 λ current e3 h3.
          on_ok (require (request_eq current.request request) invoice_conflict) _ h3 λ u e4 h4.
            elim (Bool-cases (is_pending current.state)) [
              | inl is_open ↦
                  settle-Change m now row current request txid o db r db' e1
                    (fetch-eq-ok request.invoice_id (expire_rows now db) row e2) e3 allowed
                    (require-eq-ok _ _ e4) is_open (rw is_open at h4)
              | inr closed ↦
                  swept now (now_of-clock m now e1) (ap (λ t. t.1) (ok-injective (rw closed at h4)))
            ]

  -- Every call is one change, or none.
  pub run-Change :
      (max_invoices : ℕ) (op : Operation) (db : Db)
      → Allowed Q F op
      → Change p Q F (clock_of op) db (run p max_invoices op db)
  unfolding run create get list expire finalize
  run-Change max_invoices (create_op m request required fingerprint key) db q =
      with_checked-Change m.clock (check_creation p request required fingerprint key) _ db
        λ c checked.
          let same = creation-request p request required fingerprint key c checked in
          transaction-Change m (create_body p max_invoices m c) db λ r db' h.
            create_body-Change max_invoices m c required fingerprint key db r db'
              (subst Q (sym same) q)
              (subst (λ t. check_creation p t required fingerprint key ≡ ok c) (sym same) checked) h
  run-Change max_invoices (get_op m id) db q =
      with_checked-Change m.clock (validate_identifier id) _ db
        λ i checked. transaction-Change m (get_body p m i) db (get_body-Change m i db)
  run-Change max_invoices (list_op m network limit after) db q =
      with_checked-Change m.clock (page_arguments network limit after) _ db λ t checked.
        transaction-Change m (list_body p m t.0 (Option.get_or t.2 []) t.1) db
          (list_body-Change m t.0 (Option.get_or t.2 []) t.1 db)
  run-Change max_invoices (expire_op m) db q =
      transaction-Change m (expire_body m) db (expire_body-Change m db)
  run-Change max_invoices (finalize_op m request o) db q =
      with_checked-Change m.clock (check_observation p request o) _ db λ txid checked.
        transaction-Change m (finalize_body p m request o txid) db
          λ r db'. finalize_body-Change m request o txid db r db' q
