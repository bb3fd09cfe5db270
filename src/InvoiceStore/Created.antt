-- ===== src/InvoiceStore/Created.antt =====
-- A new invoice of the store, read by `get` at a later time.
use myt_machine.Base.{
  ℕ, ◌≡◌, ◌≤◌, refl, ◌∙◌, sym, ap, subst, ◌&&◌, none, some, ◌∷◌, Text_eq, inl, inr, Bool-cases,
  arith, if◌then◌else◌, text_eq_iff, ltb, leb, length,
}
use myt_machine.Errors.{
  Result, ok, input_error, invoice_storage_error, require, on_ok, ok-injective,
}
use myt_machine.Json.{Value}
use myt_machine.Payment.{Platform, PaymentRequest, bounded_int, serialize_payment_request}
use myt_machine.Payment.Valid.{IsValid, bounded_int-eq-ok}
use myt_machine.Payment.RoundTrip.{IsFaithful, serialize-IsValid, serialize-eq-ok}
use myt_machine.Invoice.{
  InvoiceState, is_pending, InvoiceRecord, pending, expired, max_confirmations, new_record,
}
use myt_machine.Invoice.Valid.{HasEvidence, new_record-eq-ok}
use myt_machine.InvoiceStore.Sql.{Db, find_id, expire_row, expire_rows, insert_row, is_due}
use myt_machine.InvoiceStore.Decode.{decode}
use myt_machine.InvoiceStore.{
  operate, Moment, with_checked, now_of, Creation, check_creation, new_row, pending_record,
  validate_fingerprint, optional_identifier, find_previous, create_new, create_body, create, get,
}
use myt_machine.InvoiceStore.Rows.{insert_row-eq-ok}
use myt_machine.InvoiceStore.Sound.{IsSound, decode-IsSound}
use myt_machine.InvoiceStore.Methods.{GoesThrough}
use myt_machine.InvoiceStore.Answers.{get_found, transaction-eq-ok}

-- The state that an unpaid invoice is read in.
abbrev pub state_at : ℕ → PaymentRequest → InvoiceState
state_at now request = if leb request.expires_at now then expired else pending

module _ (p : Platform) (max_invoices : ℕ) (request : PaymentRequest)
    (required fingerprint key : Value) (c : Creation)
    (checked : check_creation p request required fingerprint key ≡ ok c)
    (faithful : IsFaithful p request) where
  creation_facts :
      (c.request ≡ request)
      × (c.encoded ≡ faithful.encoded)
      × IsValid p request
      × (1 ≤ c.required_confirmations)
      × (c.required_confirmations ≤ max_confirmations)
  unfolding check_creation
  creation_facts = on_ok (serialize_payment_request p request) _ checked λ encoded e1 h1.
      on_ok (bounded_int required 1 max_confirmations) _ h1 λ n e2 h2.
        on_ok (validate_fingerprint fingerprint) _ h2 λ f e3 h3.
          on_ok (optional_identifier key) _ h3 λ k e4 h4.
            let same = sym (ok-injective h4) in
            let valid = serialize-eq-ok p request encoded e1 in
            let (v, low, high) = bounded_int-eq-ok required 1 max_confirmations n e2 in
            (
              ap (λ t. t.request) same,
              ap (λ t. t.encoded) same
                  ∙ ok-injective (sym e1 ∙ serialize-IsValid p request faithful valid),
              valid,
              subst (λ t. 1 ≤ t) (sym (ap (λ t. t.required_confirmations) same)) low,
              subst (λ t. t ≤ max_confirmations) (sym (ap (λ t. t.required_confirmations) same))
                  high,
            )

  unpaid_row :
      (s : InvoiceState)
      → HasEvidence s request c.required_confirmations none none none none
      → decode p (record (new_row c) { state = s })
        ≡ ok (record (pending_record request c.required_confirmations) { state = s })
  unpaid_row s evidence =
      let (same, encoded, valid, low, high) = creation_facts in
      let sound : IsSound p (record (new_row c) { state = s }) = record {
        request = request;
        received = none;
        faithful = faithful;
        stored = encoded;
        named = ap (λ t. t.invoice_id) same;
        networked = ap (λ t. t.network) same;
        expires = ap (λ t. t.expires_at) same;
        amount = refl;
        valid = record { request = valid; required = (low, high); evidence = evidence };
      } in
      decode-IsSound p (record (new_row c) { state = s }) sound

  is_due-new_row : (later : ℕ) → is_due later (new_row c) ≡ leb request.expires_at later
  unfolding is_due is_pending
  is_due-new_row later = ap (λ t. leb t.expires_at later) creation_facts.0

  later_row :
      (later : ℕ)
      → decode p (expire_row later (new_row c))
        ≡ ok (record (pending_record request c.required_confirmations) {
          state = state_at later request;
        })
  unfolding expire_row
  later_row later = elim (Bool-cases (leb request.expires_at later)) [
    | inl due ↦ rw (is_due-new_row later, due) (unpaid_row expired tt)
    | inr kept ↦ rw (is_due-new_row later, kept) (unpaid_row pending tt)
  ]

  create_body-fresh :
      (m : Moment) (now : ℕ) (db : Db)
      → now_of m ≡ ok now
      → find_previous c.idempotency_key (expire_rows now db) ≡ none
      → create_body p max_invoices m c db ≡ create_new p max_invoices c now (expire_rows now db)
  unfolding create_body
  create_body-fresh m now db time fresh = ground arith

  create_new-eq-ok :
      (now : ℕ) (db db' : Db) (r : InvoiceRecord)
      → create_new p max_invoices c now (expire_rows now db) ≡ ok (r, db')
      → (r ≡ pending_record request c.required_confirmations)
        × (db' ≡ new_row c ∷ expire_rows now db)
  unfolding create_new
  create_new-eq-ok now db db' r h =
      on_ok (require (leb c.request.created_at now && ltb now c.request.expires_at) input_error) _ h
        λ u e1 h1.
          on_ok (require (ltb (length (expire_rows now db)) max_invoices) invoice_storage_error) _
            h1
            λ v e2 h2. on_ok (insert_row (new_row c) (expire_rows now db)) _ h2 λ rows e3 h3.
              on_ok (new_record p (pending_record c.request c.required_confirmations)) _ h3
                λ made e4 h4.
                  let returned = ok-injective h4 in
                  (
                    sym (ap (λ t. t.0) returned)
                        ∙ (new_record-eq-ok p (pending_record c.request c.required_confirmations)
                            made e4).0
                        ∙ ap (λ t. pending_record t c.required_confirmations) creation_facts.0,
                    sym (ap (λ t. t.1) returned)
                        ∙ sym (insert_row-eq-ok (new_row c) (expire_rows now db) rows e3).0,
                  )

  find_id-new_row :
      (later : ℕ) (rows : Db)
      → find_id request.invoice_id (expire_rows later (new_row c ∷ rows))
        ≡ some (expire_row later (new_row c))
  unfolding find_id expire_rows expire_row
  find_id-new_row later rows =
      let same = ap (λ t. t.invoice_id) creation_facts.0 in
      ground (arith, text_eq_iff c.request.invoice_id request.invoice_id)

  -- What `create` leaves behind where the idempotency key is not in use.
  create-eq-ok :
      (m : Moment) (now : ℕ) (db db' : Db) (r : InvoiceRecord)
      → now_of m ≡ ok now
      → find_previous c.idempotency_key (expire_rows now db) ≡ none
      → create p max_invoices m request required fingerprint key db ≡ (ok r, db')
      → (r ≡ pending_record request c.required_confirmations)
        × (db' ≡ new_row c ∷ expire_rows now db)
  unfolding create
  create-eq-ok m now db db' r time fresh made =
      let returned =
        ap
          (λ (t : Result Creation).
            with_checked t (λ c. operate m (create_body p max_invoices m c)) db)
          checked in
      create_new-eq-ok now db db' r (
        sym (create_body-fresh m now db time fresh)
        ∙ transaction-eq-ok m (create_body p max_invoices m c) db r db' (sym returned ∙ made))

  -- An invoice that `create` has made, where its arguments pass their checks, its key was not in
  -- use and `json` reads back the request, is read by a later `get` whose transaction goes through,
  -- with the terms it was made with: as pending before its expiry, and as expired from then on.
  pub get-create :
      (m : Moment) (now : ℕ) (m' : Moment) (later : ℕ) (db db' : Db) (r : InvoiceRecord)
      → now_of m ≡ ok now
      → find_previous c.idempotency_key (expire_rows now db) ≡ none
      → create p max_invoices m request required fingerprint key db ≡ (ok r, db')
      → GoesThrough m' later
      → get p m' (Value.str request.invoice_id) db'
        ≡ (ok (record r { state = state_at later request }), expire_rows later db')
  get-create m now m' later db db' r time fresh made through =
      let (as_made, stored) = create-eq-ok m now db db' r time fresh made in
      subst
        (λ d.
          get p m' (Value.str request.invoice_id) d
          ≡ (ok (record r { state = state_at later request }), expire_rows later d))
        (sym stored)
        (subst
          (λ (x : InvoiceRecord).
            get p m' (Value.str request.invoice_id) (new_row c ∷ expire_rows now db) ≡ (
              ok (record x { state = state_at later request }),
              expire_rows later (new_row c ∷ expire_rows now db),
            ))
          (sym as_made)
          (get_found p m' later request.invoice_id (expire_row later (new_row c)) _
            (new_row c ∷ expire_rows now db) through creation_facts.2.identifier
            (find_id-new_row later (expire_rows now db)) (later_row later)))
