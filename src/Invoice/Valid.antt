-- ===== src/Invoice/Valid.antt =====
-- Which invoice records the constructor of invoices.py accepts.
use myt_machine.Base.{
  ℕ, ◌≡◌, ◌≤◌, ◌<◌, ◌↔◌, refl, Option, none, some, Text, arith, text_eq_iff, map, ap, sym, ◌∙◌,
}
use myt_machine.Base.Strings.{to_lower}
use myt_machine.Errors.{ok, >>=-eq-ok, ok-injective}
use myt_machine.Json.{Value}
use myt_machine.Validation.{normalize_txid}
use myt_machine.Payment.{Platform, PaymentRequest, bounded_int, nat, post_init}
use myt_machine.Payment.Valid.{
  IsValid, post_init-IsValid, post_init_iff, post_init-eq-ok, bounded_int-nat,
  bounded_int-nat_range,
}
use myt_machine.Invoice.{
  max_confirmations, InvoiceState, pending, paid, expired, InvoiceRecord, check_txid,
  check_evidence, new_record,
}

-- The payment data that a state asks for: complete data of an exact payment, confirmed as deeply as
-- required and recorded before the expiry, or none at all.
abbrev pub HasEvidence :
    InvoiceState → PaymentRequest → ℕ → Option Text → Option ℕ → Option ℕ → Option ℕ → Type 0
HasEvidence paid r required (some txid) (some received) (some confirmations) (some paid_at) =
    (normalize_txid (Value.str txid) ≡ ok txid)
    × (received ≡ r.amount_atomic)
    × (required ≤ confirmations)
    × (confirmations ≤ max_confirmations)
    × (r.created_at ≤ paid_at)
    × (paid_at < r.expires_at)
HasEvidence pending r required none none none none = Unit
HasEvidence expired r required none none none none = Unit
HasEvidence _ r required txid received confirmations paid_at = ⊥

pub record IsValidRecord (p : Platform) (r : InvoiceRecord) : Type 0 where
  pub request : IsValid p r.request
  pub required : (1 ≤ r.required_confirmations) × (r.required_confirmations ≤ max_confirmations)
  pub evidence :
      HasEvidence r.state r.request r.required_confirmations r.txid r.received_atomic
        r.confirmations r.paid_at

check_txid_iff : (t : Text) → (check_txid t ≡ ok tt) ↔ (normalize_txid (Value.str t) ≡ ok t)
unfolding check_txid normalize_txid
check_txid_iff t = ground (arith, text_eq_iff (map to_lower t) t)

module _ (p : Platform) (r : PaymentRequest) (required : ℕ) (valid : IsValid p r) where
  evidence_paid :
      (t : Text) (a c d : ℕ)
      → (check_evidence paid r required (some t) (some a) (some c) (some d) ≡ ok tt)
        ↔ HasEvidence paid r required (some t) (some a) (some c) (some d)
  unfolding check_evidence bounded_int
  evidence_paid t a c d = ground (arith, check_txid_iff t, valid.expiry, valid.representable)

  -- The checks on the payment data pass exactly where the description holds.
  evidence_iff :
      (s : InvoiceState) (t : Option Text) (a c d : Option ℕ)
      → (check_evidence s r required t a c d ≡ ok tt) ↔ HasEvidence s r required t a c d
  unfolding check_evidence
  evidence_iff paid (some t) (some a) (some c) (some d) = evidence_paid t a c d
  evidence_iff pending none none none none = ((λ h. tt), (λ h. refl))
  evidence_iff expired none none none none = ((λ h. tt), (λ h. refl))
  evidence_iff _ t a c d = ((λ h. cc), (λ h. absurd h))

-- The constructor of invoice records accepts exactly those whose request is valid, whose number of
-- confirmations is in range and whose payment data is what the state asks for.
pub new_record_iff :
    (p : Platform) (r : InvoiceRecord) → (new_record p r ≡ ok r) ↔ IsValidRecord p r
unfolding new_record
new_record_iff p r = (
  (λ h.
      let (q, eq, h1) = >>=-eq-ok (post_init p r.request) _ h in
      let (n, en, h2) =
        >>=-eq-ok (bounded_int (nat r.required_confirmations) 1 max_confirmations) _ h1 in
      let (u, eu, h3) =
        >>=-eq-ok
          (check_evidence r.state r.request r.required_confirmations r.txid r.received_atomic
            r.confirmations r.paid_at)
          _ h2 in
      let valid = (post_init_iff p r.request).0 (eq ∙ ap ok (post_init-eq-ok p r.request q eq)) in
      record {
        request = valid;
        required = bounded_int-nat_range r.required_confirmations 1 max_confirmations n en;
        evidence =
            (evidence_iff p r.request r.required_confirmations valid r.state r.txid
                r.received_atomic r.confirmations r.paid_at).0
              eu;
      }),
  (λ h.
      rw
        (
          post_init-IsValid p r.request h.request,
          bounded_int-nat r.required_confirmations 1 max_confirmations h.required.0 h.required.1,
          (evidence_iff p r.request r.required_confirmations h.request r.state r.txid
                r.received_atomic r.confirmations r.paid_at).1
              h.evidence,
        )
        refl),
)

-- The constructor returns the record that it checked.
pub new_record-eq-ok :
    (p : Platform) (r q : InvoiceRecord) → new_record p r ≡ ok q → (q ≡ r) × IsValidRecord p r
unfolding new_record
new_record-eq-ok p r q h =
    let (a, e1, h1) = >>=-eq-ok (post_init p r.request) _ h in
    let (n, e2, h2) =
      >>=-eq-ok (bounded_int (nat r.required_confirmations) 1 max_confirmations) _ h1 in
    let (u, e3, h3) =
      >>=-eq-ok
        (check_evidence r.state r.request r.required_confirmations r.txid r.received_atomic
          r.confirmations r.paid_at)
        _ h2 in
    let same = sym (ok-injective h3) in (same, (new_record_iff p r).0 (h ∙ ap ok same))
