-- ===== src/Payment/Valid.antt =====
-- Which requests the constructor of payment_requests.py accepts, described without its order of
-- checks, and what `create_payment_request` builds.
use myt_machine.Base.{
  ℕ, ◌+◌, ◌-◌, ◌≤◌, ◌<◌, ◌≡◌, refl, subst, ◌↔◌, true, Option, none, some, Text, arith, ◌&&◌, ltb,
  leb, lt→ltb, le→leb, if◌then◌else◌,
}
use myt_machine.Base.Int.{pos, sub_ℕ}
use myt_machine.Errors.{input_error, ok, err, >>=-eq-ok, ok-injective}
use myt_machine.Json.{Value}
use myt_machine.Amounts.{uint64_max}
use myt_machine.Payment.{
  Platform, PaymentRequest, max_timestamp, max_lifetime, bounded_int, is_identifier, is_network,
  is_recipient, validate_identifier, validate_network, validate_recipient, is_bounded_text,
  optional_text, optional, nat, new, post_init, unix_time, create_payment_request,
}

-- An optional text within its limit.
abbrev pub IsText : Platform → ℕ → Option Text → Type 0
IsText p maximum none = Unit
IsText p maximum (some s) = is_bounded_text p maximum s ≡ true

pub record IsValid (p : Platform) (r : PaymentRequest) : Type 0 where
  pub identifier : is_identifier r.invoice_id ≡ true
  pub network : is_network r.network ≡ true
  pub recipient : is_recipient r.network r.recipient_address ≡ true
  pub amount : (1 ≤ r.amount_atomic) × (r.amount_atomic ≤ uint64_max)
  pub expiry : (r.created_at < r.expires_at) × (r.expires_at ≤ r.created_at + max_lifetime)
  pub representable : r.expires_at ≤ max_timestamp
  pub memo : IsText p 1024 r.memo
  pub reference : IsText p 256 r.reference

pub bounded_int-nat : (n lo hi : ℕ) → lo ≤ n → n ≤ hi → bounded_int (nat n) lo hi ≡ ok n
unfolding bounded_int
bounded_int-nat n lo hi h k = ground arith

-- What `bounded_int` accepts is a number in its range.
pub bounded_int-eq-ok :
    (v : Value) (lo hi n : ℕ) → bounded_int v lo hi ≡ ok n → (v ≡ nat n) × (lo ≤ n) × (n ≤ hi)
unfolding bounded_int
bounded_int-eq-ok (Value.int (pos m)) lo hi n h = ground arith
bounded_int-eq-ok _ lo hi n h = ground arith

-- A number that passes the check is in range.
pub bounded_int-nat_range : (m lo hi n : ℕ) → bounded_int (nat m) lo hi ≡ ok n → (lo ≤ m) × (m ≤ hi)
unfolding bounded_int
bounded_int-nat_range m lo hi n h = ground arith

identifier-eq-ok :
    (v : Value) (s : Text)
    → validate_identifier v ≡ ok s
    → (v ≡ Value.str s) × (is_identifier s ≡ true)
unfolding validate_identifier
identifier-eq-ok (Value.str t) s h = ground arith
identifier-eq-ok _ s h = ground arith

network-eq-ok :
    (v : Value) (s : Text) → validate_network v ≡ ok s → (v ≡ Value.str s) × (is_network s ≡ true)
unfolding validate_network
network-eq-ok (Value.str t) s h = ground arith
network-eq-ok _ s h = ground arith

recipient-eq-ok :
    (v : Value) (n s : Text)
    → validate_recipient v n ≡ ok s
    → (v ≡ Value.str s) × (is_recipient n s ≡ true)
unfolding validate_recipient validate_network
recipient-eq-ok (Value.str t) n s h = ground arith
recipient-eq-ok _ n s h = ground arith

module _ (p : Platform) where
  text-eq-ok :
      (v : Value) (maximum : ℕ) (o : Option Text)
      → optional_text p v maximum ≡ ok o
      → (v ≡ optional o) × IsText p maximum o
  unfolding optional_text
  text-eq-ok Value.null maximum none h = (refl, tt)
  text-eq-ok Value.null maximum (some s) h = ground arith
  text-eq-ok (Value.str t) maximum none h = ground arith
  text-eq-ok (Value.str t) maximum (some s) h = ground arith
  text-eq-ok _ maximum o h = ground arith

  text_accepted :
      (maximum : ℕ) (o : Option Text)
      → IsText p maximum o
      → optional_text p (optional o) maximum ≡ ok o
  unfolding optional_text
  text_accepted maximum none h = refl
  text_accepted maximum (some s) h = rw h

  -- The lifetime check is a comparison of the two times.
  lifetime_lem :
      (c e : ℕ)
      → bounded_int (Value.int (sub_ℕ e c)) 1 max_lifetime
        ≡ (if ltb c e && leb e (c + max_lifetime) then ok (e - c) else err input_error)
  unfolding bounded_int
  lifetime_lem c e = ground arith

  lifetime_bounds :
      (c e n : ℕ)
      → bounded_int (Value.int (sub_ℕ e c)) 1 max_lifetime ≡ ok n
      → (c < e) × (e ≤ c + max_lifetime)
  lifetime_bounds c e n h = ground (arith, lifetime_lem c e)

  -- A request that meets the description passes its checks and is returned unchanged.
  pub post_init-IsValid : (r : PaymentRequest) → IsValid p r → post_init p r ≡ ok r
  unfolding post_init new validate_identifier validate_network validate_recipient
  post_init-IsValid r h =
      rw
        (
          h.identifier,
          h.network,
          h.network,
          h.recipient,
          bounded_int-nat r.amount_atomic 1 uint64_max h.amount.0 h.amount.1,
          bounded_int-nat r.created_at 0 max_timestamp (omega arith) (omega arith),
          bounded_int-nat r.expires_at 0 max_timestamp (omega arith) (omega arith),
          lifetime_lem r.created_at r.expires_at,
          lt→ltb r.created_at r.expires_at h.expiry.0,
          le→leb r.expires_at (r.created_at + max_lifetime) h.expiry.1,
          text_accepted 1024 r.memo h.memo,
          text_accepted 256 r.reference h.reference,
        )
        refl

module _ (p : Platform) (i n ra am c e me re : Value) where
  -- The request has these values and meets the description.
  abbrev pub Holds : PaymentRequest → Type 0
  Holds r =
      (i ≡ Value.str r.invoice_id)
      × (n ≡ Value.str r.network)
      × (ra ≡ Value.str r.recipient_address)
      × (am ≡ nat r.amount_atomic)
      × (c ≡ nat r.created_at)
      × (e ≡ nat r.expires_at)
      × (me ≡ optional r.memo)
      × (re ≡ optional r.reference)
      × IsValid p r

  -- The constructor returns only requests that meet the description, with the values given to it.
  pub new-eq-ok : (r : PaymentRequest) → new p i n ra am c e me re ≡ ok r → Holds r
  unfolding new
  new-eq-ok r h =
      let (i', ei, h1) = >>=-eq-ok (validate_identifier i) _ h in
      let (n', en, h2) = >>=-eq-ok (validate_network n) _ h1 in
      let (a', ea, h3) = >>=-eq-ok (validate_recipient ra n') _ h2 in
      let (m', em, h4) = >>=-eq-ok (bounded_int am 1 uint64_max) _ h3 in
      let (c', ec, h5) = >>=-eq-ok (bounded_int c 0 max_timestamp) _ h4 in
      let (e', ee, h6) = >>=-eq-ok (bounded_int e 0 max_timestamp) _ h5 in
      let (l', el, h7) = >>=-eq-ok (bounded_int (Value.int (sub_ℕ e' c')) 1 max_lifetime) _ h6 in
      let (o', eo, h8) = >>=-eq-ok (optional_text p me 1024) _ h7 in
      let (r', er, h9) = >>=-eq-ok (optional_text p re 256) _ h8 in
      let (vi, gi) = identifier-eq-ok i i' ei in
      let (vn, gn) = network-eq-ok n n' en in
      let (va, ga) = recipient-eq-ok ra n' a' ea in
      let (vm, bm, bm2) = bounded_int-eq-ok am 1 uint64_max m' em in
      let (vc, bc, bc2) = bounded_int-eq-ok c 0 max_timestamp c' ec in
      let (ve, be, be2) = bounded_int-eq-ok e 0 max_timestamp e' ee in
      let (vo, go) = text-eq-ok p me 1024 o' eo in
      let (vr, gr) = text-eq-ok p re 256 r' er in
      subst Holds (ok-injective h9) (
        vi,
        vn,
        va,
        vm,
        vc,
        ve,
        vo,
        vr,
        record {
          identifier = gi;
          network = gn;
          recipient = ga;
          amount = (bm, bm2);
          expiry = lifetime_bounds p c' e' l' el;
          representable = be2;
          memo = go;
          reference = gr;
        },
      )

-- `__post_init__` passes exactly on the requests that meet the description `IsValid`.
pub post_init_iff : (p : Platform) (r : PaymentRequest) → (post_init p r ≡ ok r) ↔ IsValid p r
unfolding post_init
post_init_iff p r = (λ h. (new-eq-ok p _ _ _ _ _ _ _ _ r h).8, post_init-IsValid p r)

optional-injective : (a b : Option Text) → optional a ≡ optional b → b ≡ a
optional-injective none none h = refl
optional-injective none (some t) h = ground arith
optional-injective (some s) none h = ground arith
optional-injective (some s) (some t) h = ground arith

-- `__post_init__` changes nothing.
pub post_init-eq-ok : (p : Platform) (r q : PaymentRequest) → post_init p r ≡ ok q → q ≡ r
unfolding post_init
post_init-eq-ok p r q h =
    let (vi, vn, va, vm, vc, ve, vo, vr, valid) = new-eq-ok p _ _ _ _ _ _ _ _ q h in
    ground (arith, optional-injective r.memo q.memo, optional-injective r.reference q.reference)

-- A request that the constructor returns passes the checks that are made again before each use.
pub post_init-new :
    (p : Platform) (i n ra am c e me re : Value) (r : PaymentRequest)
    → new p i n ra am c e me re ≡ ok r
    → post_init p r ≡ ok r
post_init-new p i n ra am c e me re r h =
    post_init-IsValid p r (new-eq-ok p i n ra am c e me re r h).8

-- A request that `create_payment_request` returns is valid, was created at the time that was read,
-- lives for the time that was asked for, and has the recipient, amount, network, memo and reference
-- that were given.
pub create_payment_request_lem :
    (p : Platform) (fresh : Text) (clock ra am n life me re i : Value) (now : Option Value)
    (r : PaymentRequest)
    → create_payment_request p fresh clock ra am n life me re i now ≡ ok r
    → (unix_time clock now ≡ ok r.created_at)
      × (life ≡ nat (r.expires_at - r.created_at))
      × (ra ≡ Value.str r.recipient_address)
      × (am ≡ nat r.amount_atomic)
      × (n ≡ Value.str r.network)
      × (me ≡ optional r.memo)
      × (re ≡ optional r.reference)
      × IsValid p r
unfolding create_payment_request
create_payment_request_lem p fresh clock ra am n life me re i now r h =
    let (c, ec, h1) = >>=-eq-ok (unix_time clock now) _ h in
    let (l, el, h2) = >>=-eq-ok (bounded_int life 1 max_lifetime) _ h1 in
    let (vi, vn, va, vm, vc, ve, vo, vr, valid) =
      new-eq-ok p _ n ra am (nat c) (nat (c + l)) me re r h2 in
    let (vl, low, high) = bounded_int-eq-ok life 1 max_lifetime l el in
    (ground arith, ground arith, va, vm, vn, vo, vr, valid)
