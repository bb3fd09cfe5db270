-- ===== src/Payment/RoundTrip.antt =====
-- Serialising and parsing requests.
use myt_machine.Base.{
  ℕ, ◌≤◌, ◌<◌, ◌≡◌, refl, Bool, true, false, ◌&&◌, some, [], ◌∷◌, Text, arith, length, all, ltb,
  le→ltb, text_eq, text_eq_iff, ◌∙◌, All, and_parts, ap,
}
use myt_machine.Base.Strings.{utf8}
use myt_machine.Errors.{ok, input_error, ◌>>=◌, require, >>=-eq-ok, require-eq-ok}
use myt_machine.Base.Int.{pos}
use myt_machine.Json.{Value, Fields, lookup, get, has_exactly, equals_text, sort_fields}
use myt_machine.Payment.{
  Platform, PaymentRequest, max_request_bytes, request_fields, as_dict, canonical_json,
  refused_bytes, loads_json, strict_json, text, serialize_payment_request, is_version_one,
  parse_fields, parse_payment_request, post_init, request_type, nat,
}
use myt_machine.Payment.Valid.{
  IsValid, post_init-IsValid, post_init-eq-ok, post_init_iff, new-eq-ok,
}

-- An ASCII text is its own encoding, and begins with no byte order mark.
abbrev pub is_ascii : Text → Bool
is_ascii = all (λ c. ltb c 0x80)

pub utf8-ascii : (s : Text) → is_ascii s ≡ true → utf8 s ≡ some s
unfolding utf8
utf8-ascii [] h = refl
utf8-ascii (c ∷ s) h = ground (arith, utf8-ascii s)

refused_bytes-ascii :
    (s : Text) (maximum : ℕ)
    → is_ascii s ≡ true
    → 0 < length s
    → length s ≤ maximum
    → refused_bytes s maximum ≡ false
unfolding refused_bytes text_eq
refused_bytes-ascii [] maximum a l u = absurd (omega arith)
refused_bytes-ascii (c ∷ s) maximum a l u = ground arith

-- What `json` is documented to do with one request: it writes an ASCII text, here of at most 8192
-- characters, and reads from it the entries in the order of their keys.
pub record IsFaithful (p : Platform) (r : PaymentRequest) : Type 0 where
  pub encoded : Text
  pub written : p.dumps (Value.dict (as_dict r)) ≡ some encoded
  pub ascii : is_ascii encoded ≡ true
  pub size : (0 < length encoded) × (length encoded ≤ max_request_bytes)
  pub read : p.loads encoded ≡ some (Value.dict (sort_fields (as_dict r)))

module _ (p : Platform) (r : PaymentRequest) where
  parse_fields-sort_fields : parse_fields p (sort_fields (as_dict r)) ≡ post_init p r
  unfolding parse_fields sort_fields as_dict has_exactly get lookup equals_text is_version_one
      post_init text_eq
  parse_fields-sort_fields = refl

  pub serialize-IsValid :
      (f : IsFaithful p r) → IsValid p r → serialize_payment_request p r ≡ ok f.encoded
  unfolding serialize_payment_request canonical_json
  serialize-IsValid f v = rw (post_init-IsValid p r v) (rw (f.written, canonical_json))

  -- Only a valid request is serialised.
  pub serialize-eq-ok : (s : Text) → serialize_payment_request p r ≡ ok s → IsValid p r
  unfolding serialize_payment_request
  serialize-eq-ok s h =
      let (q, e, h1) = >>=-eq-ok (post_init p r) _ h in
      (post_init_iff p r).0 (e ∙ ap ok (post_init-eq-ok p r q e))

  pub parse-encoded :
      (f : IsFaithful p r) → IsValid p r → parse_payment_request p (text f.encoded) ≡ ok r
  unfolding parse_payment_request strict_json loads_json
  parse-encoded f v =
      rw
        (
          utf8-ascii f.encoded f.ascii,
          refused_bytes-ascii f.encoded max_request_bytes f.ascii f.size.0 f.size.1,
          le→ltb max_request_bytes (length f.encoded) f.size.1,
        )
        (rw (f.read, loads_json) (parse_fields-sort_fields ∙ post_init-IsValid p r v))

  -- Where `json` reads back what it writes for the request, a valid request is parsed back from its
  -- serialisation.
  pub parse-serialize :
      IsFaithful p r
      → IsValid p r
      → (serialize_payment_request p r >>= λ s. parse_payment_request p (text s)) ≡ ok r
  parse-serialize f v = rw (serialize-IsValid f v) (parse-encoded f v)

equals_text-eq : (v : Value) (t : Text) → equals_text v t ≡ true → v ≡ Value.str t
unfolding equals_text
equals_text-eq (Value.str s) t h = ap Value.str ((text_eq_iff s t).0 h)
equals_text-eq _ t h = ground arith

is_version_one-eq : (v : Value) → is_version_one v ≡ true → v ≡ nat 1
unfolding is_version_one
is_version_one-eq (Value.int (pos n)) h = ground arith
is_version_one-eq _ h = ground arith

-- A document is accepted only if it has exactly the fields of version 1, and then each field has the
-- value that the accepted request serialises, which is valid.
pub parse_fields_exact :
    (p : Platform) (f : Fields) (r : PaymentRequest)
    → parse_fields p f ≡ ok r
    → (has_exactly request_fields f ≡ true)
      × All (λ k. get k f ≡ get k (as_dict r)) request_fields
      × IsValid p r
unfolding parse_fields as_dict get lookup
parse_fields_exact p f r h =
    let (t1, e1, h1) = >>=-eq-ok (require (has_exactly request_fields f) input_error) _ h in
    let (t2, e2, h2) =
      >>=-eq-ok
        (require (equals_text (get "type" f) request_type && is_version_one (get "version" f))
          input_error)
        _ h1 in
    let (vi, vn, va, vm, vc, ve, vo, vr, valid) = new-eq-ok p _ _ _ _ _ _ _ _ r h2 in
    let (kind, version) =
      and_parts (equals_text (get "type" f) request_type) (is_version_one (get "version" f))
        (require-eq-ok _ _ e2) in
    (
      require-eq-ok _ _ e1,
      (
        equals_text-eq (get "type" f) request_type kind,
        (
          is_version_one-eq (get "version" f) version,
          (vi, (vn, (va, (vm, (vc, (ve, (vo, (vr, tt)))))))),
        ),
      ),
      valid,
    )
