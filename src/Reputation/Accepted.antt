-- ===== src/Reputation/Accepted.antt =====
-- What a reputation artifact that was validated or verified is (src/myt_machine/reputation.py).
use myt_machine.Base.{
  ◌≡◌, refl, sym, ap, ◌∙◌, subst, Bool, true, false, not, Option, none, some, ◌++◌, Text, ◌==◌,
  Text_eq, text_eq_iff, and_parts, Bool-cases, Option-cases, inl, inr, arith, some-injective,
}
use myt_machine.Errors.{
  Error, input_error, value_error, recursion_error, Result, ok, err, ok-injective, on_ok, require,
  require-eq-ok,
}
use myt_machine.Json.{Value, Fields, get, has_exactly, equals_text}
use myt_machine.Payment.{Platform, max_timestamp, bounded_int, validate_network}
use myt_machine.Identity.{
  Crypto, PublicMachineIdentity, machine_id_digest, create_signature_frame, decode_signature,
  verify_identity,
}
use myt_machine.Identity.Document.{parse_public_identity_document}
use myt_machine.Identity.Again.{IsIdentity, parse-IsIdentity}
use myt_machine.Identity.Signing.{verify_identity-IsValid}
use myt_machine.Reputation.{
  Kind, attests, revokes, kind_of, context_of, id_prefix, reputation_id, reputation_fields,
  as_malformed, fields_of, content, check_attestation, check_statement, validate_kind,
  validate_fields, validate, attest_fields, ReputationArtifact, check_network, network_matches,
  verify_kind, verify,
}

refused_artifact : {A : Type 0} {a : A} {e : Error} → ◌≡◌ {A = Result A} (err e) (ok a) → ⊥
refused_artifact h = ground arith

as_malformed-eq-ok : {A : Type 0} (m : Result A) (a : A) → as_malformed m ≡ ok a → m ≡ ok a
unfolding as_malformed
as_malformed-eq-ok (ok b) a h = h
as_malformed-eq-ok (err value_error) a h = absurd (refused_artifact h)
as_malformed-eq-ok (err recursion_error) a h = absurd (refused_artifact h)
as_malformed-eq-ok (err e) a h = ground arith

fields_of-eq-ok : (v : Value) (f : Fields) → fields_of v ≡ ok f → v ≡ Value.dict f
fields_of-eq-ok (Value.dict g) f h = ap (λ x. Value.dict x) (ok-injective h)
fields_of-eq-ok _ f h = absurd (refused_artifact h)

reputation_id-eq-ok : (v : Value) (s : Text) → reputation_id v ≡ ok s → v ≡ Value.str s
unfolding reputation_id
reputation_id-eq-ok (Value.str t) s h = ground arith
reputation_id-eq-ok _ s h = absurd (refused_artifact h)

not-true : (b : Bool) → not b ≡ true → b ≡ false
not-true true h = ground arith
not-true false h = refl

dict-injective : {f g : Fields} → Value.dict f ≡ Value.dict g → f ≡ g
dict-injective {f} h = ap (dict_or f) h
  where
    dict_or : Fields → Value → Fields
    dict_or f (Value.dict g) = g
    dict_or f _ = f

-- The artifact of this kind: its issuer's Machine ID belongs to the issuer's key, its statement is
-- well formed, not about the issuer if it attests, and its ID is that of its content.
pub record IsArtifact (p : Platform) (c : Crypto) (kind : Kind) (f : Fields) : Type 0 where
  pub issuer : PublicMachineIdentity
  pub statement : Fields
  pub signed : Text
  pub exact : has_exactly reputation_fields f ≡ true
  pub kinded : kind_of (get "type" f) ≡ some kind
  pub issued : parse_public_identity_document c (get "issuer" f) ≡ ok issuer
  pub genuine : IsIdentity c issuer
  pub stated : get "statement" f ≡ Value.dict statement
  pub checked : check_statement p c kind issuer statement ≡ ok tt
  pub content_is : content p kind f ≡ ok signed
  pub other :
      kind ≡ attests → equals_text (get "subject_machine_id" statement) issuer.machine_id ≡ false
  pub named : get "id" f ≡ Value.str (id_prefix ++ p.sha256 signed)

-- The issuer's signature over the content of an artifact, for the kind's own context; the issuer and the
-- network are the expected ones, where they are given.
pub record IsSigned (p : Platform) (c : Crypto) (kind : Kind) (f : Fields)
    (network expected : Option Text) : Type 0 where
  pub issuer : PublicMachineIdentity
  pub message : Text
  pub frame : Text
  pub raw : Text
  pub statement : Fields
  pub issued : parse_public_identity_document c (get "issuer" f) ≡ ok issuer
  pub content_is : content p kind f ≡ ok message
  pub framed : create_signature_frame c issuer.machine_id (context_of kind) message ≡ ok frame
  pub decoded : decode_signature c (get "signature" f) ≡ ok raw
  pub verifies : c.verify_with issuer.public_key raw frame ≡ true
  pub by_expected : (id : Text) → expected ≡ some id → id ≡ issuer.machine_id
  pub stated : get "statement" f ≡ Value.dict statement
  pub on_network : (n : Text) → network ≡ some n → equals_text (get "network" statement) n ≡ true

network_matches-eq-true :
    (p : Platform) (c : Crypto) (network : Option Text) (v : Value)
    → network_matches p c network v ≡ true
    → (n : Text) → network ≡ some n
    → equals_text v n ≡ true
network_matches-eq-true p c none v h n e = ground arith
network_matches-eq-true p c (some m) v h n e =
    subst (λ x. equals_text v x ≡ true) (some-injective e) h

module _ (p : Platform) (c : Crypto) where
  no_self_attestation :
      (kind : Kind) (issuer : PublicMachineIdentity) (s : Fields)
      → check_statement p c kind issuer s ≡ ok tt
      → kind ≡ attests
      → equals_text (get "subject_machine_id" s) issuer.machine_id ≡ false
  unfolding check_statement check_attestation
  no_self_attestation revokes issuer s h e = ground arith
  no_self_attestation attests issuer s h e =
      on_ok (require (has_exactly attest_fields s) input_error) _ h λ u e1 h1.
        on_ok (validate_network (get "network" s)) _ h1 λ n e2 h2.
          on_ok (bounded_int (get "issued_at" s) 0 max_timestamp) _ h2 λ t e3 h3.
            on_ok (machine_id_digest c (get "subject_machine_id" s)) _ h3 λ d e4 h4.
              on_ok
                (require (not (equals_text (get "subject_machine_id" s) issuer.machine_id))
                  input_error)
                _ h4 λ u' e5 h5. not-true _ (require-eq-ok _ _ e5)

  validate_kind-IsArtifact :
      (kind : Kind) (f g : Fields)
      → has_exactly reputation_fields f ≡ true
      → kind_of (get "type" f) ≡ some kind
      → validate_kind p c kind f ≡ ok g
      → (f ≡ g) × IsArtifact p c kind f
  unfolding validate_kind
  validate_kind-IsArtifact kind f g exact kinded h =
      on_ok (bounded_int (get "version" f) 1 1) _ h λ version e1 h1.
        on_ok (parse_public_identity_document c (get "issuer" f)) _ h1 λ issuer e2 h2.
          on_ok (fields_of (get "statement" f)) _ h2 λ s e3 h3.
            on_ok (check_statement p c kind issuer s) _ h3 λ u e4 h4.
              on_ok (reputation_id (get "id" f)) _ h4 λ id e5 h5.
                on_ok (content p kind f) _ h5 λ signed e6 h6.
                  on_ok (require (id == id_prefix ++ p.sha256 signed) input_error) _ h6 λ u' e7 h7.
                    on_ok (decode_signature c (get "signature" f)) _ h7 λ raw e8 h8.
                      let (genuine, doc) = parse-IsIdentity c (get "issuer" f) issuer e2 in
                      (
                        ok-injective h8,
                        record {
                          issuer = issuer;
                          statement = s;
                          signed = signed;
                          exact = exact;
                          kinded = kinded;
                          issued = e2;
                          genuine = genuine;
                          stated = fields_of-eq-ok _ s e3;
                          checked = e4;
                          content_is = e6;
                          other = no_self_attestation kind issuer s e4;
                          named =
                              reputation_id-eq-ok _ id e5
                              ∙ ap (λ x. Value.str x)
                                  ((text_eq_iff id (id_prefix ++ p.sha256 signed)).0
                                    (require-eq-ok _ _ e7));
                        },
                      )

  validate_fields-IsArtifact :
      (f g : Fields)
      → validate_fields p c f ≡ ok g
      → (f ≡ g) × ((kind : Kind) × IsArtifact p c kind f)
  unfolding validate_fields
  validate_fields-IsArtifact f g h = elim (Bool-cases (has_exactly reputation_fields f)) [
    | inr other ↦ absurd (refused_artifact (rw other at h))
    | inl exact ↦ elim (Option-cases (kind_of (get "type" f))) [
      | inl unknown ↦ absurd (refused_artifact (rw unknown at rw exact at h))
      | inr (kind, kinded) ↦
          let (same, valid) =
            validate_kind-IsArtifact kind f g exact kinded (rw kinded at rw exact at h) in
          (same, (kind, valid))
    ]
  ]

  -- What `_validate` accepts is returned as it is; its kind is known, its issuer's Machine ID belongs to
  -- the issuer's public key, its statement meets the checks of its kind, an attestation is not about its
  -- own issuer, and its ID is the digest of its canonical content.
  pub validate-IsArtifact :
      (v : Value) (f : Fields)
      → validate p c v ≡ ok f
      → (v ≡ Value.dict f) × ((kind : Kind) × IsArtifact p c kind f)
  unfolding validate
  validate-IsArtifact (Value.dict g) f h =
      let (same, (kind, valid)) = validate_fields-IsArtifact g f (as_malformed-eq-ok _ f h) in
      (ap (λ x. Value.dict x) same, (kind, subst (IsArtifact p c kind) same valid))
  validate-IsArtifact _ f h = absurd (refused_artifact h)

  verify_kind-IsSigned :
      (kind : Kind) (f : Fields) (network expected : Option Text)
      → verify_kind p c kind f network expected ≡ ok true
      → IsSigned p c kind f network expected
  unfolding verify_kind
  verify_kind-IsSigned kind f network expected h = on_ok (check_network p c network) _ h λ u e1 h1.
      on_ok (parse_public_identity_document c (get "issuer" f)) _ h1 λ i e2 h2.
        on_ok (content p kind f) _ h2 λ message e3 h3.
          on_ok (verify_identity c i message (context_of kind) (get "signature" f) expected) _ h3
            λ r e4 h4. on_ok (fields_of (get "statement" f)) _ h4 λ s e5 h5.
              let (valid, matched) =
                and_parts r.valid (network_matches p c network (get "network" s))
                  (ok-injective h5) in
              let (frame, raw, framed, decoded, verifies, by_expected) =
                verify_identity-IsValid c i message (context_of kind) (get "signature" f) expected r
                  e4 valid in
              record {
                issuer = i;
                message = message;
                frame = frame;
                raw = raw;
                statement = s;
                issued = e2;
                content_is = e3;
                framed = framed;
                decoded = decoded;
                verifies = verifies;
                by_expected = by_expected;
                stated = fields_of-eq-ok _ s e5;
                on_network = network_matches-eq-true p c network (get "network" s) matched;
              }

  -- An artifact that `verify` accepts is well formed, with the ID of its content, and its signature
  -- verifies, under the public key of its issuer, for the frame of its content in the context of its
  -- kind; the issuer and the network are the expected ones, where they are given.
  pub verify-IsSigned :
      (a : ReputationArtifact) (network expected : Option Text)
      → verify p c a network expected ≡ ok true
      → (kind : Kind) × IsArtifact p c kind a.document
        × IsSigned p c kind a.document network expected
  unfolding verify
  verify-IsSigned a network expected h = on_ok (validate p c (Value.dict a.document)) _ h λ f e1 h1.
      let (same, (kind, valid)) = validate-IsArtifact (Value.dict a.document) f e1 in
      let is_doc = sym (dict-injective same) in
      (
        kind,
        subst (IsArtifact p c kind) is_doc valid,
        subst (λ x. IsSigned p c kind x network expected) is_doc
            (verify_kind-IsSigned kind f network expected (rw valid.kinded at h1)),
      )
