-- ===== src/Verification/Again.antt =====
-- Parsing the artifact that `parse_proof_artifact` of proofs.py returns.
use myt_machine.Base.{ℕ, ◌≡◌, refl, ◌∙◌, sym, subst, [], ◌∷◌, Text, Text_eq, all, arith, ℕ_eq}
use myt_machine.Errors.{input_error, ok, on_ok, ok-injective, require}
use myt_machine.Json.{Value, Fields, get, contains, equals_text}
use myt_machine.Validation.{
  normalize_txid, validate_address_text, validate_message, validate_signature, within_bytes,
}
use myt_machine.Validation.Txid.{normalize_txid_canonical}
use myt_machine.Proofs.{
  PaymentProof, create_proof_artifact, parse_proof_artifact, is_proof_version, proof_type,
  required_fields,
}
use myt_machine.Verification.{artifact_of}
use myt_machine.Json.{lookup, equals_one}
use myt_machine.Base.{text_eq}

validate_address_text_again :
    (v : Value) (t : Text)
    → validate_address_text v ≡ ok t
    → validate_address_text (Value.str t) ≡ ok t
unfolding validate_address_text
validate_address_text_again (Value.str []) t h = ground arith
validate_address_text_again (Value.str (c ∷ s)) t h = ground arith
validate_address_text_again _ t h = ground arith

within_bytes-eq-ok : (limit : ℕ) (s t : Text) → within_bytes limit s ≡ ok t → s ≡ t
unfolding within_bytes
within_bytes-eq-ok limit s t h = ground arith

validate_message_again :
    (v : Value) (t : Text) → validate_message v ≡ ok t → validate_message (Value.str t) ≡ ok t
unfolding validate_message
validate_message_again (Value.str s) t h =
    subst (λ x. within_bytes 8192 x ≡ ok t) (within_bytes-eq-ok 8192 s t h) h
validate_message_again _ t h = ground arith

validate_signature_again :
    (v : Value) (t : Text) → validate_signature v ≡ ok t → validate_signature (Value.str t) ≡ ok t
unfolding validate_signature
validate_signature_again (Value.str []) t h = ground arith
validate_signature_again (Value.str (c ∷ s)) t h =
    subst (λ x. validate_signature (Value.str x) ≡ ok t) (within_bytes-eq-ok 65536 (c ∷ s) t h) h
validate_signature_again _ t h = ground arith

create_proof_artifact_again :
    (a b c d : Value) (proof : PaymentProof)
    → create_proof_artifact a b c d ≡ ok proof
    → create_proof_artifact
        (Value.str proof.txid)
        (Value.str proof.address)
        (Value.str proof.message)
        (Value.str proof.proof)
      ≡ ok proof
unfolding create_proof_artifact
create_proof_artifact_again a b c d proof h = on_ok (normalize_txid a) _ h λ t e1 h1.
    on_ok (validate_address_text b) _ h1 λ x e2 h2. on_ok (validate_message c) _ h2 λ m e3 h3.
      on_ok (validate_signature d) _ h3 λ s e4 h4.
        rw (sym (ok-injective h4)) rw
          (
            (normalize_txid_canonical a t e1).0,
            validate_address_text_again b x e2,
            validate_message_again c m e3,
            validate_signature_again d s e4,
          )
          refl

parse_proof_artifact-eq-ok :
    (f : Fields) (proof : PaymentProof)
    → parse_proof_artifact (Value.dict f) ≡ ok proof
    → create_proof_artifact (get "txid" f) (get "address" f) (get "message" f) (get "proof" f)
      ≡ ok proof
unfolding parse_proof_artifact
parse_proof_artifact-eq-ok f proof h =
    on_ok (require (equals_text (get "type" f) proof_type) input_error) _ h λ a e1 h1.
      on_ok (require (is_proof_version (get "version" f)) input_error) _ h1 λ b e2 h2.
        on_ok (require (all (λ k. contains k f) required_fields) input_error) _ h2 λ c e3 h3. h3

artifact_is_dict :
    (v : Value) (proof : PaymentProof)
    → parse_proof_artifact v ≡ ok proof
    → (f : Fields) × (v ≡ Value.dict f)
unfolding parse_proof_artifact
artifact_is_dict (Value.dict f) proof h = (f, refl)
artifact_is_dict _ proof h = ground arith

parse_artifact_of :
    (proof : PaymentProof)
    → parse_proof_artifact (artifact_of proof)
      ≡ create_proof_artifact
          (Value.str proof.txid)
          (Value.str proof.address)
          (Value.str proof.message)
          (Value.str proof.proof)
unfolding parse_proof_artifact artifact_of get lookup contains equals_text is_proof_version
    equals_one text_eq
parse_artifact_of proof = refl

-- The artifact that `parse_proof_artifact` returns is parsed to the same again.
pub parse_proof_artifact_again :
    (v : Value) (proof : PaymentProof)
    → parse_proof_artifact v ≡ ok proof
    → parse_proof_artifact (artifact_of proof) ≡ ok proof
parse_proof_artifact_again v proof h =
    let (f, is_dict) = artifact_is_dict v proof h in
    parse_artifact_of proof
    ∙ create_proof_artifact_again _ _ _ _ proof (
        parse_proof_artifact-eq-ok f proof
          (subst (λ x. parse_proof_artifact x ≡ ok proof) is_dict h))
