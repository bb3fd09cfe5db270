-- ===== src/Identity/Signing.antt =====
-- Signing and verifying with machine identities (src/myt_machine/identity.py).
use myt_machine.Base.{
  ℕ, ◌≡◌, refl, sym, ap, ◌∙◌, subst, Bool, true, Option, none, some, [], ◌∷◌, ◌++◌, Text, ◌==◌,
  ℕ_eq, Text_eq, length, all, text_eq_iff, text_eq_refl, and_parts, some-injective, arith,
}
use myt_machine.Errors.{Error, input_error, Result, ok, err, ok-injective, on_ok, require}
use myt_machine.Json.{Value}
use myt_machine.Identity.Frame.{context-range}
use myt_machine.Identity.{
  Crypto, PublicMachineIdentity, IdentityVerification, IdentitySignature, MachineIdentity,
  encode_base64url, is_base64url, decode_text, decode_base64url, encode_signature, decode_signature,
  digest_of, validate_identity_context, create_signature_frame, check_expected, matches, verdict,
  verify_identity, sign,
}

-- What base64 is documented to do with one signature of 64 bytes: 86 characters of its alphabet, two
-- signs of padding, and the signature again when it is decoded.
pub record IsSignatureText (c : Crypto) (signature : Text) : Type 0 where
  pub text : Text
  pub first : ℕ
  pub encoded : encode_base64url c signature ≡ first ∷ text
  pub size : length (first ∷ text) ≡ 86
  pub alphabet : all is_base64url (first ∷ text) ≡ true
  pub decodes : c.b64_decode ((first ∷ text) ++ b'=' ∷ b'=' ∷ []) ≡ some signature
  pub bytes : length signature ≡ 64

decode_text-signature :
    (c : Crypto) (s raw : Text)
    → length s ≡ 86
    → all is_base64url s ≡ true
    → c.b64_decode (s ++ b'=' ∷ b'=' ∷ []) ≡ some raw
    → length raw ≡ 64
    → encode_base64url c raw ≡ s
    → decode_text c s 64 ≡ ok raw
unfolding decode_text
decode_text-signature c s raw l a d size e = rw l rw a rw d rw size rw e rw (text_eq_refl s) refl

decode_signature-text :
    (c : Crypto) (raw : Text) (e : IsSignatureText c raw)
    → decode_signature c (Value.str (e.first ∷ e.text)) ≡ ok raw
unfolding decode_signature decode_base64url
decode_signature-text c raw e =
    decode_text-signature c (e.first ∷ e.text) raw e.size e.alphabet e.decodes e.bytes e.encoded

encode_signature-text :
    (c : Crypto) (raw text : Text)
    → IsSignatureText c raw
    → encode_signature c raw ≡ ok text
    → decode_signature c (Value.str text) ≡ ok raw
unfolding encode_signature
encode_signature-text c raw text e h = on_ok (require (length raw == 64) input_error) _ h λ u e1 h1.
    subst (λ t. decode_signature c (Value.str t) ≡ ok raw) (sym e.encoded ∙ ok-injective h1)
      (decode_signature-text c raw e)

refused_signature : {A : Type 0} {a : A} {e : Error} → ◌≡◌ {A = Result A} (err e) (ok a) → ⊥
refused_signature h = ground arith

frame-digest :
    (c : Crypto) (id context message frame : Text)
    → create_signature_frame c id context message ≡ ok frame
    → check_expected c (some id) ≡ ok tt
unfolding create_signature_frame
frame-digest c id context message frame h = on_ok (digest_of c id) _ h λ d e1 h1. rw e1 refl

-- A signature that `sign` makes is valid for its message, its context and the Machine ID of the
-- signer, where Ed25519 verifies what it signed and base64 reads back what it writes.
pub verify_identity-sign :
    (c : Crypto) (m : MachineIdentity) (message context : Text) (s : IdentitySignature)
    → ((frame : Text)
        → c.verify_with m.public_identity.public_key (c.sign_with m.private_key frame) frame ≡ true)
    → ((frame : Text) → IsSignatureText c (c.sign_with m.private_key frame))
    → sign c m message context ≡ ok s
    → verify_identity c m.public_identity message s.context
        (Value.str s.signature)
        (some s.machine_id)
      ≡ ok (verdict c true (some true) m.public_identity s.context)
unfolding sign verify_identity
verify_identity-sign c m message context s verifies readable h =
    on_ok (create_signature_frame c m.public_identity.machine_id context message) _ h λ frame e1 h1.
      on_ok (validate_identity_context context) _ h1 λ context' e2 h2.
        on_ok (encode_signature c (c.sign_with m.private_key frame)) _ h2 λ text e3 h3.
          let (is_context, bound) = context-range context context' e2 in
          subst
            (λ x.
              verify_identity c m.public_identity message x.context (Value.str x.signature)
                (some x.machine_id)
              ≡ ok (verdict c true (some true) m.public_identity x.context))
            (ok-injective h3)
            (subst
              (λ k.
                verify_identity c m.public_identity message k (Value.str text)
                  (some m.public_identity.machine_id)
                ≡ ok (verdict c true (some true) m.public_identity context'))
              is_context
              (rw (frame-digest c m.public_identity.machine_id context message frame e1) rw e1 rw
                (encode_signature-text c (c.sign_with m.private_key frame) text (readable frame) e3)
                rw e2 rw (verifies frame) rw (text_eq_refl m.public_identity.machine_id) refl))

valid-verdict :
    (c : Crypto) (signature_valid : Bool) (expected : Option Text) (i : PublicMachineIdentity)
    (context : Text)
    → (verdict c signature_valid (matches c expected i.machine_id) i context).valid ≡ true
    → (signature_valid ≡ true) × ((id : Text) → expected ≡ some id → id ≡ i.machine_id)
valid-verdict c signature_valid none i context h = (h, λ id e. absurd (none-not-some e))
  where
    none-not-some : {id : Text} → ◌≡◌ {A = Option Text} none (some id) → ⊥
    none-not-some e = ground arith
valid-verdict c signature_valid (some expected) i context h =
    let (good, same) = and_parts signature_valid (expected == i.machine_id) h in
    (good, λ id e. sym (some-injective e) ∙ (text_eq_iff expected i.machine_id).0 same)

-- A verification that comes out valid is for the frame of this Machine ID, context and message: the
-- signature that was decoded verifies for it under the public key, and the Machine ID is the expected
-- one, where one is.
pub verify_identity-IsValid :
    (c : Crypto) (i : PublicMachineIdentity) (message context : Text) (signature : Value)
    (expected : Option Text) (r : IdentityVerification)
    → verify_identity c i message context signature expected ≡ ok r
    → r.valid ≡ true
    → (frame : Text) × (raw : Text) × (create_signature_frame c i.machine_id context message
        ≡ ok frame)
      × (decode_signature c signature ≡ ok raw)
      × (c.verify_with i.public_key raw frame ≡ true)
      × ((id : Text) → expected ≡ some id → id ≡ i.machine_id)
unfolding verify_identity
verify_identity-IsValid c i message context signature expected r h v =
    on_ok (check_expected c expected) _ h λ u e1 h1.
      on_ok (create_signature_frame c i.machine_id context message) _ h1 λ frame e2 h2.
        on_ok (decode_signature c signature) _ h2 λ raw e3 h3.
          on_ok (validate_identity_context context) _ h3 λ context' e4 h4.
            let (good, same) =
              valid-verdict c (c.verify_with i.public_key raw frame) expected i context'
                (ap (λ x. x.valid) (ok-injective h4) ∙ v) in
            (frame, raw, e2, e3, good, same)
