-- ===== src/Examples/Identities.antt =====
-- The theorems on machine identities, at concrete inputs.
use myt_machine.Base.{
  ℕ, ◌≡◌, refl, true, false, Bool, Option, none, some, List, [], ◌∷◌, ◌++◌, Text, ◌==◌, ℕ_eq,
  Text_eq, length, replicate, if◌then◌else◌,
}
use myt_machine.Base.Strings.{codes}
use myt_machine.Errors.{ok, ◌>>=◌}
use myt_machine.Json.{Value}
use myt_machine.Identity.{
  Crypto, PublicMachineIdentity, MachineIdentity, IdentitySignature, machine_id_prefix,
  signature_domain, verdict, verify_identity, create_signature_frame, decode_signature, sign,
}
use myt_machine.Identity.Document.{public_identity_document, parse_public_identity_document}
use myt_machine.Identity.Frame.{create_signature_frame-injective}
use myt_machine.Identity.Again.{IsIdentity, IsEncodable, parse-public_identity_document}
use myt_machine.Identity.Signing.{IsSignatureText, verify_identity-sign, verify_identity-IsValid}

abbrev pub zeros : ℕ → Text
zeros n = replicate n 0

-- It writes and reads the keys, digests and signatures of zeros, and one other digest.
abbrev pub toy_crypto : Crypto
toy_crypto = record {
  b64 = λ s.
      if length s == 64
      then replicate 86 b'A' ++ (b'=' ∷ b'=' ∷ [])
      else replicate 43 b'A' ++ (b'=' ∷ []);
  b64_decode = λ s. if length s == 88 then some (zeros 64) else some (zeros 32);
  b32 = λ s.
      if s == zeros 32
      then replicate 52 b'A' ++ codes "===="
      else replicate 52 b'B' ++ codes "====";
  b32_decode = λ s.
      if s == replicate 52 b'A' ++ codes "====" then some (zeros 32) else some (replicate 32 1);
  sha256_bytes = λ s. zeros 32;
  public_of = λ s. zeros 32;
  sign_with = λ key frame. zeros 64;
  verify_with = λ key signature frame. true;
}

abbrev pub issuer_id : Text
issuer_id = machine_id_prefix ++ replicate 52 b'a'

abbrev pub subject_id : Text
subject_id = machine_id_prefix ++ replicate 52 b'b'

abbrev pub issuer_identity : PublicMachineIdentity
issuer_identity = record { public_key = zeros 32; machine_id = issuer_id }

issuer-IsIdentity : IsIdentity toy_crypto issuer_identity
unfolding myt_machine.Identity.derive_machine_id myt_machine.Identity.validate_public_key_bytes
    myt_machine.Identity.encode_digest myt_machine.Base.Strings.rstrip myt_machine.Base.text_eq
    myt_machine.Base.Strings.to_lower myt_machine.Identity.digest_of
    myt_machine.Identity.is_machine_id myt_machine.Identity.is_base32
    myt_machine.Base.Strings.is_lower myt_machine.Base.Strings.to_upper
issuer-IsIdentity = record { size = refl; derived = refl; digest = zeros 32; canonical = refl }

issuer-IsEncodable : IsEncodable toy_crypto (zeros 32)
unfolding myt_machine.Identity.encode_base64url myt_machine.Base.Strings.rstrip
    myt_machine.Identity.is_base64url myt_machine.Base.Strings.is_upper
issuer-IsEncodable = record {
  text = replicate 42 b'A';
  first = b'A';
  encoded = refl;
  size = refl;
  alphabet = refl;
  decodes = refl;
}

zeros-IsSignatureText : IsSignatureText toy_crypto (zeros 64)
unfolding myt_machine.Identity.encode_base64url myt_machine.Base.Strings.rstrip
    myt_machine.Identity.is_base64url myt_machine.Base.Strings.is_upper
zeros-IsSignatureText = record {
  text = replicate 85 b'A';
  first = b'A';
  encoded = refl;
  size = refl;
  alphabet = refl;
  decodes = refl;
  bytes = refl;
}

parse-public_identity_document_example :
    (public_identity_document toy_crypto issuer_identity >>= λ f.
    parse_public_identity_document toy_crypto (Value.dict f))
    ≡ ok issuer_identity
parse-public_identity_document_example =
    parse-public_identity_document toy_crypto issuer_identity issuer-IsIdentity issuer-IsEncodable

abbrev hello_context : Text
hello_context = codes "app/v1"

abbrev hello : Text
hello = codes "hi"

abbrev hello_frame : Text
hello_frame =
    signature_domain
    ++ (1 ∷ (zeros 32 ++ (0 ∷ 6 ∷ (hello_context ++ (0 ∷ 0 ∷ 0 ∷ 0 ∷ 0 ∷ 0 ∷ 0 ∷ 2 ∷ hello)))))

create_signature_frame-injective_example :
    (issuer_id ≡ issuer_id) × (hello_context ≡ hello_context) × (hello ≡ hello)
unfolding create_signature_frame myt_machine.Identity.digest_of myt_machine.Identity.is_machine_id
    myt_machine.Base.text_eq myt_machine.Identity.is_base32 myt_machine.Base.Strings.is_lower
    myt_machine.Base.Strings.to_upper myt_machine.Identity.encode_digest
    myt_machine.Base.Strings.rstrip myt_machine.Base.Strings.to_lower
    myt_machine.Identity.validate_identity_context myt_machine.Identity.is_context_char
    myt_machine.Base.Strings.is_digit myt_machine.Identity.validate_identity_message
    myt_machine.Identity.big_endian
create_signature_frame-injective_example =
    create_signature_frame-injective toy_crypto issuer_id issuer_id hello_context hello_context
      hello hello hello_frame refl refl

abbrev machine : MachineIdentity
machine = record { private_key = zeros 32; public_identity = issuer_identity }

abbrev hello_signature : IdentitySignature
hello_signature = record {
  machine_id = issuer_id;
  context = hello_context;
  signature = replicate 86 b'A';
}

verify_identity-sign_example :
    verify_identity toy_crypto issuer_identity hello hello_context
      (Value.str (replicate 86 b'A'))
      (some issuer_id)
    ≡ ok (verdict toy_crypto true (some true) issuer_identity hello_context)
unfolding sign create_signature_frame myt_machine.Identity.digest_of
    myt_machine.Identity.is_machine_id myt_machine.Base.text_eq myt_machine.Identity.is_base32
    myt_machine.Base.Strings.is_lower myt_machine.Base.Strings.to_upper
    myt_machine.Identity.encode_digest myt_machine.Base.Strings.rstrip
    myt_machine.Base.Strings.to_lower myt_machine.Identity.validate_identity_context
    myt_machine.Identity.is_context_char myt_machine.Base.Strings.is_digit
    myt_machine.Identity.validate_identity_message myt_machine.Identity.encode_signature
    myt_machine.Identity.encode_base64url myt_machine.Base.Strings.is_upper
    myt_machine.Identity.big_endian
verify_identity-sign_example =
    verify_identity-sign toy_crypto machine hello hello_context hello_signature (λ frame. refl)
      (λ frame. zeros-IsSignatureText) refl

verify_identity-IsValid_example :
    (frame : Text) × (raw : Text) × (create_signature_frame toy_crypto issuer_id hello_context hello
      ≡ ok frame)
    × (decode_signature toy_crypto (Value.str (replicate 86 b'A')) ≡ ok raw)
    × (toy_crypto.verify_with (zeros 32) raw frame ≡ true)
    × ((id : Text) → ◌≡◌ {A = Option Text} none (some id) → id ≡ issuer_id)
unfolding verify_identity create_signature_frame myt_machine.Identity.digest_of
    myt_machine.Identity.is_machine_id myt_machine.Base.text_eq myt_machine.Identity.is_base32
    myt_machine.Base.Strings.is_lower myt_machine.Base.Strings.to_upper
    myt_machine.Identity.encode_digest myt_machine.Base.Strings.rstrip
    myt_machine.Base.Strings.to_lower myt_machine.Identity.validate_identity_context
    myt_machine.Identity.is_context_char myt_machine.Base.Strings.is_digit
    myt_machine.Identity.validate_identity_message decode_signature
    myt_machine.Identity.decode_base64url myt_machine.Base.Strings.is_upper
    myt_machine.Identity.big_endian myt_machine.Identity.decode_text
    myt_machine.Identity.encode_base64url myt_machine.Identity.is_base64url
verify_identity-IsValid_example =
    verify_identity-IsValid toy_crypto issuer_identity hello hello_context
      (Value.str (replicate 86 b'A')) none
      (verdict toy_crypto true none issuer_identity hello_context) refl refl
