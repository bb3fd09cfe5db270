-- ===== src/Reputation.antt =====
-- src/myt_machine/reputation.py: signed opinions and revocations. `Store` has the store of the
-- evidence, `Policy` the local counts.
pub mod Accepted
pub mod Evidence
pub mod Store
pub mod Transactions
pub mod Limits
pub mod Reads
pub mod Claim
pub mod Bridge
pub mod Claimed
pub mod Attributed
pub mod Policy
pub mod Counts
pub mod Loop
pub mod Fair
use myt_machine.Base.{
  ℕ, Bool, true, false, not, ◌&&◌, ◌||◌, Option, none, some, List, [], ◌∷◌, ◌++◌, String, Text,
  ◌==◌, ℕ_eq, Text_eq, leb, length, all, take, drop, if◌then◌else◌,
}
use myt_machine.Base.Strings.{codes, is_digit}
use myt_machine.Errors.{
  Error, input_error, value_error, recursion_error, is_input_error, Result, ok, err, ◌>>=◌, ◌>>◌,
  require,
}
use myt_machine.Json.{Value, Fields, end, field, get, has_exactly, equals_text}
use myt_machine.Payment.{
  Platform, Input, text, max_timestamp, bounded_int, canonical_json, strict_json, validate_network,
  nat,
}
use myt_machine.Identity.{
  Crypto, PublicMachineIdentity, MachineIdentity, machine_id_digest, decode_signature,
  verify_identity, sign, IdentitySignature, IdentityVerification,
}
use myt_machine.Identity.Document.{public_identity_document, parse_public_identity_document}

abbrev pub max_reputation_bytes : ℕ
max_reputation_bytes = 16384

abbrev pub attestation : Text
attestation = codes "myt-reputation-attestation"

abbrev pub revocation : Text
revocation = codes "myt-reputation-revocation"

abbrev pub reputation_fields : List String
reputation_fields = "type" ∷ "version" ∷ "issuer" ∷ "statement" ∷ "id" ∷ "signature" ∷ []

abbrev pub attest_fields : List String
attest_fields =
    "subject_machine_id" ∷ "network" ∷ "issued_at" ∷ "category" ∷ "outcome" ∷ "evidence_digest" ∷ []

abbrev pub revoke_fields : List String
revoke_fields = "network" ∷ "issued_at" ∷ "attestation_id" ∷ []

-- The two kinds of artifacts, with the keys of `_DOMAINS` and `_CONTEXTS`.
pub data Kind : Type 0 where
  attests revokes : Kind

unfoldable pub kind_of : Value → Option Kind
kind_of v =
    if equals_text v attestation
    then some attests
    else if equals_text v revocation
    then some revokes
    else none

unfoldable pub kind_text : Kind → Text
kind_text attests = attestation
kind_text revokes = revocation

unfoldable pub domain : Kind → Text
domain attests = codes "MYT-REPUTATION-ATTESTATION-V1" ++ 10 ∷ []
domain revokes = codes "MYT-REPUTATION-REVOCATION-V1" ++ 10 ∷ []

unfoldable pub context_of : Kind → Text
context_of attests = codes "myt-machine/reputation-attestation/v1"
context_of revokes = codes "myt-machine/reputation-revocation/v1"

abbrev pub id_prefix : Text
id_prefix = codes "myt-reputation-v1:"

-- `[0-9a-f]{64}`
unfoldable pub is_lower_hex : Text → Bool
is_lower_hex s = length s == 64 && all (λ c. is_digit c || leb b'a' c && leb c b'f') s

unfoldable pub reputation_id : Value → Result Text
reputation_id (Value.str s) =
    if take 18 s == id_prefix && is_lower_hex (drop 18 s) then ok s else err input_error
reputation_id _ = err input_error

unfoldable pub evidence_digest : Value → Result Text
evidence_digest (Value.str s) = if is_lower_hex s then ok s else err input_error
evidence_digest _ = err input_error

-- `value is None` or a digest.
unfoldable pub optional_digest : Value → Result (Unit {0})
optional_digest Value.null = ok tt
optional_digest v = do evidence_digest v; ok tt

unfoldable pub is_outcome : Value → Bool
is_outcome v =
    equals_text v (codes "POSITIVE")
    || equals_text v (codes "NEUTRAL")
    || equals_text v (codes "NEGATIVE")

-- `except (InputError, ValueError, TypeError, KeyError, RecursionError)`
unfoldable pub as_malformed : {A : Type 0} → Result A → Result A
as_malformed (ok a) = ok a
as_malformed (err value_error) = err input_error
as_malformed (err recursion_error) = err input_error
as_malformed (err e) = if is_input_error e then err input_error else err e

abbrev pub fields_of : Value → Result Fields
fields_of (Value.dict f) = ok f
fields_of _ = err input_error

-- `_body`: the signed part of an artifact.
abbrev pub body : Fields → Value
body f = Value.dict (
    field "type" (get "type" f) (
      field "version" (get "version" f)
        (field "issuer" (get "issuer" f) (field "statement" (get "statement" f) end))))

-- An artifact that was validated and read again from its canonical text, `as_dict()`.
pub record ReputationArtifact : Type 0 where
  pub encoded : Text
  pub document : Fields

module _ (p : Platform) where
  unfoldable pub content_digest : Text → Value → Result Text
  content_digest prefix v = do s ← canonical_json p v; ok (p.sha256 (prefix ++ s))

  -- `_content`
  unfoldable pub content : Kind → Fields → Result Text
  content kind f = do s ← canonical_json p (body f); ok (domain kind ++ s)

  module _ (c : Crypto) where
    unfoldable pub check_attestation : PublicMachineIdentity → Fields → Result (Unit {0})
    check_attestation issuer s = do
      machine_id_digest c (get "subject_machine_id" s)
      require (not (equals_text (get "subject_machine_id" s) issuer.machine_id)) input_error
      require
          (equals_text (get "category" s) (codes "SERVICE_INTERACTION")
            && is_outcome (get "outcome" s))
          input_error
      optional_digest (get "evidence_digest" s)

    unfoldable pub check_revocation : Fields → Result (Unit {0})
    check_revocation s = do reputation_id (get "attestation_id" s); ok tt

    -- The statement of an artifact of the kind.
    unfoldable pub check_statement : Kind → PublicMachineIdentity → Fields → Result (Unit {0})
    check_statement attests issuer s = do
      require (has_exactly attest_fields s) input_error
      validate_network (get "network" s)
      bounded_int (get "issued_at" s) 0 max_timestamp
      check_attestation issuer s
    check_statement revokes issuer s = do
      require (has_exactly revoke_fields s) input_error
      validate_network (get "network" s)
      bounded_int (get "issued_at" s) 0 max_timestamp
      check_revocation s

    unfoldable pub validate_kind : Kind → Fields → Result Fields
    validate_kind kind f = do
      bounded_int (get "version" f) 1 1
      issuer ← parse_public_identity_document c (get "issuer" f)
      s ← fields_of (get "statement" f)
      check_statement kind issuer s
      id ← reputation_id (get "id" f)
      signed ← content kind f
      require (id == id_prefix ++ p.sha256 signed) input_error
      decode_signature c (get "signature" f)
      ok f

    unfoldable pub validate_fields : Fields → Result Fields
    validate_fields f =
        if not (has_exactly reputation_fields f)
        then err input_error
        else elim (kind_of (get "type" f)) [
          | none ↦ err input_error
          | some kind ↦ validate_kind kind f
        ]

    -- `_validate`
    unfoldable pub validate : Value → Result Fields
    validate (Value.dict f) = as_malformed (validate_fields f)
    validate _ = err input_error

    -- `ReputationArtifact(encoded)` with its `__post_init__`, and the document that it holds.
    unfoldable pub new_artifact : Text → Result ReputationArtifact
    new_artifact s = do
      v ← strict_json p (text s) max_reputation_bytes
      f ← validate v
      encoded ← canonical_json p (Value.dict f)
      again ← strict_json p (text encoded) max_reputation_bytes
      document ← fields_of again
      ok (record { encoded = encoded; document = document })

    unfoldable pub parse_reputation_artifact : Input → Result ReputationArtifact
    parse_reputation_artifact value = do
      v ← strict_json p value max_reputation_bytes
      f ← validate v
      s ← canonical_json p (Value.dict f)
      new_artifact s

    abbrev pub network_matches : Option Text → Value → Bool
    network_matches none v = true
    network_matches (some n) v = equals_text v n

    abbrev pub check_network : Option Text → Result (Unit {0})
    check_network none = ok tt
    check_network (some n) = do validate_network (Value.str n); ok tt

    unfoldable pub verify_kind : Kind → Fields → Option Text → Option Text → Result Bool
    verify_kind kind f network issuer = do
      check_network network
      i ← parse_public_identity_document c (get "issuer" f)
      message ← content kind f
      r ← verify_identity c i message (context_of kind) (get "signature" f) issuer
      s ← fields_of (get "statement" f)
      ok (r.valid && network_matches network (get "network" s))

    -- `verify(expected_network=…, expected_issuer=…)`
    unfoldable pub verify : ReputationArtifact → Option Text → Option Text → Result Bool
    verify a network issuer = do
      f ← validate (Value.dict a.document)
      elim (kind_of (get "type" f)) [
        | none ↦ err input_error
        | some kind ↦ verify_kind kind f network issuer
      ]

    -- `_sign`
    unfoldable pub sign_statement : MachineIdentity → Kind → Value → Result ReputationArtifact
    sign_statement m kind statement = do
      issuer ← public_identity_document c m.public_identity
      let unsigned = field "type" (Value.str (kind_text kind)) (
          field "version" (nat 1)
            (field "issuer" (Value.dict issuer) (field "statement" statement end)))
      message ← content kind unsigned
      s ← sign c m message (context_of kind)
      encoded ← canonical_json p (
          Value.dict (
            field "id" (Value.str (id_prefix ++ p.sha256 message))
              (field "signature" (Value.str s.signature) unsigned)))
      new_artifact encoded

    unfoldable pub create_attestation :
        MachineIdentity → Value → Value → Value → Value → Value → Result ReputationArtifact
    create_attestation m subject network issued_at outcome evidence = sign_statement m attests (
        Value.dict (
          field "subject_machine_id" subject (
            field "network" network (
              field "issued_at" issued_at (
                field "category" (Value.str (codes "SERVICE_INTERACTION"))
                  (field "outcome" outcome (field "evidence_digest" evidence end)))))))

    -- The statement and the ID of an artifact.
    abbrev pub statement : ReputationArtifact → Result Fields
    statement a = fields_of (get "statement" a.document)

    unfoldable pub create_revocation :
        MachineIdentity → ReputationArtifact → Value → Result ReputationArtifact
    create_revocation m a issued_at = do
      require (equals_text (get "type" a.document) attestation) input_error
      valid ← verify a none (some m.public_identity.machine_id)
      require valid input_error
      s ← statement a
      sign_statement m revokes (
          Value.dict (
            field "network" (get "network" s)
              (field "issued_at" issued_at (field "attestation_id" (get "id" a.document) end))))
