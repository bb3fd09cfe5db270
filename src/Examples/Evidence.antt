-- ===== src/Examples/Evidence.antt =====
-- The theorems on reputation evidence, at concrete inputs.
use myt_machine.Base.{
  ℕ, ◌≡◌, ◌≤◌, refl, true, false, Bool, Option, none, some, List, [], ◌∷◌, ◌++◌, Text, ◌==◌,
  Text_eq, All, ltb, replicate, arith, if◌then◌else◌,
}
use myt_machine.Base.Strings.{codes}
use myt_machine.Errors.{Result, ok}
use myt_machine.Json.{Value, Fields, end, field, get, equals_text}
use myt_machine.Payment.{Platform, nat, validate_network}
use myt_machine.Identity.{identity_type, identity_algorithm}
use myt_machine.Reputation.{Kind, attests, ReputationArtifact, attestation, id_prefix}
use myt_machine.Reputation.Accepted.{IsArtifact, IsSigned, verify-IsSigned}
use myt_machine.Reputation.Evidence.{ArtifactRow, SettlementRow, Entry}
use myt_machine.Reputation.Store.{Moment, Db, snapshot}
use myt_machine.Reputation.Limits.{
  Call, import_call, record_call, Distinct, IsConsistent, run_calls, run_calls-IsConsistent,
}
use myt_machine.Reputation.Reads.{IsAuthentic, snapshot-IsAuthentic}
use myt_machine.Reputation.Policy.{
  ReputationPolicy, Criteria, Summary, check_summary, summarize, reputation_summary,
}
use myt_machine.Reputation.Fair.{IsSummary, reputation_summary-IsSummary}
use myt_machine.Examples.Sample.{hex}
use myt_machine.Examples.Identities.{toy_crypto, issuer_id, subject_id}

abbrev network : Text
network = codes "testnet"

abbrev opinion : Fields
opinion = field "subject_machine_id" (Value.str subject_id) (
    field "network" (Value.str network) (
      field "issued_at" (nat 100) (
        field "category" (Value.str (codes "SERVICE_INTERACTION")) (
          field "outcome" (Value.str (codes "POSITIVE"))
            (field "evidence_digest" Value.null end)))))

abbrev issuer_document : Fields
issuer_document = field "algorithm" (Value.str identity_algorithm) (
    field "machine_id" (Value.str issuer_id) (
      field "public_key" (Value.str (replicate 43 b'A'))
        (field "type" (Value.str identity_type) (field "version" (nat 1) end))))

abbrev opinion_id : Text
opinion_id = id_prefix ++ hex

abbrev opinion_document : Fields
opinion_document = field "type" (Value.str attestation) (
    field "version" (nat 1) (
      field "issuer" (Value.dict issuer_document) (
        field "statement" (Value.dict opinion) (
          field "id" (Value.str opinion_id)
            (field "signature" (Value.str (replicate 86 b'A')) end)))))

abbrev settlement : Fields
settlement = field "type" (Value.str (codes "myt-recipient-settlement-observation")) (
    field "version" (nat 1) (
      field "network" (Value.str network) (
        field "subject_machine_id" (Value.str subject_id) (
          field "transaction_digest" (Value.str hex) (
            field "request_digest" (Value.str hex) (field "binding_digest" (Value.str hex) end))))))

-- The settlement is written as `[]` and all else as `{}`, which is read as the opinion.
abbrev evidence_platform : Platform
evidence_platform = record {
  dumps = λ v. elim v [
    | Value.dict f ↦
        if equals_text (get "type" f) (codes "myt-recipient-settlement-observation")
        then some (codes "[]")
        else some (codes "{}")
    | _ ↦ some (codes "{}")
  ];
  loads = λ s.
      if s == codes "[]" then some (Value.dict settlement) else some (Value.dict opinion_document);
  decode = λ s. some s;
  sha256 = λ s. hex;
  is_nfc = λ s. true;
  is_control = λ c. ltb c 32;
}

abbrev opinion_artifact : ReputationArtifact
opinion_artifact = record { encoded = codes "{}"; document = opinion_document }

verify-IsSigned_example :
    (kind : Kind) × IsArtifact evidence_platform toy_crypto kind opinion_document
    × IsSigned evidence_platform toy_crypto kind opinion_document (some network) (some issuer_id)
unfolding myt_machine.Reputation.verify myt_machine.Reputation.validate
    myt_machine.Reputation.as_malformed myt_machine.Reputation.validate_fields
    myt_machine.Json.has_exactly myt_machine.Json.lookup myt_machine.Reputation.kind_of equals_text
    get myt_machine.Base.text_eq myt_machine.Reputation.validate_kind
    myt_machine.Payment.bounded_int myt_machine.Identity.Document.parse_public_identity_document
    myt_machine.Identity.Document.parse_identity_fields myt_machine.Payment.is_version_one
    myt_machine.Identity.decode_public_key myt_machine.Identity.decode_base64url
    myt_machine.Base.Strings.is_digit myt_machine.Base.Strings.is_lower
    myt_machine.Base.Strings.is_upper myt_machine.Base.Strings.rstrip
    myt_machine.Base.Strings.to_lower myt_machine.Base.Strings.to_upper
    myt_machine.Errors.is_input_error myt_machine.Identity.big_endian
    myt_machine.Identity.create_signature_frame myt_machine.Identity.decode_signature
    myt_machine.Identity.decode_text myt_machine.Identity.derive_machine_id
    myt_machine.Identity.digest_of myt_machine.Identity.encode_base64url
    myt_machine.Identity.encode_digest myt_machine.Identity.is_base32
    myt_machine.Identity.is_base64url myt_machine.Identity.is_context_char
    myt_machine.Identity.is_machine_id myt_machine.Identity.machine_id_digest
    myt_machine.Identity.new_identity myt_machine.Identity.validate_identity_context
    myt_machine.Identity.validate_identity_message myt_machine.Identity.validate_public_key_bytes
    myt_machine.Identity.verify_identity myt_machine.Json.contains
    myt_machine.Payment.canonical_json myt_machine.Payment.is_network validate_network
    myt_machine.Reputation.check_attestation myt_machine.Reputation.check_revocation
    myt_machine.Reputation.check_statement myt_machine.Reputation.content
    myt_machine.Reputation.context_of myt_machine.Reputation.domain
    myt_machine.Reputation.evidence_digest myt_machine.Reputation.is_lower_hex
    myt_machine.Reputation.is_outcome myt_machine.Reputation.optional_digest
    myt_machine.Reputation.reputation_id myt_machine.Reputation.verify_kind
verify-IsSigned_example =
    verify-IsSigned evidence_platform toy_crypto opinion_artifact (some network) (some issuer_id)
      refl

abbrev pub now : Moment
now = record {
  file = some (record { is_regular = true; links = 1; mode = 0o600 });
  is_windows = false;
  begins = true;
  commits = true;
}

abbrev opinion_row : ArtifactRow
opinion_row = record {
  id = opinion_id;
  digest = hex;
  network = network;
  kind = attestation;
  issuer = issuer_id;
  subject = some subject_id;
  artifact = codes "{}";
}

abbrev opinion_entry : Entry
opinion_entry = record { row = opinion_row; statement = opinion }

abbrev settlement_row : SettlementRow
settlement_row = record {
  digest = hex;
  network = network;
  subject = subject_id;
  transaction_digest = hex;
  request_digest = hex;
  evidence = codes "[]";
}

abbrev filled : Db
filled = record { artifacts = opinion_row ∷ []; settlements = settlement_row ∷ [] }

abbrev pub empty : Db
empty = record { artifacts = []; settlements = [] }

empty-IsConsistent : IsConsistent 2 empty
unfolding Distinct
empty-IsConsistent = record { within = ground arith; artifacts = tt; settlements = tt }

abbrev calls : List Call
calls = import_call now opinion_artifact network ∷ record_call now (Value.dict settlement) ∷ []

-- Both calls are stored.
run_calls_test : run_calls evidence_platform toy_crypto 2 calls empty ≡ filled
unfolding run_calls myt_machine.Reputation.Limits.run_call
    myt_machine.Reputation.Store.record_settlement myt_machine.Reputation.Store.check_settlement
    myt_machine.Payment.canonical_json equals_text get myt_machine.Json.lookup
    myt_machine.Base.text_eq myt_machine.Payment.strict_json myt_machine.Base.Strings.utf8
    myt_machine.Payment.refused_bytes myt_machine.Payment.loads_json
    myt_machine.Reputation.Evidence.validate_settlement myt_machine.Json.has_exactly
    myt_machine.Payment.bounded_int myt_machine.Payment.validate_network
    myt_machine.Payment.is_network myt_machine.Identity.machine_id_digest
    myt_machine.Identity.digest_of myt_machine.Identity.is_machine_id myt_machine.Identity.is_base32
    myt_machine.Base.Strings.is_lower myt_machine.Base.Strings.to_upper
    myt_machine.Identity.encode_digest myt_machine.Base.Strings.rstrip
    myt_machine.Base.Strings.to_lower myt_machine.Reputation.evidence_digest
    myt_machine.Reputation.is_lower_hex myt_machine.Base.Strings.is_digit
    myt_machine.Reputation.Evidence.settlement_columns
    myt_machine.Reputation.Evidence.settlement_digest myt_machine.Reputation.content_digest
    myt_machine.Reputation.Evidence.string_of myt_machine.Reputation.Store.transaction
    myt_machine.Reputation.Store.check_file myt_machine.Reputation.Store.record_body
    myt_machine.Reputation.Store.read_all myt_machine.Reputation.Store.import_artifact
    myt_machine.Reputation.Store.check_import myt_machine.Reputation.parse_reputation_artifact
    myt_machine.Reputation.validate myt_machine.Reputation.as_malformed
    myt_machine.Reputation.validate_fields myt_machine.Reputation.kind_of
    myt_machine.Reputation.validate_kind
    myt_machine.Identity.Document.parse_public_identity_document
    myt_machine.Identity.Document.parse_identity_fields myt_machine.Payment.is_version_one
    myt_machine.Identity.decode_public_key myt_machine.Identity.decode_base64url
    myt_machine.Base.option_eq myt_machine.Base.Strings.is_upper myt_machine.Base.Strings.text_lt
    myt_machine.Base.Strings.utf8_char myt_machine.Errors.is_input_error
    myt_machine.Identity.big_endian myt_machine.Identity.create_signature_frame
    myt_machine.Identity.decode_signature myt_machine.Identity.decode_text
    myt_machine.Identity.derive_machine_id myt_machine.Identity.encode_base64url
    myt_machine.Identity.is_base64url myt_machine.Identity.is_context_char
    myt_machine.Identity.new_identity myt_machine.Identity.validate_identity_context
    myt_machine.Identity.validate_identity_message myt_machine.Identity.validate_public_key_bytes
    myt_machine.Identity.verify_identity myt_machine.Json.contains
    myt_machine.Reputation.Evidence.as_corrupt myt_machine.Reputation.Evidence.columns
    myt_machine.Reputation.Evidence.decode myt_machine.Reputation.Evidence.decode_artifacts
    myt_machine.Reputation.Evidence.decode_settlement
    myt_machine.Reputation.Evidence.decode_settlements myt_machine.Reputation.Evidence.insert_by
    myt_machine.Reputation.Evidence.optional_string myt_machine.Reputation.Evidence.order_by
    myt_machine.Reputation.Evidence.same_artifact myt_machine.Reputation.Evidence.same_settlement
    myt_machine.Reputation.Store.artifacts_clash myt_machine.Reputation.Store.attributed
    myt_machine.Reputation.Store.find_entry myt_machine.Reputation.Store.forbids
    myt_machine.Reputation.Store.import_body myt_machine.Reputation.Store.insert_artifact
    myt_machine.Reputation.Store.insert_settlement myt_machine.Reputation.Store.is_authorized
    myt_machine.Reputation.Store.settlements_clash myt_machine.Reputation.check_attestation
    myt_machine.Reputation.check_revocation myt_machine.Reputation.check_statement
    myt_machine.Reputation.content myt_machine.Reputation.context_of myt_machine.Reputation.domain
    myt_machine.Reputation.is_outcome myt_machine.Reputation.new_artifact
    myt_machine.Reputation.optional_digest myt_machine.Reputation.reputation_id
    myt_machine.Reputation.verify myt_machine.Reputation.verify_kind
run_calls_test = refl

run_calls-IsConsistent_example :
    IsConsistent 2 (run_calls evidence_platform toy_crypto 2 calls empty)
run_calls-IsConsistent_example =
    run_calls-IsConsistent evidence_platform toy_crypto 2 calls empty empty-IsConsistent

snapshot-IsAuthentic_example :
    (n : Text) × (validate_network (Value.str network) ≡ ok n)
    × All
        (λ e. IsAuthentic evidence_platform toy_crypto e × (e.row.network ≡ n))
        (opinion_entry ∷ [])
    × (filled ≡ filled)
unfolding snapshot validate_network myt_machine.Payment.is_network myt_machine.Base.text_eq
    myt_machine.Reputation.Store.transaction myt_machine.Reputation.Store.check_file
    myt_machine.Reputation.Store.read_all myt_machine.Reputation.Evidence.decode_artifacts
    myt_machine.Reputation.Evidence.order_by myt_machine.Reputation.Evidence.insert_by
    myt_machine.Reputation.Evidence.decode myt_machine.Reputation.Evidence.as_corrupt
    myt_machine.Reputation.parse_reputation_artifact myt_machine.Payment.strict_json
    myt_machine.Base.Strings.utf8 myt_machine.Payment.refused_bytes myt_machine.Payment.loads_json
    myt_machine.Reputation.validate myt_machine.Reputation.as_malformed
    myt_machine.Reputation.validate_fields myt_machine.Json.has_exactly myt_machine.Json.lookup
    myt_machine.Reputation.kind_of equals_text get myt_machine.Reputation.validate_kind
    myt_machine.Payment.bounded_int myt_machine.Identity.Document.parse_public_identity_document
    myt_machine.Identity.Document.parse_identity_fields myt_machine.Payment.is_version_one
    myt_machine.Identity.decode_public_key myt_machine.Identity.decode_base64url
    myt_machine.Identity.decode_text myt_machine.Identity.is_base64url myt_machine.Base.option_eq
    myt_machine.Base.Strings.is_digit myt_machine.Base.Strings.is_lower
    myt_machine.Base.Strings.is_upper myt_machine.Base.Strings.rstrip
    myt_machine.Base.Strings.text_lt myt_machine.Base.Strings.to_lower
    myt_machine.Base.Strings.to_upper myt_machine.Base.Strings.utf8_char
    myt_machine.Errors.is_input_error myt_machine.Identity.big_endian
    myt_machine.Identity.create_signature_frame myt_machine.Identity.decode_signature
    myt_machine.Identity.derive_machine_id myt_machine.Identity.digest_of
    myt_machine.Identity.encode_base64url myt_machine.Identity.encode_digest
    myt_machine.Identity.is_base32 myt_machine.Identity.is_context_char
    myt_machine.Identity.is_machine_id myt_machine.Identity.machine_id_digest
    myt_machine.Identity.new_identity myt_machine.Identity.validate_identity_context
    myt_machine.Identity.validate_identity_message myt_machine.Identity.validate_public_key_bytes
    myt_machine.Identity.verify_identity myt_machine.Json.contains
    myt_machine.Payment.canonical_json myt_machine.Reputation.Evidence.columns
    myt_machine.Reputation.Evidence.decode_settlement
    myt_machine.Reputation.Evidence.decode_settlements
    myt_machine.Reputation.Evidence.optional_string myt_machine.Reputation.Evidence.same_artifact
    myt_machine.Reputation.Evidence.same_settlement
    myt_machine.Reputation.Evidence.settlement_columns
    myt_machine.Reputation.Evidence.settlement_digest myt_machine.Reputation.Evidence.string_of
    myt_machine.Reputation.Evidence.validate_settlement myt_machine.Reputation.Store.events_on
    myt_machine.Reputation.Store.on_network myt_machine.Reputation.check_attestation
    myt_machine.Reputation.check_revocation myt_machine.Reputation.check_statement
    myt_machine.Reputation.content myt_machine.Reputation.content_digest
    myt_machine.Reputation.context_of myt_machine.Reputation.domain
    myt_machine.Reputation.evidence_digest myt_machine.Reputation.is_lower_hex
    myt_machine.Reputation.is_outcome myt_machine.Reputation.new_artifact
    myt_machine.Reputation.optional_digest myt_machine.Reputation.reputation_id
    myt_machine.Reputation.verify myt_machine.Reputation.verify_kind
snapshot-IsAuthentic_example =
    snapshot-IsAuthentic evidence_platform toy_crypto 2 now (Value.str network) filled filled
      (opinion_entry ∷ []) (settlement_row ∷ []) refl

abbrev policy : ReputationPolicy
policy = record {
  trusted_issuers = some (Value.str issuer_id ∷ []);
  max_per_issuer = nat 1;
  min_age = nat 0;
  max_age = nat 100;
  require_settlement = Value.bool false;
}

abbrev criteria : Criteria
criteria = record {
  trusted_issuers = issuer_id ∷ [];
  max_per_issuer = 1;
  min_age = 0;
  max_age = 100;
  require_settlement = false;
}

abbrev summary : Summary
summary = record {
  subject_machine_id = subject_id;
  network = network;
  verified_recipient_settlement_events = 1;
  cryptographically_valid_attestations = 1;
  revoked_attestations = 0;
  policy = criteria;
  as_of = 150;
  accepted_attestations = 1;
  unique_machine_identity_issuers = 1;
  positive = 1;
  neutral = 0;
  negative = 0;
  oldest_accepted_issuer_claimed_time = some 100;
  newest_accepted_issuer_claimed_time = some 100;
}

reputation_summary-IsSummary_example :
    (id n : Text) × (policy' : Criteria) × (at : ℕ) × (entries : List Entry) × (events : List
      SettlementRow)
    × (check_summary toy_crypto (Value.str subject_id) (Value.str network) policy (nat 150)
        ≡ ok (id, n, policy', at))
    × (snapshot evidence_platform toy_crypto 2 now (Value.str network) filled
        ≡ (ok (entries, events), filled))
    × IsSummary policy' id at entries events summary
unfolding reputation_summary check_summary myt_machine.Reputation.Policy.machine_id_of
    myt_machine.Identity.machine_id_digest myt_machine.Identity.digest_of
    myt_machine.Identity.is_machine_id myt_machine.Base.text_eq myt_machine.Identity.is_base32
    myt_machine.Base.Strings.is_lower myt_machine.Base.Strings.to_upper
    myt_machine.Identity.encode_digest myt_machine.Base.Strings.rstrip
    myt_machine.Base.Strings.to_lower validate_network myt_machine.Payment.is_network
    myt_machine.Reputation.Policy.post_init myt_machine.Reputation.Policy.trusted_of
    myt_machine.Reputation.Policy.machine_ids myt_machine.Reputation.Policy.has_duplicate
    myt_machine.Payment.bounded_int myt_machine.Reputation.Policy.flag myt_machine.Payment.unix_time
    snapshot myt_machine.Reputation.Store.transaction myt_machine.Reputation.Store.check_file
    myt_machine.Reputation.Store.read_all myt_machine.Reputation.Evidence.decode_artifacts
    myt_machine.Reputation.Evidence.order_by myt_machine.Reputation.Evidence.insert_by
    myt_machine.Reputation.Evidence.decode myt_machine.Reputation.Evidence.as_corrupt
    myt_machine.Reputation.parse_reputation_artifact myt_machine.Payment.strict_json
    myt_machine.Base.Strings.utf8 myt_machine.Payment.refused_bytes myt_machine.Payment.loads_json
    myt_machine.Reputation.validate myt_machine.Reputation.as_malformed
    myt_machine.Reputation.validate_fields myt_machine.Json.has_exactly myt_machine.Json.lookup
    myt_machine.Reputation.kind_of equals_text get myt_machine.Reputation.validate_kind
    myt_machine.Identity.Document.parse_public_identity_document
    myt_machine.Identity.Document.parse_identity_fields myt_machine.Payment.is_version_one
    myt_machine.Identity.decode_public_key myt_machine.Identity.decode_base64url
    myt_machine.Identity.decode_text myt_machine.Identity.is_base64url
    myt_machine.Identity.encode_base64url myt_machine.Identity.new_identity
    myt_machine.Identity.validate_public_key_bytes myt_machine.Identity.derive_machine_id
    myt_machine.Reputation.check_statement myt_machine.Reputation.check_attestation
    myt_machine.Reputation.is_outcome myt_machine.Reputation.optional_digest
    myt_machine.Reputation.reputation_id myt_machine.Reputation.is_lower_hex
    myt_machine.Base.Strings.is_digit myt_machine.Reputation.content
    myt_machine.Payment.canonical_json myt_machine.Identity.decode_signature
    myt_machine.Reputation.new_artifact myt_machine.Reputation.Evidence.columns
    myt_machine.Base.option_eq myt_machine.Base.Strings.is_upper myt_machine.Base.Strings.text_lt
    myt_machine.Base.Strings.utf8_char myt_machine.Errors.is_input_error
    myt_machine.Identity.big_endian myt_machine.Identity.create_signature_frame
    myt_machine.Identity.is_context_char myt_machine.Identity.validate_identity_context
    myt_machine.Identity.validate_identity_message myt_machine.Identity.verify_identity
    myt_machine.Json.contains myt_machine.Reputation.Evidence.decode_settlement
    myt_machine.Reputation.Evidence.decode_settlements
    myt_machine.Reputation.Evidence.optional_string myt_machine.Reputation.Evidence.same_artifact
    myt_machine.Reputation.Evidence.same_settlement
    myt_machine.Reputation.Evidence.settlement_columns
    myt_machine.Reputation.Evidence.settlement_digest myt_machine.Reputation.Evidence.string_of
    myt_machine.Reputation.Evidence.validate_settlement
    myt_machine.Reputation.Policy.attestations_of myt_machine.Reputation.Policy.comes_before
    myt_machine.Reputation.Policy.consider myt_machine.Reputation.Policy.consider_all
    myt_machine.Reputation.Policy.contribute myt_machine.Reputation.Policy.contributed
    myt_machine.Reputation.Policy.count_outcome myt_machine.Reputation.Policy.in_age
    myt_machine.Reputation.Policy.insert_newest myt_machine.Reputation.Policy.is_linked
    myt_machine.Reputation.Policy.is_revoked myt_machine.Reputation.Policy.is_trusted
    myt_machine.Reputation.Policy.issued_at myt_machine.Reputation.Policy.newest
    myt_machine.Reputation.Policy.newest_first myt_machine.Reputation.Policy.oldest
    myt_machine.Reputation.Policy.qualifies myt_machine.Reputation.Policy.settlements_of
    myt_machine.Reputation.Policy.shown summarize myt_machine.Reputation.Policy.tally
    myt_machine.Reputation.Store.events_on myt_machine.Reputation.Store.on_network
    myt_machine.Reputation.check_revocation myt_machine.Reputation.content_digest
    myt_machine.Reputation.context_of myt_machine.Reputation.domain
    myt_machine.Reputation.evidence_digest myt_machine.Reputation.verify
    myt_machine.Reputation.verify_kind
reputation_summary-IsSummary_example =
    reputation_summary-IsSummary evidence_platform toy_crypto 2 now (Value.str subject_id)
      (Value.str network) policy (nat 150) filled filled summary refl
