-- ===== src/Examples/Settlements.antt =====
-- The theorem on recorded settlements, at a concrete input.
use myt_machine.Base.{
  ℕ, ◌≡◌, refl, true, false, Bool, none, some, List, [], ◌∷◌, ◌++◌, Text, ◌==◌, Text_eq, ltb,
  if◌then◌else◌,
}
use myt_machine.Base.Strings.{codes}
use myt_machine.Errors.{ok}
use myt_machine.Json.{Value, Fields, end, field, get, equals_text, sort_fields}
use myt_machine.Payment.{Platform, as_dict, nat}
use myt_machine.Wallet.{Session}
use myt_machine.InvoiceStore.Sql.{Db}
use myt_machine.Billing.{get_invoice}
use myt_machine.Verification.{artifact_of}
use myt_machine.Reputation.Claim.{Claim}
use myt_machine.Reputation.Bridge.{Course, service, record_verified_settlement}
use myt_machine.Reputation.Attributed.{IsRecorded, record_verified_settlement-IsAttributed}
use myt_machine.Examples.Sample.{sample, hex, at}
use myt_machine.Examples.Identities.{toy_crypto, issuer_id}
use myt_machine.Examples.Bindings.{bound, address_reply, spend_reply}
use myt_machine.Examples.Wallets.{proof, proof_reply}
use myt_machine.Examples.Service.{paid_row}
use myt_machine.Examples.Evidence.{now, empty}

abbrev attributed : Fields
attributed = field "type" (Value.str (codes "myt-recipient-settlement-observation")) (
    field "version" (nat 1) (
      field "network" (Value.str (codes "testnet")) (
        field "subject_machine_id" (Value.str issuer_id) (
          field "transaction_digest" (Value.str hex) (
            field "request_digest" (Value.str hex) (field "binding_digest" (Value.str hex) end))))))

-- The settlement is written as `[]` and all else as `{}`, which is read as the request.
abbrev settling_platform : Platform
settling_platform = record {
  dumps = λ v. elim v [
    | Value.dict f ↦
        if equals_text (get "type" f) (codes "myt-recipient-settlement-observation")
        then some (codes "[]")
        else some (codes "{}")
    | _ ↦ some (codes "{}")
  ];
  loads = λ s.
      if s == codes "[]"
      then some (Value.dict attributed)
      else some (Value.dict (sort_fields (as_dict sample)));
  decode = λ s. some s;
  sha256 = λ s. hex;
  is_nfc = λ s. true;
  is_control = λ c. ltb c 32;
}

abbrev course : Course
course = record { first = at 300; second = at 310; recording = now; between = λ db. db }

abbrev both_wallet : Session
both_wallet = record {
  replies =
      ok address_reply
      ∷ ok address_reply
      ∷ ok spend_reply
      ∷ ok address_reply
      ∷ ok address_reply
      ∷ ok proof_reply
      ∷ [];
  calls = [];
}

recorded :
    (record_verified_settlement settling_platform toy_crypto 2
      (codes "testnet")
      issuer_id
      course
      (Value.str (codes "inv-1"))
      bound
      (artifact_of proof)
      (paid_row ∷ [])
      both_wallet
      empty).result
    ≡ ok (hex, true)
unfolding myt_machine.Amounts.amount_object myt_machine.Amounts.decimal myt_machine.Amounts.digits
    myt_machine.Amounts.format_myt_amount myt_machine.Amounts.int_of_text
    myt_machine.Amounts.number_from myt_machine.Amounts.zfill9 myt_machine.Base.Strings.is_digit
    myt_machine.Base.Strings.is_lower myt_machine.Base.Strings.is_space
    myt_machine.Base.Strings.is_upper myt_machine.Base.Strings.rstrip
    myt_machine.Base.Strings.text_lt myt_machine.Base.Strings.to_lower
    myt_machine.Base.Strings.to_upper myt_machine.Base.Strings.utf8
    myt_machine.Base.Strings.utf8_char myt_machine.Base.option_eq myt_machine.Base.text_eq
    myt_machine.Billing.gate myt_machine.Billing.get_invoice myt_machine.Billing.on_network
    myt_machine.Billing.reason_of myt_machine.Billing.require_paid
    myt_machine.Billing.settle_invoice myt_machine.Billing.settle_seen myt_machine.Billing.settled
    myt_machine.Billing.verify_current myt_machine.Billing.verify_invoice
    myt_machine.Billing.verify_pending myt_machine.Binding.Service.check_current
    myt_machine.Binding.Service.validate_address myt_machine.Binding.Service.verify
    myt_machine.Binding.Service.verify_address myt_machine.Binding.Service.verify_signature
    myt_machine.Binding.Service.verify_spend myt_machine.Binding.address_type_of
    myt_machine.Binding.as_dict myt_machine.Binding.create_binding_content
    myt_machine.Binding.is_base58 myt_machine.Binding.is_binding_valid myt_machine.Binding.is_spend
    myt_machine.Binding.parse_address_binding myt_machine.Binding.parse_binding_fields
    myt_machine.Binding.result_of myt_machine.Binding.validate_binding_address
    myt_machine.Binding.validate_binding_network myt_machine.Binding.validated_address
    myt_machine.Binding.verify_binding_identity myt_machine.Binding.wallet_verification_metadata
    myt_machine.Errors.is_input_error myt_machine.Identity.Document.parse_identity_fields
    myt_machine.Identity.Document.parse_public_identity_document
    myt_machine.Identity.Document.public_identity_document myt_machine.Identity.big_endian
    myt_machine.Identity.create_signature_frame myt_machine.Identity.decode_base64url
    myt_machine.Identity.decode_public_key myt_machine.Identity.decode_signature
    myt_machine.Identity.decode_text myt_machine.Identity.derive_machine_id
    myt_machine.Identity.digest_of myt_machine.Identity.encode_base64url
    myt_machine.Identity.encode_digest myt_machine.Identity.encode_public_key
    myt_machine.Identity.is_base32 myt_machine.Identity.is_base64url
    myt_machine.Identity.is_context_char myt_machine.Identity.is_machine_id
    myt_machine.Identity.machine_id_digest myt_machine.Identity.new_identity
    myt_machine.Identity.validate_identity_context myt_machine.Identity.validate_identity_message
    myt_machine.Identity.validate_public_key_bytes myt_machine.Identity.verify_identity
    myt_machine.Invoice.check_evidence myt_machine.Invoice.check_txid myt_machine.Invoice.is_paid
    myt_machine.Invoice.is_pending myt_machine.Invoice.new_record
    myt_machine.InvoiceStore.Decode.as_storage_error myt_machine.InvoiceStore.Decode.decode
    myt_machine.InvoiceStore.Decode.decode_amount myt_machine.InvoiceStore.Decode.decode_row
    myt_machine.InvoiceStore.Decode.is_amount myt_machine.InvoiceStore.Finalize.check_observation
    myt_machine.InvoiceStore.Finalize.finalize myt_machine.InvoiceStore.Finalize.finalize_body
    myt_machine.InvoiceStore.Finalize.settle myt_machine.InvoiceStore.Sql.expire_row
    myt_machine.InvoiceStore.Sql.expire_rows myt_machine.InvoiceStore.Sql.find_id
    myt_machine.InvoiceStore.Sql.holds myt_machine.InvoiceStore.Sql.is_due
    myt_machine.InvoiceStore.Sql.is_target myt_machine.InvoiceStore.Sql.pay_row
    myt_machine.InvoiceStore.Sql.pay_rows myt_machine.InvoiceStore.Sql.same
    myt_machine.InvoiceStore.Sql.update_paid myt_machine.InvoiceStore.check_file
    myt_machine.InvoiceStore.fetch myt_machine.InvoiceStore.get myt_machine.InvoiceStore.get_body
    myt_machine.InvoiceStore.now_of myt_machine.InvoiceStore.transaction myt_machine.Json.contains
    myt_machine.Json.equals_one myt_machine.Json.equals_text myt_machine.Json.get
    myt_machine.Json.has_exactly myt_machine.Json.lookup myt_machine.Json.sort_fields
    myt_machine.Payment.Equal.request_eq myt_machine.Payment.as_dict myt_machine.Payment.bounded_int
    myt_machine.Payment.canonical_json myt_machine.Payment.is_base58
    myt_machine.Payment.is_bounded_text myt_machine.Payment.is_identifier
    myt_machine.Payment.is_network myt_machine.Payment.is_recipient
    myt_machine.Payment.is_version_one myt_machine.Payment.loads_json myt_machine.Payment.new
    myt_machine.Payment.optional_text myt_machine.Payment.parse_fields
    myt_machine.Payment.parse_payment_request myt_machine.Payment.post_init
    myt_machine.Payment.proof_message myt_machine.Payment.recipient_length
    myt_machine.Payment.refused_bytes myt_machine.Payment.serialize_payment_request
    myt_machine.Payment.strict_json myt_machine.Payment.unix_time
    myt_machine.Payment.validate_identifier myt_machine.Payment.validate_network
    myt_machine.Payment.validate_recipient myt_machine.Proofs.create_proof_artifact
    myt_machine.Proofs.is_proof_version myt_machine.Proofs.parse_proof_artifact
    myt_machine.Reputation.Bridge.ask_both myt_machine.Reputation.Bridge.check_observation
    myt_machine.Reputation.Bridge.confirm_claim myt_machine.Reputation.Bridge.record_evidence
    myt_machine.Reputation.Bridge.record_verified_settlement
    myt_machine.Reputation.Bridge.with_claim myt_machine.Reputation.Bridge.with_invoice
    myt_machine.Reputation.Bridge.with_observation myt_machine.Reputation.Claim.check_arguments
    myt_machine.Reputation.Claim.check_claim myt_machine.Reputation.Claim.check_unchanged
    myt_machine.Reputation.Claim.evidence_of myt_machine.Reputation.Claim.same_record
    myt_machine.Reputation.Claim.without_text myt_machine.Reputation.Evidence.as_corrupt
    myt_machine.Reputation.Evidence.columns myt_machine.Reputation.Evidence.decode
    myt_machine.Reputation.Evidence.decode_artifacts
    myt_machine.Reputation.Evidence.decode_settlement
    myt_machine.Reputation.Evidence.decode_settlements myt_machine.Reputation.Evidence.insert_by
    myt_machine.Reputation.Evidence.optional_string myt_machine.Reputation.Evidence.order_by
    myt_machine.Reputation.Evidence.same_artifact myt_machine.Reputation.Evidence.same_settlement
    myt_machine.Reputation.Evidence.settlement_columns
    myt_machine.Reputation.Evidence.settlement_digest myt_machine.Reputation.Evidence.string_of
    myt_machine.Reputation.Evidence.validate_settlement myt_machine.Reputation.Limits.run_call
    myt_machine.Reputation.Limits.run_calls myt_machine.Reputation.Store.artifacts_clash
    myt_machine.Reputation.Store.attributed myt_machine.Reputation.Store.check_file
    myt_machine.Reputation.Store.check_import myt_machine.Reputation.Store.check_settlement
    myt_machine.Reputation.Store.find_entry myt_machine.Reputation.Store.forbids
    myt_machine.Reputation.Store.import_artifact myt_machine.Reputation.Store.import_body
    myt_machine.Reputation.Store.insert_artifact myt_machine.Reputation.Store.insert_settlement
    myt_machine.Reputation.Store.is_authorized myt_machine.Reputation.Store.read_all
    myt_machine.Reputation.Store.record_body myt_machine.Reputation.Store.record_settlement
    myt_machine.Reputation.Store.settlements_clash myt_machine.Reputation.Store.transaction
    myt_machine.Reputation.as_malformed myt_machine.Reputation.check_attestation
    myt_machine.Reputation.check_revocation myt_machine.Reputation.check_statement
    myt_machine.Reputation.content myt_machine.Reputation.content_digest
    myt_machine.Reputation.context_of myt_machine.Reputation.domain
    myt_machine.Reputation.evidence_digest myt_machine.Reputation.is_lower_hex
    myt_machine.Reputation.is_outcome myt_machine.Reputation.kind_of
    myt_machine.Reputation.new_artifact myt_machine.Reputation.optional_digest
    myt_machine.Reputation.parse_reputation_artifact myt_machine.Reputation.reputation_id
    myt_machine.Reputation.validate myt_machine.Reputation.validate_fields
    myt_machine.Reputation.validate_kind myt_machine.Reputation.verify
    myt_machine.Reputation.verify_kind myt_machine.Settlement.Payments.verify_payment
    myt_machine.Settlement.Payments.verify_proof myt_machine.Settlement.amount_of
    myt_machine.Settlement.rpc_bool myt_machine.Settlement.rpc_int myt_machine.Settlement.rpc_string
    myt_machine.Settlement.validate_wallet_address myt_machine.Validation.is_hex
    myt_machine.Validation.is_txid myt_machine.Validation.normalize_txid
    myt_machine.Validation.validate_address_text myt_machine.Validation.validate_message
    myt_machine.Validation.validate_signature myt_machine.Validation.within_bytes
    myt_machine.Verification.Verifier.ask_wallet myt_machine.Verification.Verifier.check_response
    myt_machine.Verification.Verifier.validate_request myt_machine.Verification.Verifier.verify
    myt_machine.Verification.artifact_of myt_machine.Verification.check_out_proof
    myt_machine.Verification.conclude myt_machine.Verification.is_out_proof
    myt_machine.Verification.local_failure myt_machine.Verification.prepare myt_machine.Wallet.call
    myt_machine.Wallet.continue myt_machine.Wallet.lift myt_machine.Wallet.pure
    myt_machine.Wallet.◌>>=◌ myt_machine.Binding.new_binding myt_machine.Binding.checked_signature
    myt_machine.Binding.validate_wallet_signature myt_machine.InvoiceStore.attempt
recorded = refl

record_verified_settlement-IsAttributed_example :
    (claim : Claim) × ((get_invoice settling_platform
        (service (codes "testnet"))
        (at 300)
        (Value.str (codes "inv-1"))
        (paid_row ∷ [])).0
      ≡ ok claim.invoice)
    × IsRecorded settling_platform toy_crypto 2
        (codes "testnet")
        issuer_id
        course
        (Value.str (codes "inv-1"))
        (hex, true)
        claim
        both_wallet
        (record_verified_settlement settling_platform toy_crypto 2
          (codes "testnet")
          issuer_id
          course
          (Value.str (codes "inv-1"))
          bound
          (artifact_of proof)
          (paid_row ∷ [])
          both_wallet
          empty).session
        empty
record_verified_settlement-IsAttributed_example =
    record_verified_settlement-IsAttributed settling_platform toy_crypto 2 (codes "testnet")
      issuer_id course (Value.str (codes "inv-1")) (hex, true) bound (artifact_of proof)
      (paid_row ∷ []) both_wallet empty recorded
