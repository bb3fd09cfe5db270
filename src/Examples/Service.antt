-- ===== src/Examples/Service.antt =====
-- The theorems on the billing service, at concrete inputs.
use myt_machine.Base.{◌≡◌, refl, true, some, List, [], ◌∷◌, Text}
use myt_machine.Base.Strings.{codes}
use myt_machine.Errors.{ok}
use myt_machine.Json.{Value}
use myt_machine.Invoice.{is_paid, paid, InvoiceRecord}
use myt_machine.Invoice.Valid.{IsValidRecord}
use myt_machine.InvoiceStore.Sql.{Row, Db}
use myt_machine.Verification.{artifact_of}
use myt_machine.Billing.{BillingService, InvoiceVerification, require_paid, verify_invoice}
use myt_machine.Billing.Gate.{require_paid_lem, verify_invoice_lem}
use myt_machine.Examples.Sample.{platform, hex, at}
use myt_machine.Examples.Store.{row, paid_sample}
use myt_machine.Examples.Wallets.{proof, good_wallet}

abbrev service : BillingService
service = record { network = codes "testnet"; verifier = some (codes "testnet") }

abbrev pub paid_row : Row
paid_row = record row {
  state = paid;
  txid = some hex;
  received_atomic = some (codes "5");
  confirmations = some 12;
  paid_at = some 150;
}

let_through :
    (require_paid platform service (at 300) (Value.str (codes "inv-1")) (paid_row ∷ [])).0
    ≡ ok paid_sample
unfolding require_paid myt_machine.Billing.get_invoice myt_machine.Billing.on_network
    myt_machine.InvoiceStore.get myt_machine.Payment.validate_identifier
    myt_machine.Payment.is_identifier myt_machine.Base.Strings.is_digit
    myt_machine.Base.Strings.is_upper myt_machine.Base.Strings.is_lower
    myt_machine.InvoiceStore.transaction myt_machine.InvoiceStore.check_file
    myt_machine.InvoiceStore.get_body myt_machine.InvoiceStore.now_of myt_machine.Payment.unix_time
    myt_machine.Payment.bounded_int myt_machine.InvoiceStore.fetch
    myt_machine.InvoiceStore.Sql.find_id myt_machine.Amounts.int_of_text
    myt_machine.Amounts.number_from myt_machine.Base.text_eq myt_machine.Base.Strings.to_lower
    myt_machine.Base.Strings.utf8 myt_machine.Base.Strings.utf8_char myt_machine.Billing.gate
    myt_machine.Errors.is_input_error myt_machine.Invoice.check_evidence
    myt_machine.Invoice.check_txid is_paid myt_machine.Invoice.is_pending
    myt_machine.Invoice.new_record myt_machine.InvoiceStore.Decode.as_storage_error
    myt_machine.InvoiceStore.Decode.decode myt_machine.InvoiceStore.Decode.decode_amount
    myt_machine.InvoiceStore.Decode.decode_row myt_machine.InvoiceStore.Decode.is_amount
    myt_machine.InvoiceStore.Sql.expire_row myt_machine.InvoiceStore.Sql.expire_rows
    myt_machine.InvoiceStore.Sql.is_due myt_machine.Json.contains myt_machine.Json.equals_text
    myt_machine.Json.get myt_machine.Json.has_exactly myt_machine.Json.lookup
    myt_machine.Payment.as_dict myt_machine.Payment.canonical_json myt_machine.Payment.is_base58
    myt_machine.Payment.is_bounded_text myt_machine.Payment.is_network
    myt_machine.Payment.is_recipient myt_machine.Payment.is_version_one
    myt_machine.Payment.loads_json myt_machine.Payment.new myt_machine.Payment.optional_text
    myt_machine.Payment.parse_fields myt_machine.Payment.parse_payment_request
    myt_machine.Payment.post_init myt_machine.Payment.recipient_length
    myt_machine.Payment.refused_bytes myt_machine.Payment.serialize_payment_request
    myt_machine.Payment.strict_json myt_machine.Payment.validate_network
    myt_machine.Payment.validate_recipient myt_machine.Validation.is_hex
    myt_machine.Validation.is_txid myt_machine.Validation.normalize_txid
    myt_machine.Json.sort_fields myt_machine.InvoiceStore.attempt
let_through = refl

require_paid_lem_example :
    (is_paid paid ≡ true) × (codes "testnet" ≡ codes "testnet") × IsValidRecord platform paid_sample
require_paid_lem_example =
    require_paid_lem platform service (at 300) (Value.str (codes "inv-1")) (paid_row ∷ [])
      paid_sample let_through

abbrev between : Db → Db
between db = db

abbrev verification : InvoiceVerification
verification = record { invoice = paid_sample; reason = codes "confirmed" }

now_paid :
    (verify_invoice platform service
      (at 140)
      (at 150)
      between
      (Value.str (codes "inv-1"))
      (artifact_of proof)
      (row ∷ [])
      good_wallet).0.0
    ≡ ok verification
unfolding require_paid myt_machine.Billing.get_invoice myt_machine.Billing.on_network
    myt_machine.InvoiceStore.get myt_machine.Payment.validate_identifier
    myt_machine.Payment.is_identifier myt_machine.Base.Strings.is_digit
    myt_machine.Base.Strings.is_upper myt_machine.Base.Strings.is_lower
    myt_machine.InvoiceStore.transaction myt_machine.InvoiceStore.check_file
    myt_machine.InvoiceStore.get_body myt_machine.InvoiceStore.now_of myt_machine.Payment.unix_time
    myt_machine.Payment.bounded_int myt_machine.InvoiceStore.fetch
    myt_machine.InvoiceStore.Sql.find_id myt_machine.Amounts.int_of_text
    myt_machine.Amounts.number_from myt_machine.Base.text_eq myt_machine.Base.Strings.to_lower
    myt_machine.Base.Strings.utf8 myt_machine.Base.Strings.utf8_char myt_machine.Billing.gate
    myt_machine.Errors.is_input_error myt_machine.Invoice.check_evidence
    myt_machine.Invoice.check_txid is_paid myt_machine.Invoice.is_pending
    myt_machine.Invoice.new_record myt_machine.InvoiceStore.Decode.as_storage_error
    myt_machine.InvoiceStore.Decode.decode myt_machine.InvoiceStore.Decode.decode_amount
    myt_machine.InvoiceStore.Decode.decode_row myt_machine.InvoiceStore.Decode.is_amount
    myt_machine.InvoiceStore.Sql.expire_row myt_machine.InvoiceStore.Sql.expire_rows
    myt_machine.InvoiceStore.Sql.is_due myt_machine.Json.contains myt_machine.Json.equals_text
    myt_machine.Json.get myt_machine.Json.has_exactly myt_machine.Json.lookup
    myt_machine.Payment.as_dict myt_machine.Payment.canonical_json myt_machine.Payment.is_base58
    myt_machine.Payment.is_bounded_text myt_machine.Payment.is_network
    myt_machine.Payment.is_recipient myt_machine.Payment.is_version_one
    myt_machine.Payment.loads_json myt_machine.Payment.new myt_machine.Payment.optional_text
    myt_machine.Payment.parse_fields myt_machine.Payment.parse_payment_request
    myt_machine.Payment.post_init myt_machine.Payment.recipient_length
    myt_machine.Payment.refused_bytes myt_machine.Payment.serialize_payment_request
    myt_machine.Payment.strict_json myt_machine.Payment.validate_network
    myt_machine.Payment.validate_recipient myt_machine.Validation.is_hex
    myt_machine.Validation.is_txid myt_machine.Validation.normalize_txid
    myt_machine.Json.sort_fields myt_machine.InvoiceStore.Finalize.finalize
    myt_machine.InvoiceStore.Finalize.check_observation myt_machine.Payment.proof_message
    myt_machine.Amounts.decimal myt_machine.Amounts.digits myt_machine.Base.option_eq
    myt_machine.InvoiceStore.Finalize.finalize_body myt_machine.InvoiceStore.Finalize.settle
    myt_machine.InvoiceStore.Sql.holds myt_machine.InvoiceStore.Sql.is_target
    myt_machine.InvoiceStore.Sql.pay_row myt_machine.InvoiceStore.Sql.pay_rows
    myt_machine.InvoiceStore.Sql.same myt_machine.InvoiceStore.Sql.update_paid
    myt_machine.Payment.Equal.request_eq myt_machine.Verification.Verifier.verify
    myt_machine.Wallet.◌>>=◌ myt_machine.Wallet.lift myt_machine.Verification.prepare artifact_of
    myt_machine.Verification.check_out_proof myt_machine.Verification.is_out_proof
    myt_machine.Proofs.parse_proof_artifact myt_machine.Proofs.is_proof_version
    myt_machine.Amounts.amount_object myt_machine.Amounts.format_myt_amount
    myt_machine.Amounts.zfill9 myt_machine.Base.Strings.is_space myt_machine.Json.equals_one
    myt_machine.Proofs.create_proof_artifact myt_machine.Settlement.Payments.verify_payment
    myt_machine.Settlement.Payments.verify_proof myt_machine.Settlement.amount_of
    myt_machine.Settlement.rpc_bool myt_machine.Settlement.rpc_int myt_machine.Settlement.rpc_string
    myt_machine.Settlement.validate_wallet_address myt_machine.Validation.validate_address_text
    myt_machine.Validation.validate_message myt_machine.Validation.validate_signature
    myt_machine.Validation.within_bytes myt_machine.Verification.Verifier.ask_wallet
    myt_machine.Verification.Verifier.check_response
    myt_machine.Verification.Verifier.validate_request myt_machine.Verification.conclude
    myt_machine.Verification.local_failure myt_machine.Wallet.call myt_machine.Wallet.continue
    myt_machine.Wallet.pure verify_invoice myt_machine.Billing.verify_current
    myt_machine.Billing.verify_pending myt_machine.Billing.settle_seen
    myt_machine.Billing.settle_invoice myt_machine.Billing.settled myt_machine.Billing.reason_of
    myt_machine.InvoiceStore.attempt
now_paid = refl

verify_invoice_lem_example :
    IsValidRecord platform paid_sample × (codes "testnet" ≡ codes "testnet")
verify_invoice_lem_example =
    verify_invoice_lem platform service (at 140) (at 150) between (Value.str (codes "inv-1"))
      (artifact_of proof) (row ∷ []) good_wallet verification now_paid
