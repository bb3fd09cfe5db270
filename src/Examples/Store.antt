-- ===== src/Examples/Store.antt =====
-- The theorems on the store, at concrete inputs.
use myt_machine.Base.{
  ℕ, ◌≡◌, refl, true, false, Bool, Option, none, some, List, [], ◌∷◌, Text, All, if◌then◌else◌,
  ◌==◌, Text_eq, ◌++◌,
}
use myt_machine.Base.Strings.{codes}
use myt_machine.Errors.{invoice_not_found, Error, Result, ok, err, invoice_conflict, input_error}
use myt_machine.Json.{Value}
use myt_machine.Payment.{Platform, PaymentRequest, nat, is_identifier, proof_message}
use myt_machine.Invoice.{InvoiceRecord, pending, paid, is_pending}
use myt_machine.Invoice.Valid.{IsValidRecord}
use myt_machine.Observation.{PaymentObservation}
use myt_machine.InvoiceStore.Sql.{Row, Db, find_id, find_key, expire_row, expire_rows}
use myt_machine.InvoiceStore.Decode.{decode}
use myt_machine.InvoiceStore.{
  Creation, check_creation, new_row, pending_record, find_previous, create, get, now_of,
}
use myt_machine.InvoiceStore.Finalize.{
  Operation, create_op, get_op, expire_op, finalize_op, finalize, run, run_all,
}
use myt_machine.InvoiceStore.Rows.{IsConsistent}
use myt_machine.InvoiceStore.Sound.{IsSound, IsReadable}
use myt_machine.InvoiceStore.Step.{Step, run-Step}
use myt_machine.InvoiceStore.Invariant.{run_all-IsConsistent, run_all-IsSound}
use myt_machine.InvoiceStore.History.{Evolves, run_all-Kept}
use myt_machine.InvoiceStore.Methods.{GoesThrough, create_again, run_atomic, raised}
use myt_machine.InvoiceStore.Answers.{decode-IsValidRecord, get_found, finalize_lem}
use myt_machine.InvoiceStore.Created.{get-create, state_at}
use myt_machine.Examples.Sample.{platform, sample, sample-IsFaithful, hex, at}

abbrev fingerprint : Value
fingerprint = Value.str hex

abbrev key : Value
key = Value.str (codes "order-7")

abbrev creation : Creation
creation = record {
  request = sample;
  encoded = codes "{}";
  required_confirmations = 10;
  creation_fingerprint = hex;
  idempotency_key = some (codes "order-7");
}

abbrev pub row : Row
row = new_row creation

abbrev observation : PaymentObservation
observation = record {
  eligible = true;
  reason = codes "confirmed";
  txid = hex;
  request_message = codes "myt-machine/invoice/v1:" ++ hex;
  received_atomic = 5;
  confirmations = 12;
}

abbrev operations : List Operation
operations =
    create_op (at 110) sample (nat 10) fingerprint key
    ∷ get_op (at 120) (Value.str (codes "inv-1"))
    ∷ finalize_op (at 150) sample observation
    ∷ expire_op (at 300)
    ∷ []

abbrev pending_sample : InvoiceRecord
pending_sample = pending_record sample 10

abbrev pub paid_sample : InvoiceRecord
paid_sample = record {
  request = sample;
  state = paid;
  required_confirmations = 10;
  txid = some hex;
  received_atomic = some 5;
  confirmations = some 12;
  paid_at = some 150;
}

run_all-IsConsistent_example : IsConsistent (run_all platform 100 operations [])
run_all-IsConsistent_example = run_all-IsConsistent platform 100 operations [] tt

run_all-IsSound_example :
    All (λ r. IsSound platform r × IsReadable platform r) (run_all platform 100 operations [])
run_all-IsSound_example =
    run_all-IsSound platform 100 operations [] (sample-IsFaithful, (tt, (tt, (tt, tt)))) tt tt

found_row : find_id (codes "inv-1") (row ∷ []) ≡ some row
unfolding find_id myt_machine.Base.text_eq
found_row = refl

run_all-Kept_example :
    (s : Row) × (find_id (codes "inv-1") (run_all platform 100 operations (row ∷ [])) ≡ some s)
    × Evolves row s
run_all-Kept_example = run_all-Kept platform 100 operations (row ∷ []) (codes "inv-1") row found_row

at_through : (now : ℕ) → now_of (at now) ≡ ok now → GoesThrough (at now) now
unfolding myt_machine.InvoiceStore.check_file
at_through now time = record { file = refl; begins = refl; commits = refl; time = time }

finalized : (finalize platform (at 150) sample observation (row ∷ [])).0 ≡ ok paid_sample
unfolding finalize myt_machine.InvoiceStore.Finalize.check_observation
    myt_machine.Validation.normalize_txid myt_machine.Validation.is_txid proof_message
    myt_machine.Payment.serialize_payment_request myt_machine.Payment.post_init
    myt_machine.Payment.new myt_machine.Payment.validate_identifier is_identifier
    myt_machine.Base.Strings.is_upper myt_machine.Base.Strings.is_lower
    myt_machine.Payment.validate_network myt_machine.Payment.is_network myt_machine.Base.text_eq
    myt_machine.Payment.validate_recipient myt_machine.Payment.is_recipient
    myt_machine.Amounts.decimal myt_machine.Amounts.digits myt_machine.Amounts.int_of_text
    myt_machine.Amounts.number_from myt_machine.Base.option_eq myt_machine.Base.Strings.is_digit
    myt_machine.Base.Strings.to_lower myt_machine.Base.Strings.utf8
    myt_machine.Base.Strings.utf8_char myt_machine.Errors.is_input_error
    myt_machine.Invoice.check_evidence myt_machine.Invoice.check_txid is_pending
    myt_machine.Invoice.new_record myt_machine.InvoiceStore.Decode.as_storage_error decode
    myt_machine.InvoiceStore.Decode.decode_amount myt_machine.InvoiceStore.Decode.decode_row
    myt_machine.InvoiceStore.Decode.is_amount myt_machine.InvoiceStore.Finalize.finalize_body
    myt_machine.InvoiceStore.Finalize.settle expire_row expire_rows find_id
    myt_machine.InvoiceStore.Sql.holds myt_machine.InvoiceStore.Sql.is_due
    myt_machine.InvoiceStore.Sql.is_target myt_machine.InvoiceStore.Sql.pay_row
    myt_machine.InvoiceStore.Sql.pay_rows myt_machine.InvoiceStore.Sql.same
    myt_machine.InvoiceStore.Sql.update_paid myt_machine.InvoiceStore.check_file
    myt_machine.InvoiceStore.fetch now_of myt_machine.InvoiceStore.transaction
    myt_machine.Json.contains myt_machine.Json.equals_text myt_machine.Json.get
    myt_machine.Json.has_exactly myt_machine.Json.lookup myt_machine.Payment.Equal.request_eq
    myt_machine.Payment.as_dict myt_machine.Payment.bounded_int myt_machine.Payment.canonical_json
    myt_machine.Payment.is_base58 myt_machine.Payment.is_bounded_text
    myt_machine.Payment.is_version_one myt_machine.Payment.loads_json
    myt_machine.Payment.optional_text myt_machine.Payment.parse_fields
    myt_machine.Payment.parse_payment_request myt_machine.Payment.recipient_length
    myt_machine.Payment.refused_bytes myt_machine.Payment.strict_json myt_machine.Payment.unix_time
    myt_machine.Validation.is_hex myt_machine.Json.sort_fields myt_machine.InvoiceStore.attempt
finalized = refl

finalize_lem_example :
    (true ≡ true)
    × (proof_message platform sample ≡ ok (codes "myt-machine/invoice/v1:" ++ hex))
    × (sample ≡ sample)
    × (is_pending paid ≡ false)
    × IsValidRecord platform paid_sample
finalize_lem_example =
    finalize_lem platform (at 150) sample observation (row ∷ []) paid_sample finalized

decoded : decode platform row ≡ ok pending_sample
unfolding decode myt_machine.InvoiceStore.Decode.decode_row
    myt_machine.Payment.parse_payment_request myt_machine.Payment.strict_json
    myt_machine.Base.Strings.utf8 myt_machine.Payment.refused_bytes myt_machine.Base.text_eq
    myt_machine.Payment.loads_json myt_machine.Payment.parse_fields myt_machine.Json.has_exactly
    myt_machine.Json.lookup myt_machine.Json.sort_fields myt_machine.Payment.as_dict
    myt_machine.Json.equals_text myt_machine.Json.get myt_machine.Payment.is_version_one
    myt_machine.Payment.new myt_machine.Amounts.int_of_text myt_machine.Amounts.number_from
    myt_machine.Base.Strings.is_digit myt_machine.Base.Strings.is_lower
    myt_machine.Base.Strings.is_upper myt_machine.Base.Strings.text_lt
    myt_machine.Base.Strings.to_lower myt_machine.Base.Strings.utf8_char
    myt_machine.Errors.is_input_error myt_machine.Invoice.check_evidence
    myt_machine.Invoice.check_txid myt_machine.Invoice.new_record
    myt_machine.InvoiceStore.Decode.as_storage_error myt_machine.InvoiceStore.Decode.decode_amount
    myt_machine.InvoiceStore.Decode.is_amount myt_machine.Json.contains
    myt_machine.Payment.bounded_int myt_machine.Payment.canonical_json myt_machine.Payment.is_base58
    myt_machine.Payment.is_bounded_text is_identifier myt_machine.Payment.is_network
    myt_machine.Payment.is_recipient myt_machine.Payment.optional_text myt_machine.Payment.post_init
    myt_machine.Payment.recipient_length myt_machine.Payment.serialize_payment_request
    myt_machine.Payment.validate_identifier myt_machine.Payment.validate_network
    myt_machine.Payment.validate_recipient myt_machine.Validation.is_hex
    myt_machine.Validation.is_txid myt_machine.Validation.normalize_txid
decoded = refl

decode-IsValidRecord_example : IsValidRecord platform pending_sample
decode-IsValidRecord_example = decode-IsValidRecord platform row pending_sample decoded

time_120 : now_of (at 120) ≡ ok 120
unfolding now_of myt_machine.Payment.unix_time myt_machine.Payment.bounded_int
time_120 = refl

named : is_identifier (codes "inv-1") ≡ true
unfolding is_identifier myt_machine.Base.Strings.is_digit myt_machine.Base.Strings.is_upper
    myt_machine.Base.Strings.is_lower
named = refl

kept_row : find_id (codes "inv-1") (expire_rows 120 (row ∷ [])) ≡ some row
unfolding find_id expire_rows myt_machine.Base.text_eq expire_row
    myt_machine.InvoiceStore.Sql.is_due is_pending
kept_row = refl

get_found_test :
    get platform (at 120) (Value.str (codes "inv-1")) (row ∷ [])
    ≡ (ok pending_sample, expire_rows 120 (row ∷ []))
get_found_test =
    get_found platform (at 120) 120 (codes "inv-1") row pending_sample (row ∷ [])
      (at_through 120 time_120) named kept_row decoded

checked : check_creation platform sample (nat 10) fingerprint key ≡ ok creation
unfolding check_creation myt_machine.Payment.serialize_payment_request myt_machine.Payment.post_init
    myt_machine.Payment.new myt_machine.Payment.validate_identifier is_identifier
    myt_machine.Base.Strings.is_digit myt_machine.Base.Strings.is_upper
    myt_machine.Base.Strings.is_lower myt_machine.Payment.validate_network
    myt_machine.Payment.is_network myt_machine.Base.text_eq myt_machine.Payment.validate_recipient
    myt_machine.Payment.is_recipient myt_machine.Payment.recipient_length
    myt_machine.Payment.is_base58 myt_machine.Payment.bounded_int myt_machine.Base.Strings.utf8
    myt_machine.Base.Strings.utf8_char myt_machine.InvoiceStore.is_fingerprint
    myt_machine.InvoiceStore.optional_identifier myt_machine.InvoiceStore.validate_fingerprint
    myt_machine.Payment.as_dict myt_machine.Payment.canonical_json
    myt_machine.Payment.is_bounded_text myt_machine.Payment.optional_text
checked = refl

time_110 : now_of (at 110) ≡ ok 110
unfolding now_of myt_machine.Payment.unix_time myt_machine.Payment.bounded_int
time_110 = refl

no_previous : find_previous (some (codes "order-7")) (expire_rows 110 []) ≡ none
unfolding find_key expire_rows
no_previous = refl

made :
    create platform 100 (at 110) sample (nat 10) fingerprint key [] ≡ (ok pending_sample, row ∷ [])
unfolding create check_creation myt_machine.Payment.serialize_payment_request
    myt_machine.Payment.post_init myt_machine.Payment.new myt_machine.Payment.validate_identifier
    is_identifier myt_machine.Base.Strings.is_digit myt_machine.Base.Strings.is_upper
    myt_machine.Base.Strings.is_lower myt_machine.Payment.validate_network
    myt_machine.Payment.is_network myt_machine.Base.text_eq myt_machine.Payment.validate_recipient
    myt_machine.Payment.is_recipient myt_machine.Payment.recipient_length
    myt_machine.Payment.is_base58 myt_machine.Amounts.int_of_text myt_machine.Amounts.number_from
    myt_machine.Base.Strings.to_lower myt_machine.Base.Strings.utf8
    myt_machine.Base.Strings.utf8_char myt_machine.Errors.is_input_error
    myt_machine.Invoice.check_evidence myt_machine.Invoice.check_txid myt_machine.Invoice.is_paid
    is_pending myt_machine.Invoice.new_record myt_machine.InvoiceStore.Decode.as_storage_error
    decode myt_machine.InvoiceStore.Decode.decode_amount myt_machine.InvoiceStore.Decode.decode_row
    myt_machine.InvoiceStore.Decode.is_amount myt_machine.InvoiceStore.Sql.checks
    myt_machine.InvoiceStore.Sql.conflicts expire_row expire_rows find_key
    myt_machine.InvoiceStore.Sql.insert_row myt_machine.InvoiceStore.Sql.is_due
    myt_machine.InvoiceStore.Sql.same myt_machine.InvoiceStore.check_file
    myt_machine.InvoiceStore.create_body myt_machine.InvoiceStore.create_new
    myt_machine.InvoiceStore.is_fingerprint now_of myt_machine.InvoiceStore.optional_identifier
    myt_machine.InvoiceStore.replay myt_machine.InvoiceStore.transaction
    myt_machine.InvoiceStore.validate_fingerprint myt_machine.Json.contains
    myt_machine.Json.equals_text myt_machine.Json.get myt_machine.Json.has_exactly
    myt_machine.Json.lookup myt_machine.Payment.as_dict myt_machine.Payment.bounded_int
    myt_machine.Payment.canonical_json myt_machine.Payment.is_bounded_text
    myt_machine.Payment.is_version_one myt_machine.Payment.loads_json
    myt_machine.Payment.optional_text myt_machine.Payment.parse_fields
    myt_machine.Payment.parse_payment_request myt_machine.Payment.refused_bytes
    myt_machine.Payment.strict_json myt_machine.Payment.unix_time myt_machine.Validation.is_hex
    myt_machine.Validation.is_txid myt_machine.Validation.normalize_txid
    myt_machine.InvoiceStore.attempt
made = refl

get-create_example :
    get platform (at 120) (Value.str (codes "inv-1")) (row ∷ [])
    ≡ (ok (record pending_sample { state = state_at 120 sample }), expire_rows 120 (row ∷ []))
get-create_example =
    get-create platform 100 sample (nat 10) fingerprint key creation checked sample-IsFaithful
      (at 110) 110 (at 120) 120 [] (row ∷ []) pending_sample time_110 no_previous made
      (at_through 120 time_120)

key_row : find_key (codes "order-7") (row ∷ []) ≡ some row
unfolding find_key myt_machine.InvoiceStore.Sql.same myt_machine.Base.text_eq
key_row = refl

decoded_later : decode platform (expire_row 120 row) ≡ ok pending_sample
unfolding decode myt_machine.InvoiceStore.Decode.decode_row
    myt_machine.Payment.parse_payment_request myt_machine.Payment.strict_json expire_row
    myt_machine.InvoiceStore.Sql.is_due is_pending myt_machine.Base.Strings.utf8
    myt_machine.Payment.refused_bytes myt_machine.Base.text_eq myt_machine.Payment.loads_json
    myt_machine.Payment.parse_fields myt_machine.Json.has_exactly myt_machine.Json.lookup
    myt_machine.Json.sort_fields myt_machine.Payment.as_dict myt_machine.Json.equals_text
    myt_machine.Amounts.int_of_text myt_machine.Amounts.number_from
    myt_machine.Base.Strings.is_digit myt_machine.Base.Strings.is_lower
    myt_machine.Base.Strings.is_upper myt_machine.Base.Strings.text_lt
    myt_machine.Base.Strings.to_lower myt_machine.Base.Strings.utf8_char
    myt_machine.Errors.is_input_error myt_machine.Invoice.check_evidence
    myt_machine.Invoice.check_txid myt_machine.Invoice.new_record
    myt_machine.InvoiceStore.Decode.as_storage_error myt_machine.InvoiceStore.Decode.decode_amount
    myt_machine.InvoiceStore.Decode.is_amount myt_machine.Json.contains myt_machine.Json.get
    myt_machine.Payment.bounded_int myt_machine.Payment.canonical_json myt_machine.Payment.is_base58
    myt_machine.Payment.is_bounded_text is_identifier myt_machine.Payment.is_network
    myt_machine.Payment.is_recipient myt_machine.Payment.is_version_one myt_machine.Payment.new
    myt_machine.Payment.optional_text myt_machine.Payment.post_init
    myt_machine.Payment.recipient_length myt_machine.Payment.serialize_payment_request
    myt_machine.Payment.validate_identifier myt_machine.Payment.validate_network
    myt_machine.Payment.validate_recipient myt_machine.Validation.is_hex
    myt_machine.Validation.is_txid myt_machine.Validation.normalize_txid
decoded_later = refl

create_again_example : create platform 100 (at 120) sample (nat 10) fingerprint key (row ∷ []) ≡ (
    if hex == hex
    then (ok pending_sample, expire_rows 120 (row ∷ []))
    else (err invoice_conflict, row ∷ []))
create_again_example =
    create_again platform 100 (at 120) 120 sample (nat 10) fingerprint key creation
      (codes "order-7") row pending_sample (row ∷ []) (at_through 120 time_120) checked refl key_row
      decoded_later

too_late_test :
    raised platform 100 (create_op (at 200) sample (nat 10) fingerprint key) [] ≡ some input_error
unfolding create check_creation myt_machine.Payment.serialize_payment_request
    myt_machine.Payment.post_init myt_machine.Payment.new myt_machine.Payment.validate_identifier
    is_identifier myt_machine.Base.Strings.is_digit myt_machine.Base.Strings.is_upper
    myt_machine.Base.Strings.is_lower myt_machine.Payment.validate_network
    myt_machine.Payment.is_network myt_machine.Base.text_eq myt_machine.Payment.validate_recipient
    myt_machine.Payment.is_recipient myt_machine.Payment.recipient_length
    myt_machine.Payment.is_base58 myt_machine.Amounts.int_of_text myt_machine.Amounts.number_from
    myt_machine.Base.Strings.to_lower myt_machine.Base.Strings.utf8
    myt_machine.Base.Strings.utf8_char myt_machine.Errors.is_input_error
    myt_machine.Invoice.check_evidence myt_machine.Invoice.check_txid myt_machine.Invoice.is_paid
    is_pending myt_machine.Invoice.new_record myt_machine.InvoiceStore.Decode.as_storage_error
    decode myt_machine.InvoiceStore.Decode.decode_amount myt_machine.InvoiceStore.Decode.decode_row
    myt_machine.InvoiceStore.Decode.is_amount myt_machine.InvoiceStore.Sql.checks
    myt_machine.InvoiceStore.Sql.conflicts expire_row expire_rows find_key
    myt_machine.InvoiceStore.Sql.insert_row myt_machine.InvoiceStore.Sql.is_due
    myt_machine.InvoiceStore.Sql.same myt_machine.InvoiceStore.check_file
    myt_machine.InvoiceStore.create_body myt_machine.InvoiceStore.create_new
    myt_machine.InvoiceStore.is_fingerprint now_of myt_machine.InvoiceStore.optional_identifier
    myt_machine.InvoiceStore.replay myt_machine.InvoiceStore.transaction
    myt_machine.InvoiceStore.validate_fingerprint myt_machine.Json.contains
    myt_machine.Json.equals_text myt_machine.Json.get myt_machine.Json.has_exactly
    myt_machine.Json.lookup myt_machine.Payment.as_dict myt_machine.Payment.bounded_int
    myt_machine.Payment.canonical_json myt_machine.Payment.is_bounded_text
    myt_machine.Payment.is_version_one myt_machine.Payment.loads_json
    myt_machine.Payment.optional_text myt_machine.Payment.parse_fields
    myt_machine.Payment.parse_payment_request myt_machine.Payment.refused_bytes
    myt_machine.Payment.strict_json myt_machine.Payment.unix_time myt_machine.Validation.is_hex
    myt_machine.Validation.is_txid myt_machine.Validation.normalize_txid raised
    myt_machine.InvoiceStore.attempt
too_late_test = refl

-- The sweep has marked the row as expired when the call raises.
missing :
    raised platform 100 (get_op (at 200) (Value.str (codes "inv-9"))) (row ∷ [])
    ≡ some invoice_not_found
unfolding raised get myt_machine.Payment.validate_identifier is_identifier
    myt_machine.Base.Strings.is_digit myt_machine.Base.Strings.is_upper
    myt_machine.Base.Strings.is_lower myt_machine.InvoiceStore.transaction
    myt_machine.InvoiceStore.check_file myt_machine.InvoiceStore.attempt
    myt_machine.InvoiceStore.get_body now_of myt_machine.Payment.unix_time
    myt_machine.Payment.bounded_int myt_machine.InvoiceStore.fetch find_id expire_rows
    myt_machine.Base.text_eq expire_row myt_machine.InvoiceStore.Sql.is_due is_pending
missing = refl

run_atomic_example :
    run platform 100 (get_op (at 200) (Value.str (codes "inv-9"))) (row ∷ []) ≡ row ∷ []
run_atomic_example =
    run_atomic platform 100 (get_op (at 200) (Value.str (codes "inv-9"))) (row ∷ [])
      invoice_not_found missing

run-Step_example :
    Step
      (create_op (at 110) sample (nat 10) fingerprint key)
      []
      (run platform 100 (create_op (at 110) sample (nat 10) fingerprint key) [])
run-Step_example = run-Step platform 100 (create_op (at 110) sample (nat 10) fingerprint key) []
