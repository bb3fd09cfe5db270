-- ===== src/Examples/Requests.antt =====
-- The theorems on requests, amounts and records, at concrete inputs.
use myt_machine.Base.{
  ◌⊎◌, ℕ, ◌≡◌, ◌≤◌, ◌<◌, ◌-◌, ◌↔◌, refl, true, false, Option, none, some, List, [], ◌∷◌, Text, All,
  replicate, arith,
}
use myt_machine.Base.Int.{pos}
use myt_machine.Base.Strings.{codes}
use myt_machine.Errors.{input_error, ok, value_error, ◌>>=◌}
use myt_machine.Json.{Value, get, has_exactly}
use myt_machine.Amounts.{uint64_max, amount_match, parse_myt_amount, format_myt_amount}
use myt_machine.Amounts.RoundTrip.{
  parse-format, parse_myt_amount_bounds, IsTooLong, parse_myt_amount_errors, too_long-uncaught,
}
use myt_machine.Payment.{
  post_init, as_dict, parse_fields, request_fields, create_payment_request, nat,
  serialize_payment_request, parse_payment_request, text, optional, unix_time,
}
use myt_machine.Payment.Valid.{IsValid, post_init_iff, create_payment_request_lem}
use myt_machine.Payment.RoundTrip.{parse-serialize, parse_fields_exact}
use myt_machine.Examples.Sample.{platform, sample, sample-IsFaithful, recipient, hex}
use myt_machine.Invoice.{InvoiceRecord, paid, new_record}
use myt_machine.Invoice.Valid.{IsValidRecord, new_record_iff}
use myt_machine.Validation.{normalize_txid, is_txid}
use myt_machine.Validation.Txid.{is_lower_text, normalize_txid_canonical}

sample_ok : post_init platform sample ≡ ok sample
unfolding post_init myt_machine.Payment.new myt_machine.Payment.validate_identifier
    myt_machine.Payment.is_identifier myt_machine.Base.Strings.is_digit
    myt_machine.Base.Strings.is_upper myt_machine.Base.Strings.is_lower
    myt_machine.Payment.validate_network myt_machine.Payment.is_network myt_machine.Base.text_eq
    myt_machine.Payment.validate_recipient myt_machine.Payment.is_recipient
    myt_machine.Payment.recipient_length myt_machine.Payment.is_base58
    myt_machine.Payment.bounded_int myt_machine.Payment.optional_text
sample_ok = refl

sample-IsValid : IsValid platform sample
sample-IsValid = (post_init_iff platform sample).0 sample_ok

post_init_iff_example : (post_init platform sample ≡ ok sample) ↔ IsValid platform sample
post_init_iff_example = post_init_iff platform sample

parse-serialize_example :
    (serialize_payment_request platform sample >>= λ s. parse_payment_request platform (text s))
    ≡ ok sample
parse-serialize_example = parse-serialize platform sample sample-IsFaithful sample-IsValid

sample_parsed : parse_fields platform (as_dict sample) ≡ ok sample
unfolding parse_fields has_exactly myt_machine.Json.lookup as_dict myt_machine.Json.equals_text get
    myt_machine.Base.text_eq myt_machine.Payment.is_version_one myt_machine.Payment.new
    myt_machine.Payment.validate_identifier myt_machine.Payment.is_identifier
    myt_machine.Base.Strings.is_digit myt_machine.Base.Strings.is_upper
    myt_machine.Base.Strings.is_lower myt_machine.Payment.validate_network
    myt_machine.Payment.is_network myt_machine.Payment.validate_recipient
    myt_machine.Base.Strings.utf8 myt_machine.Base.Strings.utf8_char myt_machine.Json.contains
    myt_machine.Payment.bounded_int myt_machine.Payment.is_base58
    myt_machine.Payment.is_bounded_text myt_machine.Payment.is_recipient
    myt_machine.Payment.optional_text myt_machine.Payment.recipient_length
sample_parsed = refl

parse_fields_exact_example :
    (has_exactly request_fields (as_dict sample) ≡ true)
    × All (λ k. get k (as_dict sample) ≡ get k (as_dict sample)) request_fields
    × IsValid platform sample
parse_fields_exact_example = parse_fields_exact platform (as_dict sample) sample sample_parsed

sample_created :
    create_payment_request platform
      (codes "fresh")
      (nat 7)
      (Value.str recipient)
      (nat 5)
      (Value.str (codes "testnet"))
      (nat 100)
      Value.null
      Value.null
      (Value.str (codes "inv-1"))
      (some (nat 100))
    ≡ ok sample
unfolding create_payment_request unix_time myt_machine.Payment.bounded_int myt_machine.Payment.new
    myt_machine.Payment.validate_identifier myt_machine.Payment.is_identifier
    myt_machine.Base.Strings.is_digit myt_machine.Base.Strings.is_upper
    myt_machine.Base.Strings.is_lower myt_machine.Payment.validate_network
    myt_machine.Payment.is_network myt_machine.Base.text_eq myt_machine.Payment.validate_recipient
    myt_machine.Payment.is_recipient myt_machine.Payment.recipient_length
    myt_machine.Payment.is_base58 myt_machine.Payment.optional_text myt_machine.Base.Strings.utf8
    myt_machine.Base.Strings.utf8_char myt_machine.Payment.is_bounded_text
sample_created = refl

create_payment_request_lem_example :
    (unix_time (nat 7) (some (nat 100)) ≡ ok 100)
    × (nat 100 ≡ nat (200 - 100))
    × (Value.str recipient ≡ Value.str recipient)
    × (nat 5 ≡ nat 5)
    × (Value.str (codes "testnet") ≡ Value.str (codes "testnet"))
    × (Value.null ≡ optional none)
    × (Value.null ≡ optional none)
    × IsValid platform sample
create_payment_request_lem_example =
    create_payment_request_lem platform (codes "fresh") (nat 7) (Value.str recipient) (nat 5)
      (Value.str (codes "testnet")) (nat 100) Value.null Value.null (Value.str (codes "inv-1"))
      (some (nat 100)) sample sample_created

abbrev paid_sample : InvoiceRecord
paid_sample = record {
  request = sample;
  state = paid;
  required_confirmations = 10;
  txid = some hex;
  received_atomic = some 5;
  confirmations = some 12;
  paid_at = some 150;
}

new_record_iff_example :
    (new_record platform paid_sample ≡ ok paid_sample) ↔ IsValidRecord platform paid_sample
new_record_iff_example = new_record_iff platform paid_sample

parse-format_example :
    (format_myt_amount (Value.int (pos 1_500_000_000)) >>= λ s.
    parse_myt_amount (Value.str s) false)
    ≡ ok 1_500_000_000
parse-format_example = parse-format 1_500_000_000 (omega arith)

one_and_half : parse_myt_amount (Value.str (codes "1.5")) true ≡ ok 1_500_000_000
unfolding parse_myt_amount amount_match myt_machine.Amounts.int_of_text
    myt_machine.Amounts.fraction_text
one_and_half = refl

parse_myt_amount_bounds_example : (1_500_000_000 ≤ uint64_max) × (true ≡ true → 0 < 1_500_000_000)
parse_myt_amount_bounds_example =
    parse_myt_amount_bounds (Value.str (codes "1.5")) true 1_500_000_000 one_and_half

abbrev long_whole : Text
long_whole = replicate 4301 b'1'

long_match : amount_match long_whole ≡ some (long_whole, none)
unfolding amount_match
long_match = refl

parse_myt_amount_errors_example :
    (value_error ≡ input_error) ⊎ ((value_error ≡ value_error) × IsTooLong long_whole)
parse_myt_amount_errors_example =
    parse_myt_amount_errors long_whole true value_error
      (too_long-uncaught long_whole long_whole none true long_match (omega arith))

upper_normalized : normalize_txid (Value.str (replicate 64 b'A')) ≡ ok hex
unfolding normalize_txid is_txid myt_machine.Base.Strings.to_lower
upper_normalized = refl

normalize_txid_canonical_example :
    (normalize_txid (Value.str hex) ≡ ok hex) × (is_txid hex ≡ true) × (is_lower_text hex ≡ true)
normalize_txid_canonical_example =
    normalize_txid_canonical (Value.str (replicate 64 b'A')) hex upper_normalized
