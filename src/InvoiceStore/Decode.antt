-- ===== src/InvoiceStore/Decode.antt =====
-- `SQLiteInvoiceStore._decode` of src/myt_machine/invoice_store.py: a stored row is checked as
-- untrusted input before it becomes a record.
use myt_machine.Base.{
  ℕ, Bool, false, not, ◌&&◌, Option, none, some, List, [], ◌∷◌, Text, ◌==◌, ℕ_eq, Text_eq, leb,
  length, all, nat_eq, if◌then◌else◌,
}
use myt_machine.Base.Strings.{is_digit}
use myt_machine.Errors.{
  input_error, value_error, invoice_storage_error, is_input_error, Result, ok, err, ◌>>=◌, ◌>>◌,
  require,
}
use myt_machine.Amounts.{int_of_text}
use myt_machine.Payment.{Platform, text, parse_payment_request, serialize_payment_request}
use myt_machine.Invoice.{InvoiceRecord, new_record}
use myt_machine.InvoiceStore.Sql.{Row}

-- `[1-9][0-9]{0,19}` against the whole of a text.
unfoldable pub is_amount : Text → Bool
is_amount [] = false
is_amount (c ∷ s) = is_digit c && not (nat_eq c b'0') && all is_digit s && leb (length s) 19

unfoldable pub decode_amount : Option Text → Result (Option ℕ)
decode_amount none = ok none
decode_amount (some s) = do require (is_amount s) input_error; n ← int_of_text s; ok (some n)

-- `except (InputError, ValueError, …): raise InvoiceStorageError`
unfoldable pub as_storage_error : {A : Type 0} → Result A → Result A
as_storage_error (ok a) = ok a
as_storage_error (err value_error) = err invoice_storage_error
as_storage_error (err e) = if is_input_error e then err invoice_storage_error else err e

module _ (p : Platform) where
  unfoldable pub decode_row : Row → Result InvoiceRecord
  decode_row row = do
    request ← parse_payment_request p (text row.request)
    encoded ← serialize_payment_request p request
    require
        (row.request == encoded
          && row.invoice_id == request.invoice_id
          && row.network == request.network
          && row.expires_at == request.expires_at)
        input_error
    received ← decode_amount row.received_atomic
    new_record p (record {
      request = request;
      state = row.state;
      required_confirmations = row.required_confirmations;
      txid = row.txid;
      received_atomic = received;
      confirmations = row.confirmations;
      paid_at = row.paid_at;
    })

  unfoldable pub decode : Row → Result InvoiceRecord
  unfolding as_storage_error
  decode row = as_storage_error (decode_row row)

  unfoldable pub decode_all : List Row → Result (List InvoiceRecord)
  decode_all [] = ok []
  decode_all (row ∷ rows) = do r ← decode row; rs ← decode_all rows; ok (r ∷ rs)
