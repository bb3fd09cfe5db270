-- ===== src/Invoice.antt =====
-- src/myt_machine/invoices.py: the local state of an invoice beside its immutable request.
pub mod Valid
use myt_machine.Base.{
  ℕ, ◌^◌, ◌-◌, ◌≡◌, min, Bool, true, false, Option, none, some, Text, ◌==◌, Text_eq,
}
use myt_machine.Errors.{input_error, Result, ok, err, ◌>>=◌, ◌>>◌, require}
use myt_machine.Json.{Value}
use myt_machine.Validation.{normalize_txid}
use myt_machine.Payment.{Platform, PaymentRequest, max_timestamp, bounded_int, nat, post_init}

abbrev pub default_confirmations : ℕ
default_confirmations = 10

abbrev pub max_confirmations : ℕ
max_confirmations = 2 ^ 32 - 1

pub data InvoiceState : Type 0 where
  pending paid expired : InvoiceState

unfoldable pub is_pending : InvoiceState → Bool
is_pending pending = true
is_pending _ = false

unfoldable pub is_paid : InvoiceState → Bool
is_paid paid = true
is_paid _ = false

pub record InvoiceRecord : Type 0 where
  pub request : PaymentRequest
  pub state : InvoiceState
  pub required_confirmations : ℕ
  pub txid : Option Text
  pub received_atomic : Option ℕ
  pub confirmations : Option ℕ
  pub paid_at : Option ℕ

-- `normalize_txid(self.txid) != self.txid`
unfoldable pub check_txid : Text → Result (Unit {0})
check_txid txid = do
  normalized ← normalize_txid (Value.str txid)
  require (normalized == txid) input_error

-- The checks of `__post_init__` on the payment data, by the state of the invoice.
unfoldable pub check_evidence :
    InvoiceState
    → PaymentRequest
    → ℕ
    → Option Text
    → Option ℕ
    → Option ℕ
    → Option ℕ
    → Result (Unit {0})
check_evidence paid request required (some txid) (some received) (some confirmations)
      (some paid_at) =
    do
      check_txid txid
      bounded_int (nat received) request.amount_atomic request.amount_atomic
      bounded_int (nat confirmations) required max_confirmations
      -- the lifetime check of the request makes `expires_at` at least 1
      bounded_int (nat paid_at) request.created_at (min max_timestamp (request.expires_at - 1))
      ok tt
check_evidence pending request required none none none none = ok tt
check_evidence expired request required none none none none = ok tt
check_evidence _ request required txid received confirmations paid_at = err input_error

-- `InvoiceRecord(…)` with its `__post_init__`.
unfoldable pub new_record : Platform → InvoiceRecord → Result InvoiceRecord
new_record p r = do
  post_init p r.request
  bounded_int (nat r.required_confirmations) 1 max_confirmations
  check_evidence r.state r.request r.required_confirmations r.txid r.received_atomic r.confirmations
      r.paid_at
  ok r
