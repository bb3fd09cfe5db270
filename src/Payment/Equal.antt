-- ===== src/Payment/Equal.antt =====
-- `request == other`: a frozen dataclass is compared field by field.
use myt_machine.Base.{
  ◌≡◌, ◌↔◌, Bool, true, ◌&&◌, ◌==◌, ℕ_eq, Text_eq, option_text_eq, text_eq_iff, option_eq_iff,
  arith,
}
use myt_machine.Payment.{PaymentRequest}

unfoldable pub request_eq : PaymentRequest → PaymentRequest → Bool
request_eq a b =
    a.invoice_id == b.invoice_id
    && a.network == b.network
    && a.recipient_address == b.recipient_address
    && a.amount_atomic == b.amount_atomic
    && a.created_at == b.created_at
    && a.expires_at == b.expires_at
    && a.memo == b.memo
    && a.reference == b.reference

pub request_eq_iff : (a b : PaymentRequest) → (request_eq a b ≡ true) ↔ (a ≡ b)
unfolding request_eq
request_eq_iff a b = ground (
  arith,
  text_eq_iff a.invoice_id b.invoice_id,
  text_eq_iff a.network b.network,
  text_eq_iff a.recipient_address b.recipient_address,
  option_eq_iff a.memo b.memo,
  option_eq_iff a.reference b.reference,
)
