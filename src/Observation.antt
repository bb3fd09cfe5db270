-- ===== src/Observation.antt =====
-- `PaymentObservation` of src/myt_machine/invoice_verification.py: what a verifier saw of a payment.
use myt_machine.Base.{ℕ, Bool, Text}

pub record PaymentObservation : Type 0 where
  pub eligible : Bool
  pub reason : Text
  pub txid : Text
  pub request_message : Text
  pub received_atomic : ℕ
  pub confirmations : ℕ
