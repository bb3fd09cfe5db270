-- ===== src/Proofs.antt =====
-- src/myt_machine/proofs.py: the payment-proof artifact.
use myt_machine.Base.{Bool, false, List, [], ◌∷◌, String, Text, all}
use myt_machine.Base.Strings.{codes}
use myt_machine.Errors.{input_error, Result, ok, err, ◌>>=◌, ◌>>◌, require}
use myt_machine.Json.{Value, get, contains, equals_one, equals_text}
use myt_machine.Validation.{
  normalize_txid, validate_address_text, validate_message, validate_signature,
}

abbrev pub proof_type : Text
proof_type = codes "myt-payment-proof"

-- The four free fields of an artifact; `type` and `version` are fixed.
pub record PaymentProof : Type 0 where
  pub txid : Text
  pub address : Text
  pub message : Text
  pub proof : Text

unfoldable pub create_proof_artifact : Value → Value → Value → Value → Result PaymentProof
create_proof_artifact txid address message proof = do
  t ← normalize_txid txid
  a ← validate_address_text address
  m ← validate_message message
  p ← validate_signature proof
  ok (record { txid = t; address = a; message = m; proof = p })

-- `isinstance(version, bool) or version != PROOF_VERSION` is false.
unfoldable pub is_proof_version : Value → Bool
is_proof_version (Value.bool b) = false
is_proof_version v = equals_one v

abbrev pub required_fields : List String
required_fields = "txid" ∷ "address" ∷ "message" ∷ "proof" ∷ []

unfoldable pub parse_proof_artifact : Value → Result PaymentProof
parse_proof_artifact (Value.dict f) = do
  require (equals_text (get "type" f) proof_type) input_error
  require (is_proof_version (get "version" f)) input_error
  require (all (λ k. contains k f) required_fields) input_error
  create_proof_artifact (get "txid" f) (get "address" f) (get "message" f) (get "proof" f)
parse_proof_artifact _ = err input_error
