-- ===== src/Settlement/Payments.antt =====
-- `pay`, `prove_payment`, `verify_payment`, `sign_message` and `verify_message` of
-- src/myt_machine/settlement.py.
use myt_machine.Base.{ℕ, Bool, true, false, [], Text, leb, if◌then◌else◌}
use myt_machine.Base.Int.{pos}
use myt_machine.Base.Strings.{codes}
use myt_machine.Errors.{input_error, Result, ok, err}
use myt_machine.Json.{Value, nil, Fields, end, field, get}
use myt_machine.Amounts.{uint64_max, parse_myt_amount}
use myt_machine.Validation.{normalize_txid, validate_message, validate_signature}
use myt_machine.Proofs.{PaymentProof, create_proof_artifact, parse_proof_artifact}
use myt_machine.Wallet.{Rpc, pure, lift, ◌>>=◌, ◌>>◌, call}
use myt_machine.Settlement.{
  rpc_int, rpc_bool, rpc_string, uint32_max, amount_of, MachineSettlement, nat, singleton, address,
  validate_wallet_address,
}

unfoldable pub validate_priority : Value → Result ℕ
validate_priority (Value.int (pos n)) = if leb n 4 then ok n else err input_error
validate_priority _ = err input_error

abbrev pub transfer_params : MachineSettlement → Text → ℕ → ℕ → Fields
transfer_params m to atomic priority =
    field "destinations"
      (singleton (Value.dict (field "address" (Value.str to) (field "amount" (nat atomic) end))))
      (field "account_index" (nat m.account_index) (
        field "subaddr_indices" (singleton (nat m.address_index)) (
          field "subtract_fee_from_outputs" (Value.list nil) (
            field "priority" (nat priority) (
              field "ring_size" (nat 0) (
                field "unlock_time" (nat 0) (
                  field "payment_id" (Value.str []) (
                    field "get_tx_key" (Value.bool false) (
                      field "do_not_relay" (Value.bool false) (
                        field "get_tx_hex" (Value.bool false)
                          (field "get_tx_metadata" (Value.bool false) end)))))))))))

pub record PaymentReceipt : Type 0 where
  pub txid : Text
  pub destination : Text
  pub network : Text
  pub amount : ℕ
  pub fee : ℕ

unfoldable pub pay : MachineSettlement → Value → Value → Value → Rpc PaymentReceipt
pay m to amount priority = do
  atomic ← lift (parse_myt_amount amount true)
  level ← lift (validate_priority priority)
  info ← validate_wallet_address to
  response ← call "transfer" (transfer_params m info.address atomic level) true
  hash ← lift (rpc_string (get "tx_hash" response) false)
  txid ← lift (normalize_txid (Value.str hash))
  fee ← lift (rpc_int (get "fee" response) 0 uint64_max)
  amount' ← lift (amount_of atomic)
  fee' ← lift (amount_of fee)
  pure (record {
    txid = txid;
    destination = info.address;
    network = info.network;
    amount = amount';
    fee = fee';
  })

unfoldable pub prove_payment : Value → Value → Value → Rpc PaymentProof
prove_payment txid to message = do
  txid' ← lift (normalize_txid txid)
  message' ← lift (validate_message message)
  info ← validate_wallet_address to
  response ←
      call "get_tx_proof"
        (field "txid" (Value.str txid')
          (field "address" (Value.str info.address) (field "message" (Value.str message') end)))
        false
  proof ← lift (rpc_string (get "signature" response) false)
  lift (
      create_proof_artifact (Value.str txid') (Value.str info.address) (Value.str message')
        (Value.str proof))

pub record PaymentVerification : Type 0 where
  pub valid : Bool
  pub txid : Text
  pub address : Text
  pub message : Text
  pub received : ℕ
  pub confirmations : ℕ
  pub in_pool : Bool

abbrev pub proof_params : PaymentProof → Fields
proof_params proof = field "txid" (Value.str proof.txid) (
    field "address" (Value.str proof.address)
      (field "message" (Value.str proof.message) (field "signature" (Value.str proof.proof) end)))

-- `verify_payment`, after its argument was parsed.
unfoldable pub verify_proof : PaymentProof → Rpc PaymentVerification
verify_proof proof = do
  validate_wallet_address (Value.str proof.address)
  response ← call "check_tx_proof" (proof_params proof) false
  valid ← lift (rpc_bool (get "good" response))
  received ← lift (rpc_int (get "received" response) 0 uint64_max)
  received' ← lift (amount_of received)
  confirmations ← lift (rpc_int (get "confirmations" response) 0 uint64_max)
  in_pool ← lift (rpc_bool (get "in_pool" response))
  pure (record {
    valid = valid;
    txid = proof.txid;
    address = proof.address;
    message = proof.message;
    received = received';
    confirmations = confirmations;
    in_pool = in_pool;
  })

unfoldable pub verify_payment : Value → Rpc PaymentVerification
verify_payment artifact = do proof ← lift (parse_proof_artifact artifact); verify_proof proof

pub record SignedMessage : Type 0 where
  pub address : Text
  pub message : Text
  pub signature : Text

unfoldable pub sign_message : MachineSettlement → Value → Rpc SignedMessage
sign_message m message = do
  message' ← lift (validate_message message)
  own ← address m
  response ←
      call "sign"
        (field "data" (Value.str message') (
          field "account_index" (nat m.account_index) (
            field "address_index" (nat m.address_index)
              (field "signature_type" (Value.str (codes "spend")) end))))
        false
  text ← lift (rpc_string (get "signature" response) false)
  signature ← lift (validate_signature (Value.str text))
  pure (record { address = own.address; message = message'; signature = signature })

pub record MessageVerification : Type 0 where
  pub valid : Bool
  pub address : Text
  pub message : Text
  pub version : ℕ
  pub old : Bool
  pub signature_type : Text

unfoldable pub verify_message : Value → Value → Value → Rpc MessageVerification
verify_message signer message signature = do
  message' ← lift (validate_message message)
  signature' ← lift (validate_signature signature)
  info ← validate_wallet_address signer
  response ←
      call "verify"
        (field "data" (Value.str message')
          (field "address" (Value.str info.address) (field "signature" (Value.str signature') end)))
        false
  valid ← lift (rpc_bool (get "good" response))
  version ← lift (rpc_int (get "version" response) 0 uint32_max)
  old ← lift (rpc_bool (get "old" response))
  kind ← lift (rpc_string (get "signature_type" response) true)
  pure (record {
    valid = valid;
    address = info.address;
    message = message';
    version = version;
    old = old;
    signature_type = kind;
  })
