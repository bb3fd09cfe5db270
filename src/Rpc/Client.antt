-- ===== src/Rpc/Client.antt =====
-- `WalletRpcClient.call` of src/myt_machine/rpc.py.
use myt_machine.Base.{
  ℕ, ◌+◌, Bool, not, Option, none, some, [], ◌∷◌, Text, ◌==◌, ℕ_eq, Text_eq, ltb, length, take,
  if◌then◌else◌,
}
use myt_machine.Base.Strings.{codes}
use myt_machine.Errors.{
  Error, rpc_transport_error, rpc_authentication_error, protocol_error, wallet_rpc_error,
  value_error, http_exception, Result, ok, err,
}
use myt_machine.Json.{Value, Fields, end, field, get, contains, equals_text}
use myt_machine.Amounts.{decimal}
use myt_machine.Rpc.{RpcConfig}
use myt_machine.Rpc.Digest.{
  Failure, digest_failed, timed_out, os_failed, url_failed, http_failed, not_encodable, broken_http,
  Attempt, done, failed,
}

-- What `json.loads(body.decode("utf-8"))` does: it reads a value, raises `UnicodeDecodeError` or
-- `JSONDecodeError`, or raises another exception.
pub data Decoded : Type 0 where
  decoded : Value → Decoded
  malformed : Decoded
  raised : Error → Decoded

-- The client: the number of the next request.
pub record Client : Type 0 where
  pub config : RpcConfig
  pub next_id : ℕ

abbrev pub params_field : Option Fields → Fields
params_field none = end
params_field (some params) = field "params" (Value.dict params) end

-- The payload of a request.
unfoldable pub payload : Text → Text → Option Fields → Value
payload id method params = Value.dict (
    field "jsonrpc" (Value.str (codes "2.0"))
      (field "id" (Value.str id) (field "method" (Value.str method) (params_field params))))

-- The `except` clauses of `call`, and in the last two cases what passes them.
unfoldable pub transport_error : Bool → Failure → Error
transport_error mutation digest_failed = protocol_error (some mutation)
transport_error mutation (http_failed status) =
    if status == 401
    then rpc_authentication_error
    else rpc_transport_error (codes "http") mutation (some status)
transport_error mutation timed_out = rpc_transport_error (codes "timeout") mutation none
transport_error mutation (url_failed timeout) =
    rpc_transport_error (if timeout then codes "timeout" else codes "connection") mutation none
transport_error mutation os_failed = rpc_transport_error (codes "connection") mutation none
transport_error mutation not_encodable = value_error
transport_error mutation broken_http = http_exception

-- `raise WalletRpcError(rpc_code, rpc_message)`, if the error is well formed.
unfoldable pub error_from : Bool → Value → Value → Error
error_from mutation (Value.int code) (Value.str message) = wallet_rpc_error code message
error_from mutation _ _ = protocol_error (some mutation)

unfoldable pub error_of : Bool → Value → Error
error_of mutation (Value.dict e) = error_from mutation (get "code" e) (get "message" e)
error_of mutation _ = protocol_error (some mutation)

unfoldable pub result_of : Bool → Value → Result Fields
result_of mutation (Value.dict f) = ok f
result_of mutation _ = err (protocol_error (some mutation))

unfoldable pub check_response : Bool → Text → Value → Result Fields
check_response mutation id (Value.dict f) =
    if not (equals_text (get "id" f) id)
    then err (protocol_error (some mutation))
    else if contains "error" f
    then err (error_of mutation (get "error" f))
    else result_of mutation (get "result" f)
check_response mutation id _ = err (protocol_error (some mutation))

unfoldable pub read_response : (Text → Decoded) → ℕ → Bool → Text → Text → Result Fields
read_response loads max_bytes mutation id all_of_it =
    let body = take (max_bytes + 1) all_of_it in
    if ltb max_bytes (length body)
    then err (protocol_error (some mutation))
    else elim (loads body) [
      | decoded v ↦ check_response mutation id v
      | malformed ↦ err (protocol_error (some mutation))
      | raised e ↦ err e
    ]

-- What `call` makes of the response to the request that it sent.
unfoldable pub finish_call : (Text → Decoded) → ℕ → Bool → Text → Attempt Text → Result Fields
finish_call loads max_bytes mutation id (failed e) = err (transport_error mutation e)
finish_call loads max_bytes mutation id (done body) = read_response loads max_bytes mutation id body

-- `call`: `transport` is what opening the request with this payload gives, as the body of the
-- response or as a failure.
unfoldable pub call :
    (Text → Decoded)
    → (Value → Attempt Text)
    → Client
    → Text
    → Option Fields
    → Bool
    → Result Fields × Client
call loads transport client [] params mutation = (err (protocol_error none), client)
call loads transport client (c ∷ method) params mutation =
    let id = decimal client.next_id in
    (
      finish_call loads client.config.max_bytes mutation id
          (transport (payload id (c ∷ method) params)),
      record client { next_id = client.next_id + 1 },
    )
