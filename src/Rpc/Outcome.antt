-- ===== src/Rpc/Outcome.antt =====
-- What `WalletRpcClient.call` of src/myt_machine/rpc.py returns, and what its errors say of the outcome.
use myt_machine.Base.{◌≡◌, Bool, Option, none, some, Text, ℕ_eq, Text_eq}
use myt_machine.Base.Int.{ℤ}
use myt_machine.Errors.{
  Error, rpc_transport_error, rpc_authentication_error, protocol_error, wallet_rpc_error,
  value_error, http_exception,
}
use myt_machine.Rpc.Client.{Decoded, raised, Client}

-- The detail `outcome_unknown` of an error.
unfoldable pub outcome_unknown : Error → Option Bool
outcome_unknown (rpc_transport_error kind unknown status) = some unknown
outcome_unknown (protocol_error unknown) = unknown
outcome_unknown _ = none

-- What an error of a call with the given decoder is.
pub data CallError (loads : Text → Decoded) (mutation : Bool) (e : Error) : Type 0 where
  -- the wallet answered that it refused
  refused :
      (code : ℤ) (message : Text) → e ≡ wallet_rpc_error code message → CallError loads mutation e
  -- the server asked for other credentials
  unauthenticated : e ≡ rpc_authentication_error → CallError loads mutation e
  -- the call may have had its effect, if it was to have one
  unanswered : outcome_unknown e ≡ some mutation → CallError loads mutation e
  -- the decoder raised an exception that `call` does not catch
  undecoded : (body : Text) → loads body ≡ raised e → CallError loads mutation e
  -- the credentials cannot be encoded
  unencoded : e ≡ value_error → CallError loads mutation e
  -- `http.client.HTTPException`, which `call` does not catch
  unhandled : e ≡ http_exception → CallError loads mutation e
