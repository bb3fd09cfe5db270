-- ===== src/Wallet.antt =====
-- The wallet RPC as its callers see it: `WalletRpcClient.call` of src/myt_machine/rpc.py. What the
-- wallet answers is given in advance, one answer for each call; the calls are recorded in order.
pub mod Calls
pub mod Sends
pub mod Answered
use myt_machine.Base.{ℕ, Bool, true, false, List, [], ◌∷◌, ◌++◌, String, none}
use myt_machine.Base.Strings.{codes}
use myt_machine.Errors.{Error, rpc_transport_error, Result, ok, err}
use myt_machine.Json.{Fields}

pub record Call : Type 0 where
  pub method : String
  pub params : Fields
  pub mutation : Bool

pub record Session : Type 0 where
  pub replies : List (Result Fields)
  pub calls : List Call

abbrev pub Rpc : Type 0 → Type 0
Rpc A = Session → Result A × Session

unfoldable pub pure : {A : Type 0} → A → Rpc A
pure a s = (ok a, s)

unfoldable pub lift : {A : Type 0} → Result A → Rpc A
lift r s = (r, s)

unfoldable pub raise : {A : Type 0} → Error → Rpc A
raise e s = (err e, s)

unfoldable pub continue : {A B : Type 0} → Result A → (A → Rpc B) → Rpc B
continue (ok a) f s = f a s
continue (err e) f s = (err e, s)

infixl 5 ◌>>=◌ ◌>>◌
unfoldable pub ◌>>=◌ : {A B : Type 0} → Rpc A → (A → Rpc B) → Rpc B
unfolding continue
◌>>=◌ m f s = let (r, s') = m s in continue r f s'

abbrev pub ◌>>◌ : {A B : Type 0} → Rpc A → Rpc B → Rpc B
m >> k = m >>= λ _. k

-- A wallet with no answer left does not answer.
abbrev pub next_reply : List (Result Fields) → Result Fields
next_reply [] = err (rpc_transport_error (codes "transport") false none)
next_reply (r ∷ rest) = r

abbrev pub later_replies : List (Result Fields) → List (Result Fields)
later_replies [] = []
later_replies (r ∷ rest) = rest

unfoldable pub call : String → Fields → Bool → Rpc Fields
call method params mutation s = (
  next_reply s.replies,
  record {
    replies = later_replies s.replies;
    calls = s.calls ++ (record { method = method; params = params; mutation = mutation }) ∷ [];
  },
)
