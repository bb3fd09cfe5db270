-- ===== src/Settlement/Transfers.antt =====
-- `_normalize_transfer` and `payment_status` of src/myt_machine/settlement.py.
pub mod Confirmed
use myt_machine.Base.{
  ℕ, ◌+◌, Bool, true, false, not, ◌&&◌, ◌||◌, Option, none, some, List, [], ◌∷◌, Text, ◌==◌, ℕ_eq,
  Text_eq, ltb, leb, all, any, if◌then◌else◌,
}
use myt_machine.Base.Int.{ℤ, pos, negsuc}
use myt_machine.Base.Strings.{codes}
use myt_machine.Errors.{
  Error, wallet_rpc_error, rpc_protocol_error, Result, ok, err, ◌>>=◌, ◌>>◌, require,
}
use myt_machine.Json.{Value, Items, nil, cons, Fields, end, field, get, get_or}
use myt_machine.Amounts.{uint64_max}
use myt_machine.Validation.{normalize_txid}
use myt_machine.Settlement.{rpc_int, rpc_bool, rpc_string, amount_of, MachineSettlement, nat}

abbrev pub transfer_types : List Text
transfer_types =
    codes "in" ∷ codes "out" ∷ codes "pending" ∷ codes "failed" ∷ codes "pool" ∷ codes "block" ∷ []

pub record Transfer : Type 0 where
  pub type : Text
  pub amount : ℕ
  pub fee : ℕ
  pub height : ℕ
  pub confirmations : ℕ
  pub confirmed : Bool
  pub in_pool : Option Bool
  pub failed : Bool
  pub locked : Bool

-- `transfer_type in {"in", "out", "block"}`
unfoldable pub is_settled_type : Text → Bool
is_settled_type t = t == codes "in" || t == codes "out" || t == codes "block"

unfoldable pub in_pool_of : Bool → Bool → Option Bool
in_pool_of pool pending = if pool then some true else if pending then none else some false

unfoldable pub normalize_transfer : Value → Result Transfer
unfolding is_settled_type
normalize_transfer (Value.dict entry) = do
  type ← rpc_string (get "type" entry) false
  require (any (λ t. type == t) transfer_types) rpc_protocol_error
  confirmations ← rpc_int (get_or "confirmations" (nat 0) entry) 0 uint64_max
  amount ← rpc_int (get "amount" entry) 0 uint64_max
  fee ← rpc_int (get_or "fee" (nat 0) entry) 0 uint64_max
  amount' ← amount_of amount
  fee' ← amount_of fee
  height ← rpc_int (get_or "height" (nat 0) entry) 0 uint64_max
  locked ← rpc_bool (get "locked" entry)
  ok (record {
    type = type;
    amount = amount';
    fee = fee';
    height = height;
    confirmations = confirmations;
    confirmed = is_settled_type type && ltb 0 confirmations;
    in_pool = in_pool_of (type == codes "pool") (type == codes "pending");
    failed = type == codes "failed";
    locked = locked;
  })
normalize_transfer _ = err rpc_protocol_error

unfoldable pub normalize_transfers : Items → Result (List Transfer)
normalize_transfers nil = ok []
normalize_transfers (cons v rest) = do
  t ← normalize_transfer v
  ts ← normalize_transfers rest
  ok (t ∷ ts)

-- The entries: the list `transfers`, or else the one entry `transfer`.
unfoldable pub entries_of : Fields → Items
entries_of response = elim (get "transfers" response) [
  | Value.list entries ↦ entries
  | _ ↦ elim (get "transfer" response) [ Value.dict f ↦ cons (Value.dict f) nil | _ ↦ nil ]
]

unfoldable pub has_entries : Items → Bool
has_entries nil = false
has_entries (cons _ _) = true

unfoldable pub sum_amounts : List Transfer → ℕ
sum_amounts [] = 0
sum_amounts (t ∷ ts) = t.amount + sum_amounts ts

-- `_safe_sum`
unfoldable pub safe_sum : List Transfer → Result ℕ
safe_sum ts =
    if leb (sum_amounts ts) uint64_max then ok (sum_amounts ts) else err rpc_protocol_error

unfoldable pub min_confirmations : List Transfer → ℕ
min_confirmations [] = 0
min_confirmations (t ∷ []) = t.confirmations
min_confirmations (t ∷ u ∷ ts) =
    let m = min_confirmations (u ∷ ts) in if ltb m t.confirmations then m else t.confirmations

unfoldable pub has_type : Text → List Transfer → Bool
has_type type = any (λ t. t.type == type)

pub data State : Type 0 where
  failed pool pending confirmed unconfirmed : State

unfoldable pub state_of : List Transfer → State
unfolding has_type
state_of ts =
    if has_type (codes "failed") ts
    then failed
    else if has_type (codes "pool") ts
    then pool
    else if has_type (codes "pending") ts
    then pending
    else if all (λ t. t.confirmed) ts
    then confirmed
    else unconfirmed

pub record Found : Type 0 where
  pub txid : Text
  pub state : State
  pub confirmed : Bool
  pub confirmations : ℕ
  pub in_pool : Option Bool
  pub failed : Bool
  pub amount : ℕ
  pub transfers : List Transfer

-- The answer for a transaction that the wallet knows.
unfoldable pub found : Text → Fields → Result Found
unfolding entries_of has_entries
found txid response = do
  require (has_entries (entries_of response)) rpc_protocol_error
  transfers ← normalize_transfers (entries_of response)
  total ← safe_sum transfers
  amount ← amount_of total
  ok (record {
    txid = txid;
    state = state_of transfers;
    confirmed = all (λ t. t.confirmed) transfers;
    confirmations = min_confirmations transfers;
    in_pool = in_pool_of (has_type (codes "pool") transfers) (has_type (codes "pending") transfers);
    failed = has_type (codes "failed") transfers;
    amount = amount;
    transfers = transfers;
  })

-- `exc.rpc_code == RPC_WRONG_TXID`, which is -8.
unfoldable pub is_wrong_txid : Error → Bool
is_wrong_txid (wallet_rpc_error (negsuc n) _) = n == 7
is_wrong_txid _ = false

-- `none` is the answer `"found": False`.
unfoldable pub status_of : Text → Result Fields → Result (Option Found)
status_of txid (ok response) = do found' ← found txid response; ok (some found')
status_of txid (err e) = if is_wrong_txid e then ok none else err e
