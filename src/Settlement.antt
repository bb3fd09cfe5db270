-- ===== src/Settlement.antt =====
-- src/myt_machine/settlement.py: `MachineSettlement`. This file reads what the wallet answers, and has
-- the operations on addresses and balances; `Payments` and `Transfers` have the others.
pub mod Payments
pub mod Transfers
pub mod Status
pub mod Checks
pub mod Reads
pub mod Uses
pub mod Pay
use myt_machine.Base.{
  ℕ, ◌^◌, ◌-◌, ◌/◌, ◌%◌, Bool, true, false, not, ◌&&◌, Option, none, some, List, [], ◌∷◌, Text,
  ◌==◌, ℕ_eq, leb, if◌then◌else◌,
}
use myt_machine.Base.Int.{ℤ, pos}
use myt_machine.Errors.{input_error, rpc_protocol_error, Result, ok, err, require}
use myt_machine.Json.{Value, Items, nil, cons, Fields, end, field, get, get_or}
use myt_machine.Amounts.{uint64_max, amount_object}
use myt_machine.Validation.{validate_address_text, validate_uint32}
use myt_machine.Wallet.{Rpc, pure, lift, raise, ◌>>=◌, ◌>>◌, call}

unfoldable pub rpc_int : Value → ℕ → ℕ → Result ℕ
rpc_int (Value.int (pos n)) minimum maximum =
    if leb minimum n && leb n maximum then ok n else err rpc_protocol_error
rpc_int _ minimum maximum = err rpc_protocol_error

unfoldable pub rpc_bool : Value → Result Bool
rpc_bool (Value.bool b) = ok b
rpc_bool _ = err rpc_protocol_error

unfoldable pub rpc_string : Value → Bool → Result Text
rpc_string (Value.str []) allow_empty = if allow_empty then ok [] else err rpc_protocol_error
rpc_string (Value.str (c ∷ s)) allow_empty = ok (c ∷ s)
rpc_string _ allow_empty = err rpc_protocol_error

abbrev pub uint32_max : ℕ
uint32_max = 2 ^ 32 - 1

-- `{"atomic": …, "myt": …}`, of which other code reads the atomic part.
unfoldable pub amount_of : ℕ → Result ℕ
amount_of atomic = elim (amount_object atomic) [ err e ↦ err e | ok _ ↦ ok atomic ]

-- The wallet's account and address; the client is the session.
pub record MachineSettlement : Type 0 where
  pub account_index : ℕ
  pub address_index : ℕ

unfoldable pub new_settlement : Value → Value → Result MachineSettlement
new_settlement account address = elim (validate_uint32 account) [
  | err e ↦ err e
  | ok a ↦ elim (validate_uint32 address) [
    | err e ↦ err e
    | ok i ↦ ok (record { account_index = a; address_index = i })
  ]
]

abbrev pub nat : ℕ → Value
nat n = Value.int (pos n)

abbrev pub singleton : Value → Value
singleton v = Value.list (cons v nil)

-- The first entry with the index; the entries before it must be well formed.
unfoldable pub select_address : ℕ → Items → Result Fields
select_address index nil = err rpc_protocol_error
select_address index (cons (Value.dict f) rest) =
    elim (rpc_int (get "address_index" f) 0 uint32_max) [
      | err e ↦ err e
      | ok i ↦ if i == index then ok f else select_address index rest
    ]
select_address index (cons _ rest) = err rpc_protocol_error

abbrev pub items : Value → Result Items
items (Value.list xs) = ok xs
items _ = err rpc_protocol_error

pub record AddressInfo : Type 0 where
  pub address : Text
  pub account_index : ℕ
  pub address_index : ℕ
  pub label : Text
  pub used : Bool

-- `_address` and `address`
unfoldable pub address : MachineSettlement → Rpc AddressInfo
address m = do
  response ←
      call "get_address"
        (field "account_index" (nat m.account_index)
          (field "address_index" (singleton (nat m.address_index)) end))
        false
  addresses ← lift (items (get "addresses" response))
  selected ← lift (select_address m.address_index addresses)
  address' ← lift (rpc_string (get "address" selected) false)
  label ← lift (rpc_string (get_or "label" (Value.str []) selected) true)
  used ← lift (rpc_bool (get "used" selected))
  pure (record {
    address = address';
    account_index = m.account_index;
    address_index = m.address_index;
    label = label;
    used = used;
  })

pub record Balance : Type 0 where
  pub total : ℕ
  pub unlocked : ℕ
  pub blocks_to_unlock : ℕ
  pub time_to_unlock : ℕ

unfoldable pub balance : MachineSettlement → Rpc Balance
balance m = do
  response ←
      call "get_balance"
        (field "account_index" (nat m.account_index) (
          field "address_indices" (singleton (nat m.address_index))
            (field "all_accounts" (Value.bool false) (field "strict" (Value.bool false) end))))
        false
  total ← lift (rpc_int (get "balance" response) 0 uint64_max)
  unlocked ← lift (rpc_int (get "unlocked_balance" response) 0 uint64_max)
  total' ← lift (amount_of total)
  unlocked' ← lift (amount_of unlocked)
  blocks ← lift (rpc_int (get_or "blocks_to_unlock" (nat 0) response) 0 uint64_max)
  time ← lift (rpc_int (get_or "time_to_unlock" (nat 0) response) 0 uint64_max)
  pure (record {
    total = total';
    unlocked = unlocked';
    blocks_to_unlock = blocks;
    time_to_unlock = time;
  })

pub record WalletAddress : Type 0 where
  pub address : Text
  pub network : Text
  pub integrated : Bool
  pub subaddress : Bool

abbrev pub validation_params : Text → Fields
validation_params address =
    field "address" (Value.str address)
      (field "any_net_type" (Value.bool false) (field "allow_openalias" (Value.bool false) end))

-- `_validate_wallet_address`
unfoldable pub validate_wallet_address : Value → Rpc WalletAddress
validate_wallet_address value = do
  address' ← lift (validate_address_text value)
  response ← call "validate_address" (validation_params address') false
  valid ← lift (rpc_bool (get "valid" response))
  lift (require valid input_error)
  network ← lift (rpc_string (get "nettype" response) false)
  integrated ← lift (rpc_bool (get "integrated" response))
  subaddress ← lift (rpc_bool (get "subaddress" response))
  pure (record {
    address = address';
    network = network;
    integrated = integrated;
    subaddress = subaddress;
  })

pub record WalletStatus : Type 0 where
  pub version : ℕ
  pub major : ℕ
  pub minor : ℕ
  pub release : Bool
  pub network : Text
  pub height : ℕ
  pub wallet : AddressInfo
  pub total : ℕ
  pub unlocked : ℕ

unfoldable pub status : MachineSettlement → Rpc WalletStatus
status m = do
  version_response ← call "get_version" end false
  height_response ← call "get_height" end false
  wallet ← address m
  info ← validate_wallet_address (Value.str wallet.address)
  funds ← balance m
  version ← lift (rpc_int (get "version" version_response) 0 uint32_max)
  release ← lift (rpc_bool (get "release" version_response))
  height ← lift (rpc_int (get "height" height_response) 0 uint64_max)
  pure (record {
    version = version;
    major = version / 2 ^ 16;
    minor = version % 2 ^ 16;
    release = release;
    network = info.network;
    height = height;
    wallet = wallet;
    total = funds.total;
    unlocked = funds.unlocked;
  })
