-- ===== src/Settlement/Status.antt =====
-- `payment_status` of src/myt_machine/settlement.py.
use myt_machine.Base.{◌≡◌, ◌∙◌, ap, sym, false, Option, some, Text}
use myt_machine.Errors.{ok}
use myt_machine.Json.{Value, end, field}
use myt_machine.Validation.{normalize_txid}
use myt_machine.Wallet.{Session, Rpc, lift, ◌>>=◌, call}
use myt_machine.Wallet.Calls.{on_lift}
use myt_machine.Settlement.{MachineSettlement, nat}
use myt_machine.Settlement.Transfers.{Found, status_of, confirmed}
use myt_machine.Settlement.Transfers.Confirmed.{IsConfirmed, status_of-eq-some, found-IsConfirmed}

unfoldable pub status_call : MachineSettlement → Text → Rpc (Option Found)
status_call m txid s =
    let (response, s') =
      call "get_transfer_by_txid"
        (field "txid" (Value.str txid) (field "account_index" (nat m.account_index) end)) false s in
    (status_of txid response, s')

unfoldable pub payment_status : MachineSettlement → Value → Rpc (Option Found)
payment_status m value = do txid ← lift (normalize_txid value); status_call m txid

-- When `payment_status` answers that a transaction is confirmed, no entry of it failed or is in the
-- pool, every entry is of a settled type with at least one confirmation, and so is the number of
-- confirmations that is answered; the amount is the sum of the entries' amounts and fits in 64
-- bits; the transaction ID is the normal form of the one asked for.
pub payment_status-IsConfirmed :
    (m : MachineSettlement) (v : Value) (s s' : Session) (f : Found)
    → payment_status m v s ≡ (ok (some f), s')
    → f.state ≡ confirmed
    → IsConfirmed f × (normalize_txid v ≡ ok f.txid)
unfolding payment_status status_call
payment_status-IsConfirmed m v s s' f h c =
    on_lift (normalize_txid v) (status_call m) s h λ txid is_txid h1.
      let (response, e) = status_of-eq-some txid _ f (ap (λ t. t.0) h1) in
      let (good, same) = found-IsConfirmed txid response f e c in
      (good, is_txid ∙ ap (λ x. ok x) (sym same))
