-- ===== src/Settlement/Pay.antt =====
-- What `pay` sends.
use myt_machine.Base.{ℕ, ◌≡◌, refl, ◌∙◌, ap, true, Text}
use myt_machine.Errors.{Result, ok, ok-injective}
use myt_machine.Json.{Value}
use myt_machine.Amounts.{parse_myt_amount}
use myt_machine.Validation.{validate_address_text}
use myt_machine.Wallet.{Call, Session, pure, lift}
use myt_machine.Wallet.Calls.{on_rpc, on_lift, Only, Only-lift, Only-pure, Only-bind}
use myt_machine.Wallet.Sends.{Sends, Sends-lift, Sends-bind, Sends-last, no_call}
use myt_machine.Settlement.{MachineSettlement, validate_wallet_address, WalletAddress}
use myt_machine.Settlement.Checks.{validate_wallet_address_checks}
use myt_machine.Settlement.Payments.{validate_priority, transfer_params, pay}

-- The call `transfer` of the given amount to the given address.
abbrev pub IsTransfer : MachineSettlement → Value → Value → Value → Call → Type 0
IsTransfer m to amount priority c =
    (atomic : ℕ) × (level : ℕ) × (address : Text) × (parse_myt_amount amount true ≡ ok atomic)
    × (validate_priority priority ≡ ok level)
    × (validate_address_text to ≡ ok address)
    × (c ≡ record {
      method = "transfer";
      params = transfer_params m address atomic level;
      mutation = true;
    })

checked_address :
    (to : Value) (s s' : Session) (info : WalletAddress)
    → validate_wallet_address to s ≡ (ok info, s')
    → validate_address_text to ≡ ok info.address
unfolding validate_wallet_address pure
checked_address to s s' info h = on_lift (validate_address_text to) _ s h λ address e1 h1.
    on_rpc _ _ s h1 λ response s1 e2 h2. on_lift _ _ s1 h2 λ valid e3 h3.
      on_lift _ _ s1 h3 λ u e4 h4. on_lift _ _ s1 h4 λ network e5 h5.
        on_lift _ _ s1 h5 λ integrated e6 h6.
          on_lift _ _ s1 h6
            λ subaddress e7 h7. e1 ∙ ap (λ x. ok x.address) (ok-injective (ap (λ t. t.0) h7))

no-lift : {A : Type 0} (r : Result A) → Only no_call (lift r)
no-lift r = Only-lift no_call r

-- `pay` makes calls that check, and then at most one call more: `transfer`, with the parsed amount,
-- the checked address and the checked priority.
pub pay-Sends :
    (m : MachineSettlement) (to amount priority : Value)
    → Sends (IsTransfer m to amount priority) (pay m to amount priority)
unfolding pay
pay-Sends m to amount priority = Sends-lift _ _ _ λ atomic e1. Sends-lift _ _ _ λ level e2.
    Sends-bind _ _ _ (validate_wallet_address_checks to) λ s info e3.
      Sends-last _ _ _ _ _
        (
          atomic,
          level,
          info.address,
          e1,
          e2,
          checked_address to s _ info (ap (λ r. (r, (validate_wallet_address to s).1)) e3),
          refl,
        )
        λ response. Only-bind no_call _ _ (no-lift _) λ hash.
          Only-bind no_call _ _ (no-lift _) λ txid. Only-bind no_call _ _ (no-lift _) λ fee.
            Only-bind no_call _ _ (no-lift _)
              λ amount'. Only-bind no_call _ _ (no-lift _) λ fee'. Only-pure no_call _
