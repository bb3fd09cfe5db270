-- ===== src/Settlement/Uses.antt =====
-- The operations of the settlement that other services use take the replies of the wallet in order.
use myt_machine.Json.{Value}
use myt_machine.Wallet.Answered.{Uses, Uses-call, Uses-lift, Uses-pure, Uses-bind}
use myt_machine.Settlement.{MachineSettlement, address, validate_wallet_address}

pub validate_wallet_address-Uses : (value : Value) → Uses (validate_wallet_address value)
unfolding validate_wallet_address
validate_wallet_address-Uses value = Uses-bind _ _ (Uses-lift _) λ x0.
    Uses-bind _ _ (Uses-call _ _ _) λ x1. Uses-bind _ _ (Uses-lift _) λ x2.
      Uses-bind _ _ (Uses-lift _) λ x3.
        Uses-bind _ _ (Uses-lift _)
          λ x4. Uses-bind _ _ (Uses-lift _) λ x5. Uses-bind _ _ (Uses-lift _) λ x6. Uses-pure _

pub address-Uses : (m : MachineSettlement) → Uses (address m)
unfolding address
address-Uses m = Uses-bind _ _ (Uses-call _ _ _) λ x0. Uses-bind _ _ (Uses-lift _) λ x1.
    Uses-bind _ _ (Uses-lift _) λ x2.
      Uses-bind _ _ (Uses-lift _)
        λ x3. Uses-bind _ _ (Uses-lift _) λ x4. Uses-bind _ _ (Uses-lift _) λ x5. Uses-pure _
