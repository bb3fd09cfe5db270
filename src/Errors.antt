-- ===== src/Errors.antt =====
-- src/myt_machine/errors.py and the error classes of the stores: an exception is a value, and a
-- function that may raise returns a `Result`. The text of a message is not kept, only its class
-- and the details that other code reads.
use myt_machine.Base.{
  ◌⊎◌, inl, inr, ℕ, ◌≡◌, refl, Bool, true, false, Option, none, some, arith, Text,
}
use myt_machine.Base.Int.{ℤ}
use myt_machine.Base.Strings.{codes}

pub data Error : Type 0 where
  machine_error input_error configuration_error : Error
  rpc_transport_error : Text → Bool → Option ℕ → Error
  rpc_authentication_error : Error
  -- with its detail `outcome_unknown`, where it has one
  protocol_error : Option Bool → Error
  wallet_rpc_error : ℤ → Text → Error
  invoice_conflict invoice_not_found invoice_not_paid invoice_storage_error : Error
  reputation_storage_error disclosure_storage_error : Error
  -- Python's own exceptions, which no class of the program wraps
  value_error overflow_error recursion_error http_exception : Error

-- `RpcProtocolError(message)`
abbrev pub rpc_protocol_error : Error
rpc_protocol_error = protocol_error none

pub data Result {ℓ} (A : Type ℓ) : Type ℓ where
  ok : A → Result A
  err : Error → Result A

-- `if not test: raise e`
abbrev pub require : Bool → Error → Result (Unit {0})
require true e = ok tt
require false e = err e

-- A statement after the other: what raises ends the function.
infixl 5 ◌>>=◌ ◌>>◌
abbrev pub ◌>>=◌ {κ ℓ} : {A : Type κ} {B : Type ℓ} → Result A → (A → Result B) → Result B
err e >>= rest = err e
ok value >>= rest = rest value

abbrev pub ◌>>◌ {κ ℓ} : {A : Type κ} {B : Type ℓ} → Result A → Result B → Result B
first >> second = first >>= λ _. second

-- `isinstance(e, InputError)`: the two invoice classes inherit from it.
unfoldable pub is_input_error : Error → Bool
is_input_error input_error = true
is_input_error invoice_conflict = true
is_input_error invoice_not_found = true
is_input_error _ = false

-- The class attribute `code`.
unfoldable code : Error → Option Text
code machine_error = some (codes "machine_error")
code input_error = some (codes "invalid_input")
code configuration_error = some (codes "invalid_configuration")
code (rpc_transport_error _ _ _) = some (codes "rpc_transport_error")
code rpc_authentication_error = some (codes "rpc_authentication_failed")
code (protocol_error _) = some (codes "rpc_protocol_error")
code (wallet_rpc_error _ _) = some (codes "wallet_rpc_error")
code invoice_conflict = some (codes "invoice_conflict")
code invoice_not_found = some (codes "invoice_not_found")
code invoice_not_paid = some (codes "invoice_not_paid")
code invoice_storage_error = some (codes "invoice_storage_error")
code reputation_storage_error = some (codes "reputation_storage_error")
code disclosure_storage_error = some (codes "disclosure_storage_error")
code _ = none

-- The class attribute `exit_code`.
unfoldable exit_code : Error → Option ℕ
exit_code input_error = some 2
exit_code invoice_conflict = some 2
exit_code invoice_not_found = some 2
exit_code configuration_error = some 3
exit_code (wallet_rpc_error _ _) = some 5
exit_code invoice_not_paid = some 1
exit_code value_error = none
exit_code overflow_error = none
exit_code recursion_error = none
exit_code http_exception = none
exit_code _ = some 4

pub require-eq-ok : (b : Bool) (e : Error) → require b e ≡ ok tt → b ≡ true
require-eq-ok true e h = refl
require-eq-ok false e h = ground arith

pub ok-injective {ℓ} : {A : Type ℓ} {a b : A} → ok a ≡ ok b → a ≡ b
ok-injective h = ground arith

pub Result-cases {ℓ} :
    {A : Type ℓ} (r : Result A) → ((a : A) × (r ≡ ok a)) ⊎ ((e : Error) × (r ≡ err e))
Result-cases (ok a) = inl (a, refl)
Result-cases (err e) = inr (e, refl)

-- A function that returned passed its first statement: `then` is the rest of the proof.
pub on_ok {κ ℓ μ} :
    {A : Type κ} {B : Type ℓ} {Goal : Type μ} (first : Result A) (rest : A → Result B) {result : B}
    → (first >>= rest) ≡ ok result
    → ((value : A) → first ≡ ok value → rest value ≡ ok result → Goal)
    → Goal
on_ok (err e) rest returned then = absurd (ground arith)
on_ok (ok value) rest returned then = then value refl returned

-- The same as a value.
pub >>=-eq-ok {κ ℓ} :
    {A : Type κ} {B : Type ℓ} (first : Result A) (rest : A → Result B) {result : B}
    → (first >>= rest) ≡ ok result
    → (value : A) × (first ≡ ok value) × (rest value ≡ ok result)
>>=-eq-ok first rest returned =
    on_ok first rest returned λ value passed later. (value, passed, later)
