-- ===== src/Binding/Verified.antt =====
-- What a binding that `verify` calls valid is (src/myt_machine/binding.py).
use myt_machine.Base.{
  ◌≡◌, refl, sym, ap, ◌∙◌, subst, true, ◌||◌, Option, none, some, Text, ◌==◌, ℕ_eq, Text_eq,
  Bool-cases, inl, inr, arith,
}
use myt_machine.Base.Strings.{codes}
use myt_machine.Errors.{Error, Result, ok, err, ok-injective}
use myt_machine.Json.{Value}
use myt_machine.Payment.{Platform}
use myt_machine.Wallet.{Rpc, Session, pure}
use myt_machine.Wallet.Calls.{on_rpc, on_lift}
use myt_machine.Identity.{Crypto, IdentityVerification}
use myt_machine.Binding.{
  AddressBinding, AddressFacts, AddressBindingVerification, is_binding_valid, result_of,
  verify_binding_identity,
}
use myt_machine.Binding.Service.{
  validate_address, invalid_address, checked_network, verify_address, verify,
}
use myt_machine.Binding.Bound.{
  IsBound, IsBound-after, validate_address-Uses, verify_address-IsBound, result_of-valid,
  false-not-true,
}
use myt_machine.Binding.{validate_binding_network}

refused_network : {A : Type 0} {a : A} {e : Error} → ◌≡◌ {A = Result A} (err e) (ok a) → ⊥
refused_network h = ground arith

pub validate_binding_network-same :
    (n s : Text) → validate_binding_network (Value.str n) ≡ ok s → n ≡ s
unfolding validate_binding_network
validate_binding_network-same n s h =
    elim (Bool-cases (n == codes "mainnet" || n == codes "testnet" || n == codes "stagenet")) [
      | inl known ↦ ok-injective (rw known at h)
      | inr unknown ↦ absurd (refused_network (rw unknown at h))
    ]

checked_network-same : (x y : Option Text) → checked_network x ≡ ok y → x ≡ y
checked_network-same none y h = ok-injective h
checked_network-same (some n) y h = known (validate_binding_network (Value.str n)) refl h
  where
    known :
        (r : Result Text)
        → validate_binding_network (Value.str n) ≡ r
        → ◌≡◌ {A = Result (Option Text)}
            (elim r as (λ _. Result (Option Text)) [ ok s ↦ ok (some s) | err e ↦ err e ])
            (ok y)
        → some n ≡ y
    known (ok s) e k = ap (λ x. some x) (validate_binding_network-same n s e) ∙ ok-injective k
    known (err e') e k = absurd (refused_network k)

not_invalid :
    (p : Platform) (c : Crypto) (b : AddressBinding) (i : IdentityVerification) (n : Option Text)
    (r : AddressBindingVerification) (s s' : Session)
    → pure (result_of b i n invalid_address) s ≡ (ok r, s')
    → r.valid ≡ true
    → ⊥
unfolding pure is_binding_valid
not_invalid p c b i n r s s' h v =
    false-not-true
      (result_of-valid p c b i n invalid_address
        (ap (λ x. x.valid) (ok-injective (ap (λ t. t.0) h)) ∙ v)).0

-- A binding that `verify` calls valid is bound by both signatures: the identity's signature verifies,
-- under its public key, for the frame of the binding's content, and the last call that `verify` made
-- asks the wallet about the wallet signature of the same content for the address, and the reply that
-- the wallet had for that call says it is a good spend signature of version 2. The Machine ID and the
-- network are the expected ones, where they are given.
pub verify-IsBound :
    (p : Platform) (c : Crypto) (b : AddressBinding) (expected_id expected_network : Option Text)
    (r : AddressBindingVerification) (s s' : Session)
    → verify p c b expected_id expected_network s ≡ (ok r, s')
    → r.valid ≡ true
    → IsBound p c b expected_id expected_network s s'
unfolding verify
verify-IsBound p c b expected_id expected_network r s s' h v =
    on_lift (checked_network expected_network) _ s h λ n e1 h1.
      on_lift (verify_binding_identity p c b expected_id) _ s h1 λ i e2 h2.
        on_rpc (validate_address b.address true) _ s h2 λ info s1 e3 h3.
          subst (λ x. IsBound p c b expected_id x s s')
            (sym (checked_network-same expected_network n e1))
            (IsBound-after p c b expected_id n s s1 s'
              (validate_address-Uses b.address true s info s1 e3) (answered i n info s1 e2 h3))
  where
    answered :
        (i : IdentityVerification) (n : Option Text) (info : Option AddressFacts) (s1 : Session)
        → verify_binding_identity p c b expected_id ≡ ok i
        → ◌≡◌ {A = Result AddressBindingVerification × Session}
            ((elim info as (λ _. Rpc AddressBindingVerification) [
              | none ↦ pure (result_of b i n invalid_address)
              | some facts ↦ verify_address p c b i n facts
            ])
              s1)
            (ok r, s')
        → IsBound p c b expected_id n s1 s'
    answered i n none s1 identified k = absurd (not_invalid p c b i n r s1 s' k v)
    answered i n (some facts) s1 identified k =
        (verify_address-IsBound p c b i expected_id n facts r s1 s' identified k v).0
