-- ===== src/Verification/Eligible.antt =====
-- What an eligible observation guarantees.
use myt_machine.Base.{
  ℕ, ◌≡◌, ◌≤◌, ◌∙◌, sym, ap, subst, Bool, true, false, none, some, Text, Text_eq, text_eq_iff,
  arith, ℕ_eq, nat_eq_iff, ltb→lt,
}
use myt_machine.Base.Int.{pos}
use myt_machine.Errors.{ok, ok-injective}
use myt_machine.Json.{Value, Fields, get}
use myt_machine.Amounts.{uint64_max}
use myt_machine.Proofs.{PaymentProof}
use myt_machine.Payment.{PaymentRequest, nat}
use myt_machine.Observation.{PaymentObservation}
use myt_machine.Wallet.{Session, pure, call}
use myt_machine.Wallet.Calls.{on_rpc, on_lift}
use myt_machine.Settlement.{rpc_bool, rpc_int, amount_of, validate_wallet_address}
use myt_machine.Wallet.Answered.{Consumed, Answered, Answered-after, call-Answered}
use myt_machine.Settlement.Uses.{validate_wallet_address-Uses}
use myt_machine.Verification.{conclude, local_failure}
use myt_machine.Settlement.Payments.{PaymentVerification, proof_params, verify_proof}

-- From `s` to `after`, the last call was the check of the proof, and `v` is what the wallet's reply
-- to it says.
abbrev pub IsAnswer : PaymentProof → PaymentVerification → Session → Session → Type 0
IsAnswer proof v s after =
    (answer : Fields) × Answered s after
      (record { method = "check_tx_proof"; params = proof_params proof; mutation = false }) answer
    × (get "good" answer ≡ Value.bool v.valid)
    × (get "received" answer ≡ nat v.received)
    × (get "confirmations" answer ≡ nat v.confirmations)
    × (get "in_pool" answer ≡ Value.bool v.in_pool)

rpc_bool-eq-ok : (v : Value) (b : Bool) → rpc_bool v ≡ ok b → v ≡ Value.bool b
unfolding rpc_bool
rpc_bool-eq-ok v b h = ground arith

rpc_int-eq-ok : (v : Value) (lo hi n : ℕ) → rpc_int v lo hi ≡ ok n → v ≡ nat n
unfolding rpc_int
rpc_int-eq-ok (Value.int (pos m)) lo hi n h = ground arith
rpc_int-eq-ok _ lo hi n h = ground arith

amount_of-eq-ok : (n m : ℕ) → amount_of n ≡ ok m → m ≡ n
unfolding amount_of
amount_of-eq-ok n m h = ground arith

-- Calls before the answer.
pub IsAnswer-after :
    (proof : PaymentProof) (v : PaymentVerification) (s s1 s2 : Session)
    → Consumed s s1
    → IsAnswer proof v s1 s2
    → IsAnswer proof v s s2
IsAnswer-after proof v s s1 s2 first (answer, answered, good, received, confirmations, in_pool) = (
  answer,
  Answered-after s s1 s2
      (record { method = "check_tx_proof"; params = proof_params proof; mutation = false }) answer
      first answered,
  good,
  received,
  confirmations,
  in_pool,
)

pub verify_proof-eq-ok :
    (proof : PaymentProof) (v : PaymentVerification) (s s' : Session)
    → verify_proof proof s ≡ (ok v, s')
    → IsAnswer proof v s s'
unfolding verify_proof pure
verify_proof-eq-ok proof v s s' h = on_rpc (validate_wallet_address _) _ s h λ info s1 e1 h1.
    on_rpc (call "check_tx_proof" (proof_params proof) false) _ s1 h1 λ answer s2 e2 h2.
      on_lift (rpc_bool (get "good" answer)) _ s2 h2 λ valid e3 h3.
        on_lift (rpc_int (get "received" answer) 0 uint64_max) _ s2 h3 λ received e4 h4.
          on_lift (amount_of received) _ s2 h4 λ received' e5 h5.
            on_lift (rpc_int (get "confirmations" answer) 0 uint64_max) _ s2 h5 λ c e6 h6.
              on_lift (rpc_bool (get "in_pool" answer)) _ s2 h6 λ in_pool e7 h7.
                let same = ap (λ t. t.1) h7 in
                let is_v = ok-injective (ap (λ t. t.0) h7) in
                (
                  answer,
                  subst
                      (λ x.
                        Answered s x
                          (record {
                            method = "check_tx_proof";
                            params = proof_params proof;
                            mutation = false;
                          })
                          answer)
                      same
                      (Answered-after s s1 s2
                        (record {
                          method = "check_tx_proof";
                          params = proof_params proof;
                          mutation = false;
                        })
                        answer (validate_wallet_address-Uses (Value.str proof.address) s info s1 e1)
                        (call-Answered "check_tx_proof" (proof_params proof) false s1 answer s2
                          e2)),
                  rpc_bool-eq-ok _ _ e3 ∙ ap (λ r. Value.bool r.valid) is_v,
                  rpc_int-eq-ok _ _ _ _ e4
                      ∙ ap nat (sym (amount_of-eq-ok _ _ e5))
                      ∙ ap (λ r. nat r.received) is_v,
                  rpc_int-eq-ok _ _ _ _ e6 ∙ ap (λ r. nat r.confirmations) is_v,
                  rpc_bool-eq-ok _ _ e7 ∙ ap (λ r. Value.bool r.in_pool) is_v,
                )

pub conclude-eq-ok :
    (request : PaymentRequest) (required : ℕ) (txid message : Text) (v : PaymentVerification)
    (o : PaymentObservation)
    → conclude request required txid message v ≡ ok o
    → o.eligible ≡ true
    → (v.valid ≡ true)
      × (v.received ≡ request.amount_atomic)
      × (v.in_pool ≡ false)
      × (required ≤ v.confirmations)
      × (o.txid ≡ txid)
      × (o.request_message ≡ message)
      × (o.received_atomic ≡ v.received)
      × (o.confirmations ≡ v.confirmations)
unfolding conclude rpc_int
conclude-eq-ok request required txid message v o h e =
    ground (arith, ltb→lt v.confirmations required, nat_eq_iff v.received request.amount_atomic)

pub local_failure-none :
    (request : PaymentRequest) (proof : PaymentProof) (message : Text)
    → local_failure request proof message ≡ none
    → (proof.address ≡ request.recipient_address) × (proof.message ≡ message)
unfolding local_failure
local_failure-none request proof message h =
    ground (
      arith,
      text_eq_iff proof.address request.recipient_address,
      text_eq_iff proof.message message,
    )

pub local_failure-some :
    (request : PaymentRequest) (proof : PaymentProof) (message : Text) (o : PaymentObservation)
    → local_failure request proof message ≡ some o
    → o.eligible ≡ true
    → ⊥
unfolding local_failure
local_failure-some request proof message o h e = ground arith
