-- ===== src/Verification/Confirmed.antt =====
-- What an eligible observation of the verifier guarantees.
use myt_machine.Base.{
  ℕ, ◌≡◌, ◌≤◌, ◌∙◌, sym, ap, subst, Bool, true, false, not, Option, none, some, Text, Text_eq,
  arith, if◌then◌else◌,
}
use myt_machine.Base.Strings.{codes}
use myt_machine.Errors.{Result, ok, ok-injective, on_ok, input_error, require}
use myt_machine.Json.{Value, get}
use myt_machine.Proofs.{PaymentProof, parse_proof_artifact}
use myt_machine.Payment.{Platform, PaymentRequest, nat, bounded_int, is_version_one, proof_message}
use myt_machine.Invoice.{max_confirmations}
use myt_machine.Observation.{PaymentObservation}
use myt_machine.Wallet.{Rpc, Session, pure, lift, ◌>>=◌}
use myt_machine.Wallet.Calls.{on_rpc, on_lift}
use myt_machine.Wallet.Answered.{Consumed, Uses, Uses-call, Uses-lift, Uses-bind}
use myt_machine.Settlement.Payments.{PaymentVerification, verify_proof, verify_payment}
use myt_machine.Verification.{
  negative, artifact_of, exact_fields, check_out_proof, local_failure, conclude, prepare,
}
use myt_machine.Verification.Again.{parse_proof_artifact_again}
use myt_machine.Verification.Eligible.{
  IsAnswer, IsAnswer-after, verify_proof-eq-ok, conclude-eq-ok, local_failure-none,
  local_failure-some,
}
use myt_machine.Verification.Verifier.{validate_request, ask_wallet, verify}

-- From `s` to `after`, the wallet's reply to the last call is that a payment of exactly the amount, to the address of the
-- request and with its message, is deep enough in the chain.
abbrev pub IsConfirmed : PaymentRequest → ℕ → PaymentObservation → Session → Session → Type 0
IsConfirmed request required o s after =
    (proof : PaymentProof) × (v : PaymentVerification) × IsAnswer proof v s after
    × (proof.txid ≡ o.txid)
    × (proof.address ≡ request.recipient_address)
    × (proof.message ≡ o.request_message)
    × (v.valid ≡ true)
    × (v.received ≡ request.amount_atomic)
    × (v.in_pool ≡ false)
    × (required ≤ v.confirmations)
    × (o.received_atomic ≡ v.received)
    × (o.confirmations ≡ v.confirmations)

-- Calls before the answer.
pub IsConfirmed-after :
    (request : PaymentRequest) (required : ℕ) (o : PaymentObservation) (s s1 s2 : Session)
    → Consumed s s1
    → IsConfirmed request required o s1 s2
    → IsConfirmed request required o s s2
IsConfirmed-after request required o s s1 s2 first
      (proof, v, answer, txid, to, said, valid, amount, in_pool, depth, received, confirmations) =
    (
      proof,
      v,
      IsAnswer-after proof v s s1 s2 first answer,
      txid,
      to,
      said,
      valid,
      amount,
      in_pool,
      depth,
      received,
      confirmations,
    )

verify_payment-eq-ok :
    (artifact : Value) (proof : PaymentProof) (v : PaymentVerification) (s s' : Session)
    → parse_proof_artifact artifact ≡ ok proof
    → verify_payment (artifact_of proof) s ≡ (ok v, s')
    → IsAnswer proof v s s'
unfolding verify_payment
verify_payment-eq-ok artifact proof v s s' parsed h =
    on_lift (parse_proof_artifact (artifact_of proof)) _ s h λ again e h1.
      let same = ok-injective (sym e ∙ parse_proof_artifact_again artifact proof parsed) in
      verify_proof-eq-ok proof v s s' (subst (λ x. verify_proof x s ≡ (ok v, s')) same h1)

module _ (p : Platform) (network : Text) where
  prepare-eq-ok :
      (request : PaymentRequest) (artifact : Value) (required : ℕ) (proof : PaymentProof)
      (message : Text) (failure : Option PaymentObservation)
      → prepare p request artifact required ≡ ok (proof, message, failure)
      → (parse_proof_artifact artifact ≡ ok proof)
        × (proof_message p request ≡ ok message)
        × (local_failure request proof message ≡ failure)
  unfolding prepare
  prepare-eq-ok request artifact required proof message failure h =
      on_ok (bounded_int (nat required) 1 max_confirmations) _ h λ n e1 h1.
        on_ok (exact_fields artifact) _ h1 λ f e2 h2.
          on_ok (require (is_version_one (get "version" f)) input_error) _ h2 λ u e3 h3.
            on_ok (check_out_proof (get "proof" f)) _ h3 λ u' e4 h4.
              on_ok (parse_proof_artifact artifact) _ h4 λ proof' e5 h5.
                on_ok (proof_message p request) _ h5 λ message' e6 h6.
                  let same = ok-injective h6 in
                  (
                    e5 ∙ ap (λ t. ok t.0) same,
                    e6 ∙ ap (λ t. ok t.1) same,
                    ap (λ t. local_failure request t.0 t.1) (sym same) ∙ ap (λ t. t.2) same,
                  )

  -- What is asked once the address was found usable or not.
  abbrev ask_proof : PaymentRequest → PaymentProof → Text → ℕ → Bool → Rpc PaymentObservation
  ask_proof request proof message required usable =
      if not usable then pure (negative (codes "invalid_recipient") proof.txid message) else do
        v ← verify_payment (artifact_of proof)
        lift (conclude request required proof.txid message v)

  ask_proof-eq-ok :
      (request : PaymentRequest) (artifact : Value) (proof : PaymentProof) (message : Text)
      (required : ℕ) (o : PaymentObservation) (usable : Bool) (s s' : Session)
      → parse_proof_artifact artifact ≡ ok proof
      → local_failure request proof message ≡ none
      → ask_proof request proof message required usable s ≡ (ok o, s')
      → o.eligible ≡ true
      → IsConfirmed request required o s s' × (o.request_message ≡ message)
  unfolding pure lift
  ask_proof-eq-ok request artifact proof message required o false s s' parsed local h e =
      let same = ok-injective (ap (λ t. t.0) h) in
      absurd (not_eligible (ap (λ x. x.eligible) same ∙ e))
    where
      not_eligible : false ≡ true → ⊥
      not_eligible h = ground arith
  ask_proof-eq-ok request artifact proof message required o true s s' parsed local h e =
      on_rpc (verify_payment (artifact_of proof)) _ s h λ v s1 e1 h1.
        let answer = verify_payment-eq-ok artifact proof v s s1 parsed e1 in
        let (valid, received, in_pool, depth, txid, said, received', confirmations) =
          conclude-eq-ok request required proof.txid message v o (ap (λ t. t.0) h1) e in
        let (to, message') = local_failure-none request proof message local in
        (
          (
            proof,
            v,
            subst (IsAnswer proof v s) (ap (λ t. t.1) h1) answer,
            sym txid,
            to,
            message' ∙ sym said,
            valid,
            received,
            in_pool,
            depth,
            received',
            confirmations,
          ),
          said,
        )

  validate_request-Uses : (request : PaymentRequest) → Uses (validate_request p network request)
  unfolding validate_request
  validate_request-Uses request =
      Uses-bind _ _ (Uses-lift _)
        λ x0. Uses-bind _ _ (Uses-lift _) λ x1. Uses-bind _ _ (Uses-call _ _ _) λ x2. Uses-lift _

  ask_wallet-eq-ok :
      (request : PaymentRequest) (artifact : Value) (proof : PaymentProof) (message : Text)
      (required : ℕ) (o : PaymentObservation) (s s' : Session)
      → parse_proof_artifact artifact ≡ ok proof
      → local_failure request proof message ≡ none
      → ask_wallet p network request proof message required s ≡ (ok o, s')
      → o.eligible ≡ true
      → IsConfirmed request required o s s' × (o.request_message ≡ message)
  unfolding ask_wallet
  ask_wallet-eq-ok request artifact proof message required o s s' parsed local h e =
      on_rpc (validate_request p network request) _ s h λ usable s1 e1 h1.
        let (confirmed, said) =
          ask_proof-eq-ok request artifact proof message required o usable s1 s' parsed local h1
            e in
        (
          IsConfirmed-after request required o s s1 s'
              (validate_request-Uses request s usable s1 e1) confirmed,
          said,
        )

  answer_or_ask-eq-ok :
      (request : PaymentRequest) (artifact : Value) (proof : PaymentProof) (message : Text)
      (required : ℕ) (failure : Option PaymentObservation) (o : PaymentObservation) (s s' : Session)
      → parse_proof_artifact artifact ≡ ok proof
      → local_failure request proof message ≡ failure
      → ◌≡◌ {A = Result PaymentObservation × Session}
          ((elim failure as (λ _. Rpc PaymentObservation) [
            | none ↦ ask_wallet p network request proof message required
            | some o' ↦ pure o'
          ])
            s)
          (ok o, s')
      → o.eligible ≡ true
      → IsConfirmed request required o s s' × (o.request_message ≡ message)
  unfolding pure
  answer_or_ask-eq-ok request artifact proof message required none o s s' parsed local h e =
      ask_wallet-eq-ok request artifact proof message required o s s' parsed local h e
  answer_or_ask-eq-ok request artifact proof message required (some o') o s s' parsed local h e =
      absurd (
        local_failure-some request proof message o' local
          (ap (λ x. x.eligible) (ok-injective (ap (λ t. t.0) h)) ∙ e))

  -- Where `verify` returns an eligible observation, the last call that it made is `check_tx_proof`,
  -- with the parameters of a proof for the address and the message of the request, and the reply
  -- that the wallet had for that call says: the proof is good, exactly the amount was received, the
  -- transaction is not in the pool, and it has at least the required confirmations. The observation
  -- repeats the numbers of that reply and names the transaction of the proof and the message of the
  -- request.
  pub verify-IsConfirmed :
      (request : PaymentRequest) (artifact : Value) (required : ℕ) (o : PaymentObservation)
      (s s' : Session)
      → verify p network request artifact required s ≡ (ok o, s')
      → o.eligible ≡ true
      → IsConfirmed request required o s s' × (proof_message p request ≡ ok o.request_message)
  unfolding verify
  verify-IsConfirmed request artifact required o s s' h e =
      on_lift (prepare p request artifact required) _ s h λ (proof, message, failure) e1 h1.
        let (parsed, said, local) =
          prepare-eq-ok request artifact required proof message failure e1 in
        let (confirmed, message') =
          answer_or_ask-eq-ok request artifact proof message required failure o s s' parsed local h1
            e in
        (confirmed, said ∙ ap (λ x. ok x) (sym message'))
