-- ===== src/Binding/Bound.antt =====
-- What a binding is that the service verifies or creates (src/myt_machine/binding.py).
use myt_machine.Base.{
  ◌≡◌, sym, ap, ◌∙◌, subst, Bool, true, false, not, Option, none, some, Text, ◌==◌, ℕ_eq, Text_eq,
  text_eq_iff, and_parts, some-injective, Bool-cases, inl, inr, arith, if◌then◌else◌,
}
use myt_machine.Base.Strings.{codes}
use myt_machine.Errors.{Result, ok, ok-injective, on_ok}
use myt_machine.Json.{Value, Fields}
use myt_machine.Payment.{Platform}
use myt_machine.Wallet.{Call, Rpc, Session, pure, lift}
use myt_machine.Wallet.Answered.{
  Consumed, Answered, Answered-after, call-Answered, Uses, Uses-call, Uses-lift, Uses-bind,
}
use myt_machine.Wallet.Calls.{on_rpc, on_lift}
use myt_machine.Identity.{
  Crypto, PublicMachineIdentity, IdentityVerification, create_signature_frame, decode_signature,
  verify_identity, check_expected, matches, verdict, validate_identity_context,
}
use myt_machine.Identity.Signing.{verify_identity-IsValid}
use myt_machine.Binding.{
  AddressBinding, AddressFacts, SignatureFacts, WalletFacts, AddressBindingVerification,
  binding_context, not_against, expected_match, is_spend, is_binding_valid, result_of,
  canonical_content, verify_binding_identity, wallet_verification_metadata,
}
use myt_machine.Binding.Service.{
  validate_address, verify_spend, verify_params, unsigned_address, signed_address, check_current,
  verify_signature, verify_address,
}

-- The call `verify` of this content, address and signature.
abbrev pub spend_call : Text → Text → Text → Call
spend_call content a signature = record {
  method = "verify";
  params = verify_params content a signature;
  mutation = false;
}

-- From `s` to `after`, the last call was `verify` of this content, address and signature, and the
-- wallet's reply to it says these facts.
pub record IsSpendAnswer (content a signature : Text) (f : SignatureFacts) (s after : Session)
    : Type 0 where
  pub response : Fields
  pub answered : Answered s after (spend_call content a signature) response
  pub read : wallet_verification_metadata response ≡ ok f

pub verify_spend-IsSpendAnswer :
    (content a signature : Text) (f : SignatureFacts) (s s' : Session)
    → verify_spend content a signature s ≡ (ok f, s')
    → IsSpendAnswer content a signature f s s'
unfolding verify_spend lift
verify_spend-IsSpendAnswer content a signature f s s' h = on_rpc _ _ s h λ response s1 e1 h1.
    record {
      response = response;
      answered =
          subst (λ x. Answered s x (spend_call content a signature) response) (ap (λ t. t.1) h1)
            (call-Answered "verify" (verify_params content a signature) false s response s1 e1);
      read = ap (λ t. t.0) h1;
    }

-- Calls before the answer.
pub IsSpendAnswer-after :
    (content a signature : Text) (f : SignatureFacts) (s s1 s2 : Session)
    → Consumed s s1
    → IsSpendAnswer content a signature f s1 s2
    → IsSpendAnswer content a signature f s s2
IsSpendAnswer-after content a signature f s s1 s2 first last = record {
  response = last.response;
  answered =
      Answered-after s s1 s2 (spend_call content a signature) last.response first last.answered;
  read = last.read;
}

pub validate_address-Uses : (a : Text) (any : Bool) → Uses (validate_address a any)
unfolding validate_address
validate_address-Uses a any = Uses-bind _ _ (Uses-call _ _ _) λ x0. Uses-lift _

pub verify_spend-Uses : (content a signature : Text) → Uses (verify_spend content a signature)
unfolding verify_spend
verify_spend-Uses content a signature = Uses-bind _ _ (Uses-call _ _ _) λ x0. Uses-lift _

-- Both signatures are of the content of the binding: the identity's for its frame, and the wallet's as
-- it replied to the last call from `s` to `after`. The Machine ID and the network are the expected ones, where they are given.
pub record IsBound (p : Platform) (c : Crypto) (b : AddressBinding)
    (expected_id expected_network : Option Text) (s after : Session) : Type 0 where
  pub content : Text
  pub frame : Text
  pub raw : Text
  pub answer : SignatureFacts
  pub content_is : canonical_content p c b ≡ ok content
  pub framed : create_signature_frame c b.identity.machine_id binding_context content ≡ ok frame
  pub decoded : decode_signature c (Value.str b.identity_signature) ≡ ok raw
  pub verifies : c.verify_with b.identity.public_key raw frame ≡ true
  pub answered : IsSpendAnswer content b.address b.wallet_signature answer s after
  pub spend : is_spend answer ≡ true
  pub by_expected : (id : Text) → expected_id ≡ some id → id ≡ b.identity.machine_id
  pub on_network : (n : Text) → expected_network ≡ some n → b.network ≡ n

pub false-not-true : false ≡ true → ⊥
false-not-true h = ground arith

-- A verdict on which nothing is held against is valid.
verdict-valid :
    (c : Crypto) (good : Bool) (expected : Option Bool) (i : PublicMachineIdentity) (context : Text)
    → (verdict c good expected i context).signature_valid ≡ true
    → not_against (verdict c good expected i context).identity_matches ≡ true
    → (verdict c good expected i context).valid ≡ true
verdict-valid c good none i context h m = h
verdict-valid c good (some same) i context h m = rw h m

pub verify_identity-valid :
    (c : Crypto) (i : PublicMachineIdentity) (message context : Text) (signature : Value)
    (expected : Option Text) (r : IdentityVerification)
    → verify_identity c i message context signature expected ≡ ok r
    → r.signature_valid ≡ true
    → not_against r.identity_matches ≡ true
    → r.valid ≡ true
unfolding verify_identity
verify_identity-valid c i message context signature expected r h good matched =
    on_ok (check_expected c expected) _ h λ u e1 h1.
      on_ok (create_signature_frame c i.machine_id context message) _ h1 λ frame e2 h2.
        on_ok (decode_signature c signature) _ h2 λ raw e3 h3.
          on_ok (validate_identity_context context) _ h3 λ context' e4 h4.
            let same = ok-injective h4 in
            ap (λ x. x.valid) (sym same)
            ∙ verdict-valid c (c.verify_with i.public_key raw frame)
                (matches c expected i.machine_id) i context'
                (ap (λ x. x.signature_valid) same ∙ good)
                (ap (λ x. not_against x.identity_matches) same ∙ matched)

else_branch :
    {A : Type 0} (test : Bool) (m k : Rpc A) (s : Session) (t : Result A × Session)
    → test ≡ false
    → (if test then m else k) s ≡ t
    → k s ≡ t
else_branch true m k s t e h = absurd (false-not-true (sym e))
else_branch false m k s t e h = h

module _ (p : Platform) (c : Crypto) (b : AddressBinding) where
  pub result_of-valid :
      (i : IdentityVerification) (n : Option Text) (w : WalletFacts)
      → (result_of b i n w).valid ≡ true
      → (is_binding_valid w i.signature_valid ≡ true)
        × (not_against i.identity_matches ≡ true)
        × (not_against (expected_match n b.network) ≡ true)
  unfolding result_of
  result_of-valid i n w h =
      let (sound, expected) = and_parts (is_binding_valid w i.signature_valid) _ h in
      let (id_matched, net_matched) = and_parts (not_against i.identity_matches) _ expected in
      (sound, id_matched, net_matched)

  expected_match-eq-true :
      (n : Option Text)
      → not_against (expected_match n b.network) ≡ true
      → (m : Text) → n ≡ some m
      → b.network ≡ m
  expected_match-eq-true none h m e = absurd (none-not-some e)
    where
      none-not-some : {m : Text} → ◌≡◌ {A = Option Text} none (some m) → ⊥
      none-not-some e = ground arith
  expected_match-eq-true (some k) h m e = (text_eq_iff b.network k).0 h ∙ some-injective e

  verify_signature-IsBound :
      (i : IdentityVerification) (expected n : Option Text) (facts : AddressFacts)
      (r : AddressBindingVerification) (s s' : Session)
      → verify_binding_identity p c b expected ≡ ok i
      → verify_signature p c b i n facts s ≡ (ok r, s')
      → r.valid ≡ true
      → IsBound p c b expected n s s'
  unfolding verify_signature verify_binding_identity is_binding_valid pure
  verify_signature-IsBound i expected n facts r s s' identified h v =
      on_rpc (validate_address b.address false) _ s h λ current s1 e1 h1.
        on_lift (check_current facts current) _ s1 h1 λ u e2 h2.
          on_lift (canonical_content p c b) _ s1 h2 λ content e3 h3.
            on_rpc (verify_spend content b.address b.wallet_signature) _ s1 h3 λ f s2 e4 h4.
              let made = ok-injective (ap (λ t. t.0) h4) in
              let (sound, id_matched, net_matched) =
                result_of-valid i n (signed_address facts f) (ap (λ x. x.valid) made ∙ v) in
              let (good, spend) = and_parts i.signature_valid (is_spend f) sound in
              on_ok (canonical_content p c b) _ identified λ content' e5 h5.
                let same = ok-injective (sym e5 ∙ e3) in
                let (frame, raw, framed, decoded, verifies, by_expected) =
                  verify_identity-IsValid c b.identity content' binding_context
                    (Value.str b.identity_signature) expected i h5
                    (verify_identity-valid c b.identity content' binding_context
                      (Value.str b.identity_signature) expected i h5 good id_matched) in
                record {
                  content = content;
                  frame = frame;
                  raw = raw;
                  answer = f;
                  content_is = e3;
                  framed =
                      subst
                        (λ x.
                          create_signature_frame c b.identity.machine_id binding_context x
                          ≡ ok frame)
                        same framed;
                  decoded = decoded;
                  verifies = verifies;
                  answered =
                      subst (IsSpendAnswer content b.address b.wallet_signature f s)
                        (ap (λ t. t.1) h4)
                        (IsSpendAnswer-after content b.address b.wallet_signature f s s1 s2
                          (validate_address-Uses b.address false s current s1 e1)
                          (verify_spend-IsSpendAnswer content b.address b.wallet_signature f s1 s2
                            e4));
                  spend = spend;
                  by_expected = by_expected;
                  on_network = expected_match-eq-true n net_matched;
                }

  pub verify_address-IsBound :
      (i : IdentityVerification) (expected n : Option Text) (facts : AddressFacts)
      (r : AddressBindingVerification) (s s' : Session)
      → verify_binding_identity p c b expected ≡ ok i
      → verify_address p c b i n facts s ≡ (ok r, s')
      → r.valid ≡ true
      → IsBound p c b expected n s s' × (facts.network ≡ b.network) × (facts.integrated ≡ false)
  unfolding verify_address pure is_binding_valid
  verify_address-IsBound i expected n facts r s s' identified h v =
      elim (Bool-cases facts.integrated) [
        | inl integrated ↦
            let made = ok-injective (ap (λ t. t.0) (rw integrated at h)) in
            absurd (
              false-not-true
                (result_of-valid i n
                  (unsigned_address false (codes "integrated") (facts.network == b.network))
                  (ap (λ x. x.valid) made ∙ v)).0)
        | inr plain ↦
            let h1 = else_branch facts.integrated _ _ s (ok r, s') plain h in
            elim (Bool-cases (facts.network == b.network)) [
              | inr other ↦
                  let made = ok-injective (ap (λ t. t.0) (rw other at h1)) in
                  absurd (
                    false-not-true
                      (result_of-valid i n (unsigned_address true facts.address_type false)
                        (ap (λ x. x.valid) made ∙ v)).0)
              | inl same ↦ (
                verify_signature-IsBound i expected n facts r s s' identified
                    (else_branch (not (facts.network == b.network)) _ _ s (ok r, s') (ap not same)
                      h1)
                    v,
                (text_eq_iff facts.network b.network).0 same,
                plain,
              )
            ]
      ]

  -- Calls before those that bind.
  pub IsBound-after :
      (expected n : Option Text) (s s1 s2 : Session)
      → Consumed s s1
      → IsBound p c b expected n s1 s2
      → IsBound p c b expected n s s2
  IsBound-after expected n s s1 s2 first h = record {
    content = h.content;
    frame = h.frame;
    raw = h.raw;
    answer = h.answer;
    content_is = h.content_is;
    framed = h.framed;
    decoded = h.decoded;
    verifies = h.verifies;
    answered =
        IsSpendAnswer-after h.content b.address b.wallet_signature h.answer s s1 s2 first
          h.answered;
    spend = h.spend;
    by_expected = h.by_expected;
    on_network = h.on_network;
  }
