-- ===== src/Binding/Created.antt =====
-- What a binding that `create` makes is (src/myt_machine/binding.py).
use myt_machine.Base.{
  ◌≡◌, sym, ap, ◌∙◌, subst, Bool, true, false, Option, none, some, Text, ℕ_eq, Text_eq, arith,
  if◌then◌else◌,
}
use myt_machine.Errors.{
  input_error, rpc_protocol_error, ok, err, ok-injective, on_ok, require, require-eq-ok,
}
use myt_machine.Json.{Value, Fields, get}
use myt_machine.Payment.{Platform}
use myt_machine.Wallet.{Session, pure, call}
use myt_machine.Wallet.Answered.{Consumed, Consumed-trans, Uses-call}
use myt_machine.Settlement.Uses.{address-Uses}
use myt_machine.Wallet.Calls.{on_rpc, on_lift}
use myt_machine.Identity.{
  Crypto, PublicMachineIdentity, IdentityVerification, create_signature_frame, decode_signature,
  verify_identity, validate_identity_context,
}
use myt_machine.Identity.Signing.{verify_identity-IsValid}
use myt_machine.Binding.{
  AddressBinding, AddressFacts, SignatureFacts, binding_context, not_against, is_spend,
  canonical_content, verify_binding_identity,
}
use myt_machine.Binding.Service.{validate_address, verify_spend}
use myt_machine.Binding.Bound.{
  IsSpendAnswer, IsSpendAnswer-after, validate_address-Uses, IsBound, verify_identity-valid,
  verify_spend-IsSpendAnswer,
}
use myt_machine.Binding.{validate_binding_network}
use myt_machine.Binding.{
  validate_binding_address, validate_wallet_signature, checked_signature, new_binding,
}
use myt_machine.Binding.Service.{sign_params, present, check_own_address, create}
use myt_machine.Binding.Verified.{validate_binding_network-same}
use myt_machine.Identity.{MachineIdentity, sign}
use myt_machine.Settlement.{MachineSettlement, AddressInfo, address, rpc_string}
use myt_machine.Rpc.{check_flag}

guard-same : (test : Bool) (a s : Text) → (if test then ok a else err input_error) ≡ ok s → a ≡ s
guard-same true a s h = ok-injective h
guard-same false a s h = absurd (ground arith)

validate_binding_address-same : (a s : Text) → validate_binding_address (Value.str a) ≡ ok s → a ≡ s
unfolding validate_binding_address
validate_binding_address-same a s h = guard-same _ a s h

validate_wallet_signature-same :
    (a s : Text) → validate_wallet_signature (Value.str a) ≡ ok s → a ≡ s
unfolding validate_wallet_signature
validate_wallet_signature-same a s h = guard-same _ a s h

same_parts :
    (i : PublicMachineIdentity) (n network a' a g signature w wallet : Text) (b : AddressBinding)
    → network ≡ n
    → a ≡ a'
    → signature ≡ g
    → wallet ≡ w
    → record {
      identity = i;
      network = n;
      address = a';
      identity_signature = g;
      wallet_signature = w;
    }
      ≡ b
    → b ≡ record {
      identity = i;
      network = network;
      address = a;
      identity_signature = signature;
      wallet_signature = wallet;
    }
same_parts i n network a' a g signature w wallet b en ea eg ew e = rw en rw ea rw eg rw ew (sym e)

module _ (p : Platform) (c : Crypto) where
  checked_signature-same : (a s : Text) → checked_signature p c (Value.str a) ≡ ok s → a ≡ s
  unfolding checked_signature
  checked_signature-same a s h =
      on_ok (decode_signature c (Value.str a)) _ h λ raw e k. ok-injective k

  -- The parts of a binding are those that it was made of.
  new_binding-parts :
      (i : PublicMachineIdentity) (network a signature wallet : Text) (b : AddressBinding)
      → new_binding p c i (Value.str network) (Value.str a) (Value.str signature) (Value.str wallet)
        ≡ ok b
      → b ≡ record {
        identity = i;
        network = network;
        address = a;
        identity_signature = signature;
        wallet_signature = wallet;
      }
  unfolding new_binding checked_signature
  new_binding-parts i network a signature wallet b h =
      on_ok (validate_binding_network (Value.str network)) _ h λ n e1 h1.
        on_ok (validate_binding_address (Value.str a)) _ h1 λ a' e2 h2.
          on_ok (checked_signature p c (Value.str signature)) _ h2 λ g e3 h3.
            on_ok (validate_wallet_signature (Value.str wallet)) _ h3 λ w e4 h4.
              same_parts i n network a' a g signature w wallet b
                (validate_binding_network-same network n e1) (validate_binding_address-same a a' e2)
                (checked_signature-same signature g e3) (validate_wallet_signature-same wallet w e4)
                (ok-injective h4)

  alone-matches :
      (i : PublicMachineIdentity) (content : Text) (signature : Value) (r : IdentityVerification)
      → verify_identity c i content binding_context signature none ≡ ok r
      → not_against r.identity_matches ≡ true
  unfolding verify_identity
  alone-matches i content signature r h =
      on_ok (create_signature_frame c i.machine_id binding_context content) _ h λ frame e2 h2.
        on_ok (decode_signature c signature) _ h2 λ raw e3 h3.
          on_ok (validate_identity_context binding_context) _ h3
            λ context' e4 h4. ap (λ x. not_against x.identity_matches) (sym (ok-injective h4))

  IsBound-alone :
      (b : AddressBinding) (content : Text) (r : IdentityVerification) (f : SignatureFacts)
      (s s' : Session)
      → verify_binding_identity p c b none ≡ ok r
      → r.signature_valid ≡ true
      → canonical_content p c b ≡ ok content
      → IsSpendAnswer content b.address b.wallet_signature f s s'
      → is_spend f ≡ true
      → IsBound p c b none none s s'
  unfolding verify_binding_identity
  IsBound-alone b content r f s s' h good content_is answered spend =
      on_ok (canonical_content p c b) _ h λ content' e1 h1.
        let same = ok-injective (sym e1 ∙ content_is) in
        let valid =
          verify_identity-valid c b.identity content' binding_context
            (Value.str b.identity_signature) none r h1 good
            (alone-matches b.identity content' (Value.str b.identity_signature) r h1) in
        let (frame, raw, framed, decoded, verifies, by_expected) =
          verify_identity-IsValid c b.identity content' binding_context
            (Value.str b.identity_signature) none r h1 valid in
        record {
          content = content;
          frame = frame;
          raw = raw;
          answer = f;
          content_is = content_is;
          framed =
              subst
                (λ x. create_signature_frame c b.identity.machine_id binding_context x ≡ ok frame)
                same framed;
          decoded = decoded;
          verifies = verifies;
          answered = answered;
          spend = spend;
          by_expected = by_expected;
          on_network = λ n e. absurd (none-not-some e);
        }
    where
      none-not-some : {m : Text} → ◌≡◌ {A = Option Text} none (some m) → ⊥
      none-not-some e = ground arith

  -- The calls of `create` before the last one use the replies in order.
  before_last :
      (m : MachineSettlement) (a content : Text) (s s1 s2 s3 : Session) (selected : AddressInfo)
      (info : Option AddressFacts) (response : Fields)
      → address m s ≡ (ok selected, s1)
      → validate_address a false s1 ≡ (ok info, s2)
      → call "sign" (sign_params m content) true s2 ≡ (ok response, s3)
      → Consumed s s3
  before_last m a content s s1 s2 s3 selected info response e1 e2 e3 =
      Consumed-trans s s2 s3
        (Consumed-trans s s1 s2 (address-Uses m s selected s1 e1)
          (validate_address-Uses a false s1 info s2 e2))
        (Uses-call "sign" (sign_params m content) true s2 response s3 e3)

  -- A binding that `create` returns is bound by both signatures: the identity's signature verifies,
  -- under its public key, for the frame of the binding's content, and the last call that `create`
  -- made asks the wallet about the wallet signature of this content for the address, and the reply
  -- that the wallet had for that call says it is a good spend signature of version 2.
  pub create-IsBound :
      (m : MachineSettlement) (identity : MachineIdentity) (allow : Value) (b : AddressBinding)
      (s s' : Session)
      → create p c m identity allow s ≡ (ok b, s')
      → (b.identity ≡ identity.public_identity) × IsBound p c b none none s s'
  unfolding create pure
  create-IsBound m identity allow b s s' h = on_lift (check_flag allow) _ s h λ flag e1 h1.
      on_rpc (address m) _ s h1 λ selected s1 e2 h2.
        on_lift (validate_binding_address (Value.str selected.address)) _ s1 h2 λ a e3 h3.
          on_rpc (validate_address a false) _ s1 h3 λ info s2 e4 h4.
            on_lift (present info) _ s2 h4 λ facts e5 h5.
              on_lift (check_own_address m flag facts) _ s2 h5 λ u e6 h6.
                on_lift _ _ s2 h6 λ content e7 h7.
                  on_lift (sign c identity content binding_context) _ s2 h7 λ signature e8 h8.
                    on_rpc _ _ s2 h8 λ response s3 e9 h9.
                      on_lift (rpc_string (get "signature" response) false) _ s3 h9
                        λ signed e10 h10.
                          on_lift (validate_wallet_signature (Value.str signed)) _ s3 h10
                            λ wallet e11 h11.
                              on_rpc (verify_spend content a wallet) _ s3 h11 λ f s4 e12 h12.
                                on_lift (require (is_spend f) rpc_protocol_error) _ s4 h12
                                  λ u' e13 h13. on_lift _ _ s4 h13 λ b' e14 h14.
                                    on_lift (verify_binding_identity p c b' none) _ s4 h14
                                      λ r e15 h15.
                                        on_lift (require r.signature_valid rpc_protocol_error) _ s4
                                          h15
                                          λ u'' e16 h16.
                                            let parts =
                                              new_binding-parts identity.public_identity
                                                facts.network a signature.signature wallet b' e14 in
                                            let returned = ap (λ t. t.1) h16 in
                                            let same = ok-injective (ap (λ t. t.0) h16) in
                                            let bound =
                                              IsBound-alone b' content r f s s4 e15
                                                (require-eq-ok _ _ e16)
                                                (subst (λ x. canonical_content p c x ≡ ok content)
                                                  (sym parts) e7)
                                                (subst
                                                  (λ x.
                                                    IsSpendAnswer content x.address
                                                      x.wallet_signature f s s4)
                                                  (sym parts)
                                                  (IsSpendAnswer-after content a wallet f s s3 s4
                                                    (before_last m a content s s1 s2 s3 selected
                                                      info response e2 e4 e9)
                                                    (verify_spend-IsSpendAnswer content a wallet f
                                                      s3 s4 e12)))
                                                (require-eq-ok _ _ e13) in
                                            (
                                              ap (λ x. x.identity) (sym same ∙ parts),
                                              subst (λ x. IsBound p c x none none s s') same
                                                  (subst (IsBound p c b' none none s) returned
                                                    bound),
                                            )
