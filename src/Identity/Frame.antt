-- ===== src/Identity/Frame.antt =====
-- The signature frames of src/myt_machine/identity.py, and the digests of Machine IDs.
use myt_machine.Base.{
  ℕ, zero, suc, ◌/◌, ◌%◌, ◌≡◌, ◌≤◌, refl, sym, ap, ◌∙◌, subst, true, ◌&&◌, [], ◌∷◌, ◌++◌, Text,
  ◌==◌, ℕ_eq, Text_eq, length, take, drop, map, nat_eq_iff, text_eq_iff, and_parts, Bool-cases,
  Option-cases, inl, inr, length-append, arith,
}
use myt_machine.Base.Strings.{codes, to_upper}
use myt_machine.Errors.{Error, Result, ok, err, ok-injective, on_ok}
use myt_machine.Identity.{
  Crypto, is_machine_id, machine_id_prefix, encode_digest, digest_of, validate_identity_context,
  validate_identity_message, big_endian, signature_domain, create_signature_frame,
}

refused_id : {A : Type 0} {a : A} {e : Error} → ◌≡◌ {A = Result A} (err e) (ok a) → ⊥
refused_id h = ground arith

cons-injective : {a b : ℕ} {s t : Text} → ◌≡◌ {A = Text} (a ∷ s) (b ∷ t) → (a ≡ b) × (s ≡ t)
cons-injective h = ground arith

-- Texts of one length before the rest.
append-injective : (a b s t : Text) → length a ≡ length b → a ++ s ≡ b ++ t → (a ≡ b) × (s ≡ t)
append-injective [] [] s t l h = (refl, h)
append-injective (x ∷ a) (y ∷ b) s t l h =
    let (first, rest) = cons-injective h in
    let (front, back) = append-injective a b s t (omega (arith, l)) rest in
    (ap (λ u. u ∷ a) first ∙ ap (λ u. y ∷ u) front, back)
append-injective [] (y ∷ b) s t l h = absurd (omega (arith, l))
append-injective (x ∷ a) [] s t l h = absurd (omega (arith, l))

length-big_endian : (k n : ℕ) → length (big_endian k n) ≡ k
unfolding big_endian
length-big_endian zero n = refl
length-big_endian (suc k) n =
    length-append (big_endian k (n / 256)) ((n % 256) ∷ [])
    ∙ omega (arith, length-big_endian k (n / 256))

big_endian-injective : (m n : ℕ) → m ≤ 65535 → n ≤ 65535 → big_endian 2 m ≡ big_endian 2 n → m ≡ n
unfolding big_endian
big_endian-injective m n lm ln h =
    let (high, rest) = cons-injective h in
    let (low, nothing) = cons-injective rest in omega (arith, high, low, lm, ln)

take-drop : (n : ℕ) (s : Text) → take n s ++ drop n s ≡ s
take-drop zero s = refl
take-drop (suc n) [] = refl
take-drop (suc n) (x ∷ s) = ap (λ t. x ∷ t) (take-drop n s)

machine_id-prefix : (id : Text) → is_machine_id id ≡ true → take 15 id ≡ machine_id_prefix
unfolding is_machine_id
machine_id-prefix id h =
    (text_eq_iff (take 15 id) machine_id_prefix).0 ((and_parts _ _ (and_parts _ _ h).0).0)

pub digest_of-eq-ok :
    (c : Crypto) (id digest : Text)
    → digest_of c id ≡ ok digest
    → (id ≡ machine_id_prefix ++ encode_digest c digest) × (length digest ≡ 32)
unfolding digest_of
digest_of-eq-ok c id digest h = elim (Bool-cases (is_machine_id id)) [
  | inr bad ↦ absurd (refused_id (rw bad at h))
  | inl good ↦ elim (Option-cases (c.b32_decode (map to_upper (drop 15 id) ++ codes "===="))) [
    | inl none' ↦ absurd (refused_id (rw none' at rw good at h))
    | inr (decoded, is) ↦
        elim (Bool-cases (length decoded == 32 && encode_digest c decoded == drop 15 id)) [
          | inr other ↦ absurd (refused_id (rw other at rw is at rw good at h))
          | inl same ↦
              let (l, canonical) = and_parts (length decoded == 32) _ same in
              let is_digest = ok-injective (rw same at rw is at rw good at h) in
              (
                sym (take-drop 15 id)
                    ∙ ap (λ s. s ++ drop 15 id) (machine_id-prefix id good)
                    ∙ ap (λ s. machine_id_prefix ++ s)
                        (sym ((text_eq_iff (encode_digest c decoded) (drop 15 id)).0 canonical)
                          ∙ ap (λ d. encode_digest c d) is_digest),
                ap length (sym is_digest) ∙ (nat_eq_iff (length decoded) 32).0 l,
              )
        ]
  ]
]

pub context-range : (a b : Text) → validate_identity_context a ≡ ok b → (a ≡ b) × (length b ≤ 65535)
unfolding validate_identity_context
context-range a b h = ground arith

message-same : (a b : Text) → validate_identity_message a ≡ ok b → a ≡ b
unfolding validate_identity_message
message-same a b h = ground arith

frame-parts :
    (c : Crypto) (id context message frame : Text)
    → create_signature_frame c id context message ≡ ok frame
    → (digest : Text) × (digest_of c id ≡ ok digest)
      × (length context ≤ 65535)
      × (signature_domain
            ++ (1
                ∷ (digest
                    ++ (big_endian 2 (length context)
                        ++ (context ++ (big_endian 8 (length message) ++ message)))))
          ≡ frame)
unfolding create_signature_frame
frame-parts c id context message frame h = on_ok (digest_of c id) _ h λ digest e1 h1.
    on_ok (validate_identity_context context) _ h1 λ context' e2 h2.
      on_ok (validate_identity_message message) _ h2 λ message' e3 h3.
        let (same, bound) = context-range context context' e2 in
        let same' = message-same message message' e3 in
        (
          digest,
          e1,
          subst (λ t. length t ≤ 65535) (sym same) bound,
          ap
                (λ t.
                  signature_domain
                  ++ (1
                      ∷ (digest
                          ++ (big_endian 2 (length t)
                              ++ (t ++ (big_endian 8 (length message) ++ message))))))
                same
              ∙ ap
                  (λ t.
                    signature_domain
                    ++ (1
                        ∷ (digest
                            ++ (big_endian 2 (length context')
                                ++ (context' ++ (big_endian 8 (length t) ++ t))))))
                  same'
              ∙ ok-injective h3,
        )

-- Two signature frames are equal only for the same Machine ID, the same context and the same
-- message.
pub create_signature_frame-injective :
    (c : Crypto) (id id' context context' message message' frame : Text)
    → create_signature_frame c id context message ≡ ok frame
    → create_signature_frame c id' context' message' ≡ ok frame
    → (id ≡ id') × (context ≡ context') × (message ≡ message')
create_signature_frame-injective c id id' context context' message message' frame h h' =
    let (d, e, b, is) = frame-parts c id context message frame h in
    let (d', e', b', is') = frame-parts c id' context' message' frame h' in
    let (i, l) = digest_of-eq-ok c id d e in
    let (i', l') = digest_of-eq-ok c id' d' e' in
    let (same_domain, one) =
      append-injective signature_domain signature_domain _ _ refl (is ∙ sym is') in
    let (ones, rest) = cons-injective one in
    let (same_digest, rest2) = append-injective d d' _ _ (l ∙ sym l') rest in
    let (same_size, rest3) =
      append-injective (big_endian 2 (length context)) (big_endian 2 (length context')) _ _
        (length-big_endian 2 (length context) ∙ sym (length-big_endian 2 (length context')))
        rest2 in
    let (same_context, rest4) =
      append-injective context context' _ _
        (big_endian-injective (length context) (length context') b b' same_size) rest3 in
    let (same_length, same_message) =
      append-injective (big_endian 8 (length message)) (big_endian 8 (length message')) message
        message'
        (length-big_endian 8 (length message) ∙ sym (length-big_endian 8 (length message')))
        rest4 in
    (
      i ∙ ap (λ x. machine_id_prefix ++ encode_digest c x) same_digest ∙ sym i',
      same_context,
      same_message,
    )
