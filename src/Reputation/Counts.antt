-- ===== src/Reputation/Counts.antt =====
-- How many attestations are of one issuer, and of some issuers (reputation_policy.py).
use myt_machine.Base.{
  ℕ, suc, ◌+◌, ◌*◌, ◌≤◌, ◌≡◌, refl, sym, ap, ◌∙◌, subst, true, false, List, [], ◌∷◌, Text, ◌==◌,
  Text_eq, option_text_eq, text_eq_iff, text_eq_refl, All, inl, inr, Bool-cases, length, any, arith,
  if◌then◌else◌,
}
use myt_machine.Reputation.Evidence.{Entry}
use myt_machine.Reputation.Policy.{contributed, contribute}

-- The attestations of an issuer.
unfoldable pub count_of : Text → List Entry → ℕ
count_of issuer [] = 0
count_of issuer (a ∷ es) =
    let rest = count_of issuer es in if a.row.issuer == issuer then suc rest else rest

pub contributed-contribute :
    (i : Text) (cs : List (Text × ℕ)) → contributed i (contribute i cs) ≡ suc (contributed i cs)
unfolding contributed contribute
contributed-contribute i [] = rw (text_eq_refl i) refl
contributed-contribute i ((j, n) ∷ cs) = elim (Bool-cases (j == i)) [
  | inl same ↦ rw same rw same refl
  | inr other ↦ rw other rw other (contributed-contribute i cs)
]

pub contributed-other :
    (i j : Text) (cs : List (Text × ℕ))
    → (i == j) ≡ false
    → contributed j (contribute i cs) ≡ contributed j cs
unfolding contributed contribute
contributed-other i j [] h = rw h refl
contributed-other i j ((k, n) ∷ cs) h = elim (Bool-cases (k == i)) [
  | inl same ↦ rw same (rw (ap (λ x. x == j) ((text_eq_iff k i).0 same) ∙ h) refl)
  | inr other ↦ rw other (ap (λ n'. if k == j then n else n') (contributed-other i j cs h))
]

-- The accepted attestations of all these issuers.
unfoldable pub total : List Text → List Entry → ℕ
total [] es = 0
total (t ∷ ts) es = count_of t es + total ts es

total-cons : (ts : List Text) (a : Entry) (es : List Entry) → total ts es ≤ total ts (a ∷ es)
unfolding total count_of
total-cons [] a es = ground arith
total-cons (t ∷ ts) a es = ground (arith, total-cons ts a es)

total-trusted :
    (ts : List Text) (a : Entry) (es : List Entry)
    → any (λ t. t == a.row.issuer) ts ≡ true
    → suc (total ts es) ≤ total ts (a ∷ es)
unfolding total count_of
total-trusted [] a es h = absurd (ground arith)
total-trusted (t ∷ ts) a es h = elim (Bool-cases (t == a.row.issuer)) [
  | inl same ↦
      let e = (text_eq_iff t a.row.issuer).0 same in
      subst (λ x. suc (count_of x es + total ts es) ≤ count_of x (a ∷ es) + total ts (a ∷ es))
        (sym e) (ground (arith, text_eq_refl a.row.issuer, total-cons ts a es))
  | inr other ↦ ground (arith, total-trusted ts a es (rw other at h))
]

pub length-total :
    (ts : List Text) (es : List Entry)
    → All (λ a. any (λ t. t == a.row.issuer) ts ≡ true) es
    → length es ≤ total ts es
length-total ts [] h = ground arith
length-total ts (a ∷ es) h = ground (arith, length-total ts es h.1, total-trusted ts a es h.0)

pub total-limit :
    (ts : List Text) (es : List Entry) (n : ℕ)
    → ((i : Text) → count_of i es ≤ n)
    → total ts es ≤ length ts * n
unfolding total
total-limit [] es n h = ground arith
total-limit (t ∷ ts) es n h = ground (arith, total-limit ts es n h, h t)
