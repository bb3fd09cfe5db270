-- ===== src/Reputation/Loop.antt =====
-- The loop of `reputation_summary` in src/myt_machine/reputation_policy.py, and its invariant.
use myt_machine.Base.{
  ℕ, suc, ◌≤◌, ◌≡◌, refl, sym, ap, ◌∙◌, subst, true, false, ◌&&◌, some, List, [], ◌∷◌, Text, ◌==◌,
  Text_eq, option_text_eq, text_eq_iff, and_parts, All, inl, inr, Bool-cases, leb, arith,
}
use mathlib.Core.List.{Memᴰ}
use myt_machine.Reputation.{attestation}
use myt_machine.Reputation.Evidence.{SettlementRow, Entry}
use myt_machine.Reputation.Policy.{
  Criteria, Tally, contributed, contribute, is_revoked, in_age, is_linked, is_trusted, qualifies,
  comes_before, insert_newest, newest_first, attestations_of, consider, consider_all,
}
use myt_machine.Reputation.Counts.{count_of, contributed-contribute, contributed-other}

module _ (policy : Criteria) (subject : Text) (as_of : ℕ) (events : List SettlementRow)
    (entries : List Entry) where
  -- An attestation about the subject that was not revoked and that the policy accepts.
  pub record Meets (a : Entry) : Type 0 where
    pub stored : Memᴰ a entries
    pub attests : (a.row.kind == attestation) ≡ true
    pub about : (a.row.subject == some subject) ≡ true
    pub standing : is_revoked entries a ≡ false
    pub trusted : is_trusted policy subject a ≡ true
    pub aged : in_age policy as_of a ≡ true
    pub linked : is_linked policy events a ≡ true

  -- The counts of the issuers are those of the accepted attestations, and within the limit.
  pub record IsFair (t : Tally) : Type 0 where
    pub counted : (i : Text) → count_of i t.accepted ≡ contributed i t.contributions
    pub limited : (i : Text) → contributed i t.contributions ≤ policy.max_per_issuer
    pub meets : All Meets t.accepted

  -- An attestation about the subject, among the entries.
  unfoldable pub IsAbout : Entry → Type 0
  IsAbout a =
      ((a.row.kind == attestation) ≡ true)
      × ((a.row.subject == some subject) ≡ true)
      × Memᴰ a entries

  accept-IsFair :
      (a : Entry) (t : Tally)
      → Meets a
      → leb policy.max_per_issuer (contributed a.row.issuer t.contributions) ≡ false
      → IsFair t
      → IsFair (record {
        accepted = a ∷ t.accepted;
        contributions = contribute a.row.issuer t.contributions;
        revoked = t.revoked;
      })
  unfolding count_of
  accept-IsFair a t m room s = record {
    counted = λ i. elim (Bool-cases (a.row.issuer == i)) [
      | inl same ↦ rw same (
          subst
            (λ x.
              suc (count_of x t.accepted) ≡ contributed x (contribute a.row.issuer t.contributions))
            ((text_eq_iff a.row.issuer i).0 same)
            (ap suc (s.counted a.row.issuer)
              ∙ sym (contributed-contribute a.row.issuer t.contributions)))
      | inr other ↦
          rw other (s.counted i ∙ sym (contributed-other a.row.issuer i t.contributions other))
    ];
    limited = λ i. elim (Bool-cases (a.row.issuer == i)) [
      | inl same ↦
          subst
            (λ x. contributed x (contribute a.row.issuer t.contributions) ≤ policy.max_per_issuer)
            ((text_eq_iff a.row.issuer i).0 same)
            (one_more room (contributed-contribute a.row.issuer t.contributions))
      | inr other ↦
          subst (λ n. n ≤ policy.max_per_issuer)
            (sym (contributed-other a.row.issuer i t.contributions other)) (s.limited i)
    ];
    meets = (m, s.meets);
  }
    where
      one_more :
          {n k : ℕ} → leb policy.max_per_issuer n ≡ false → k ≡ suc n → k ≤ policy.max_per_issuer
      one_more h e = ground arith

  qualifies-Meets :
      (a : Entry)
      → IsAbout a
      → is_revoked entries a ≡ false
      → qualifies policy subject as_of events a ≡ true
      → Meets a
  unfolding qualifies IsAbout
  qualifies-Meets a about standing h =
      let (both, linked) = and_parts (is_trusted policy subject a && in_age policy as_of a) _ h in
      let (trusted, aged) = and_parts (is_trusted policy subject a) _ both in
      record {
        stored = about.2;
        attests = about.0;
        about = about.1;
        standing = standing;
        trusted = trusted;
        aged = aged;
        linked = linked;
      }

  consider-IsFair :
      (a : Entry) (t : Tally)
      → IsAbout a
      → IsFair t
      → IsFair (consider policy subject as_of events entries a t)
  unfolding consider
  consider-IsFair a t about s = elim (Bool-cases (is_revoked entries a)) [
    | inl revoked ↦
        rw revoked (record { counted = s.counted; limited = s.limited; meets = s.meets })
    | inr standing ↦ elim (Bool-cases (qualifies policy subject as_of events a)) [
      | inr unfit ↦ rw standing rw unfit s
      | inl fit ↦
          elim (Bool-cases (leb policy.max_per_issuer (contributed a.row.issuer t.contributions))) [
            | inl full ↦ rw standing rw fit rw full s
            | inr room ↦
                rw standing rw fit rw room
                  (accept-IsFair a t (qualifies-Meets a about standing fit) room s)
          ]
    ]
  ]

  pub consider_all-IsFair :
      (es : List Entry) (t : Tally)
      → All IsAbout es
      → IsFair t
      → IsFair (consider_all policy subject as_of events entries es t)
  unfolding consider_all
  consider_all-IsFair [] t about s = s
  consider_all-IsFair (a ∷ es) t about s =
      consider_all-IsFair es (consider policy subject as_of events entries a t) about.1
        (consider-IsFair a t about.0 s)

  insert_newest-IsAbout :
      (a : Entry) (es : List Entry) → IsAbout a → All IsAbout es → All IsAbout (insert_newest a es)
  unfolding insert_newest
  insert_newest-IsAbout a [] h hs = (h, tt)
  insert_newest-IsAbout a (b ∷ bs) h hs = elim (Bool-cases (comes_before b a)) [
    | inl later ↦ rw later (hs.0, insert_newest-IsAbout a bs h hs.1)
    | inr sooner ↦ rw sooner (h, hs)
  ]

  pub newest_first-IsAbout : (es : List Entry) → All IsAbout es → All IsAbout (newest_first es)
  unfolding newest_first
  newest_first-IsAbout [] h = tt
  newest_first-IsAbout (a ∷ es) h =
      insert_newest-IsAbout a (newest_first es) h.0 (newest_first-IsAbout es h.1)

  pub attestations_of-IsAbout :
      (es : List Entry) → All (λ a. Memᴰ a entries) es → All IsAbout (attestations_of subject es)
  unfolding attestations_of IsAbout
  attestations_of-IsAbout [] h = tt
  attestations_of-IsAbout (a ∷ es) h =
      elim (Bool-cases (a.row.kind == attestation && a.row.subject == some subject)) [
        | inl e ↦
            let (kind, about) = and_parts (a.row.kind == attestation) _ e in
            rw e ((kind, about, h.0), attestations_of-IsAbout es h.1)
        | inr e ↦ rw e (attestations_of-IsAbout es h.1)
      ]

  pub no_contribution-IsFair : IsFair (record { accepted = []; contributions = []; revoked = 0 })
  unfolding contributed count_of
  no_contribution-IsFair = record { counted = λ i. refl; limited = λ i. ground arith; meets = tt }
