-- ===== src/Reputation/Fair.antt =====
-- What the counts of a policy are of: which attestations are accepted, and how many of each issuer.
use myt_machine.Base.{
  ℕ, ◌*◌, ◌≤◌, ◌≡◌, refl, sym, ap, subst, true, not, List, [], ◌∷◌, Text, ◌==◌, Text_eq,
  option_text_eq, and_parts, All, inl, inr, length, any, arith,
}
use mathlib.Core.List.{Memᴰ}
use myt_machine.Base.Strings.{codes}
use myt_machine.Errors.{Result, ok, err, ok-injective, Result-cases, ◌>>=◌}
use myt_machine.Json.{Value}
use myt_machine.Payment.{Platform}
use myt_machine.Identity.{Crypto}
use myt_machine.Reputation.Evidence.{SettlementRow, Entry}
use myt_machine.Reputation.Store.{Moment, Db, snapshot}
use myt_machine.Reputation.Policy.{
  ReputationPolicy, Criteria, Summary, is_trusted, newest_first, attestations_of, settlements_of,
  count_outcome, tally, summarize, check_summary, reputation_summary,
}
use myt_machine.Reputation.Counts.{count_of, length-total, total-limit}
use myt_machine.Reputation.Loop.{
  Meets, consider_all-IsFair, newest_first-IsAbout, attestations_of-IsAbout, no_contribution-IsFair,
}

mem_later :
    (a : Entry) (es all : List Entry) → All (λ x. Memᴰ x all) es → All (λ x. Memᴰ x (a ∷ all)) es
mem_later a [] all h = tt
mem_later a (e ∷ es) all h = (Memᴰ.tail h.0, mem_later a es all h.1)

-- Every entry is one of the entries.
All-Mem : (es : List Entry) → All (λ x. Memᴰ x es) es
All-Mem [] = tt
All-Mem (e ∷ es) = (Memᴰ.head refl, mem_later e es es (All-Mem es))

trusted-any :
    (policy : Criteria) (subject : Text) (as_of : ℕ) (events : List SettlementRow)
    (entries es : List Entry)
    → All (Meets policy subject as_of events entries) es
    → All (λ a. any (λ t. t == a.row.issuer) policy.trusted_issuers ≡ true) es
unfolding is_trusted
trusted-any policy subject as_of events entries [] h = tt
trusted-any policy subject as_of events entries (a ∷ es) h = (
  (and_parts (not (a.row.issuer == subject)) _ h.0.trusted).1,
  trusted-any policy subject as_of events entries es h.1,
)

-- What the loop accepts of these entries and events.
abbrev pub accepted_of : Criteria → Text → ℕ → List Entry → List SettlementRow → List Entry
accepted_of policy subject as_of entries events =
    (tally policy subject as_of (entries, events)).accepted

-- A summary of these entries and events: it counts the attestations that the loop accepts, which are
-- all acceptable entries; no issuer has more than the limit, and all together have no more than the
-- limit for every trusted issuer.
pub record IsSummary (policy : Criteria) (subject : Text) (as_of : ℕ) (entries : List Entry)
    (events : List SettlementRow) (s : Summary) : Type 0 where
  pub number : s.accepted_attestations ≡ length (accepted_of policy subject as_of entries events)
  pub positive_are :
      s.positive
      ≡ count_outcome (codes "POSITIVE") (accepted_of policy subject as_of entries events)
  pub neutral_are :
      s.neutral ≡ count_outcome (codes "NEUTRAL") (accepted_of policy subject as_of entries events)
  pub negative_are :
      s.negative
      ≡ count_outcome (codes "NEGATIVE") (accepted_of policy subject as_of entries events)
  pub meets :
      All
        (Meets policy subject as_of (settlements_of subject events) entries)
        (accepted_of policy subject as_of entries events)
  pub limited :
      (issuer : Text)
      → count_of issuer (accepted_of policy subject as_of entries events) ≤ policy.max_per_issuer
  pub bounded : s.accepted_attestations ≤ length policy.trusted_issuers * policy.max_per_issuer

summarize-IsSummary :
    (policy : Criteria) (subject network : Text) (as_of : ℕ) (entries : List Entry)
    (events : List SettlementRow)
    → IsSummary policy subject as_of entries events
        (summarize policy subject network as_of (entries, events))
unfolding summarize tally
summarize-IsSummary policy subject network as_of entries events =
    let chosen = settlements_of subject events in
    let t = tally policy subject as_of (entries, events) in
    let fair =
      consider_all-IsFair policy subject as_of chosen entries
        (newest_first (attestations_of subject entries)) _
        (newest_first-IsAbout policy subject as_of chosen entries (attestations_of subject entries)
          (attestations_of-IsAbout policy subject as_of chosen entries entries (All-Mem entries)))
        (no_contribution-IsFair policy subject as_of chosen entries) in
    let limited : (i : Text) → count_of i t.accepted ≤ policy.max_per_issuer =
      λ i. subst (λ n. n ≤ policy.max_per_issuer) (sym (fair.counted i)) (fair.limited i) in
    let few =
      length-total policy.trusted_issuers t.accepted
        (trusted-any policy subject as_of chosen entries t.accepted fair.meets) in
    let small = total-limit policy.trusted_issuers t.accepted policy.max_per_issuer limited in
    record {
      number = refl;
      positive_are = refl;
      neutral_are = refl;
      negative_are = refl;
      meets = fair.meets;
      limited = limited;
      bounded = omega (arith, few, small);
    }

-- What a method that only reads a snapshot returns was made of that snapshot.
of_answer :
    {A B : Type 0} (answer : Result A × Db) (f : A → B) (b : B) (db' : Db)
    → ◌≡◌ {A = Result B × Db} (answer.0 >>= (λ r. ok (f r)), answer.1) (ok b, db')
    → (r : A) × (answer ≡ (ok r, db')) × (f r ≡ b)
of_answer (ok r, db) f b db' h =
    (r, ap (λ x. (ok r, x)) (ap (λ x. x.1) h), ok-injective (ap (λ x. x.0) h))
of_answer {B = B} (err e, db) f b db' h = absurd (refused (ap (λ x. x.0) h))
  where
    refused : ◌≡◌ {A = Result B} (err e) (ok b) → ⊥
    refused k = ground arith

-- A summary that is returned counts the attestations, in all and by outcome, that the loop accepts of
-- the store's snapshot. Each one is an entry of the snapshot, is about the subject, was not revoked by
-- its issuer in the snapshot, is of a trusted issuer who is not the subject, has an age within the
-- policy's bounds, and names a settlement of the subject where the policy requires one; no issuer
-- counts more often than the policy's limit, so that the accepted attestations are at most the limit
-- times the number of trusted issuers, whatever the number of attestations.
pub reputation_summary-IsSummary :
    (p : Platform) (c : Crypto) (capacity : ℕ) (m : Moment) (subject network : Value)
    (policy : ReputationPolicy) (as_of : Value) (db db' : Db) (s : Summary)
    → reputation_summary p c capacity m subject network policy as_of db ≡ (ok s, db')
    → (id n : Text) × (criteria : Criteria) × (now : ℕ) × (entries : List Entry) × (events : List
        SettlementRow)
      × (check_summary c subject network policy as_of ≡ ok (id, n, criteria, now))
      × (snapshot p c capacity m network db ≡ (ok (entries, events), db'))
      × IsSummary criteria id now entries events s
unfolding reputation_summary
reputation_summary-IsSummary p c capacity m subject network policy as_of db db' s h =
    elim (Result-cases (check_summary c subject network policy as_of)) [
      | inr (e, refused) ↦ absurd (ground arith)
      | inl ((id, n, criteria, now), checked) ↦
          let ((entries, events), read, made) =
            of_answer (snapshot p c capacity m network db) (summarize criteria id n now) s db'
              (rw (checked, reputation_summary) at h) in
          (
            id,
            n,
            criteria,
            now,
            entries,
            events,
            checked,
            read,
            subst (IsSummary criteria id now entries events) made
                (summarize-IsSummary criteria id n now entries events),
          )
    ]
