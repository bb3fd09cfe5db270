-- ===== src/Reputation/Policy.antt =====
-- src/myt_machine/reputation_policy.py: local counts of the evidence, under a caller's policy.
use myt_machine.Base.{
  ℕ, suc, ◌+◌, Bool, false, not, ◌&&◌, ◌||◌, Option, none, some, List, [], ◌∷◌, Text, ◌==◌, ℕ_eq,
  Text_eq, option_text_eq, leb, ltb, length, any, if◌then◌else◌,
}
use myt_machine.Base.Int.{pos}
use myt_machine.Base.Strings.{codes, text_lt}
use myt_machine.Errors.{input_error, Result, ok, err, ◌>>=◌, ◌>>◌, require}
use myt_machine.Json.{Value, get, equals_text}
use myt_machine.Payment.{Platform, max_timestamp, bounded_int, unix_time, validate_network}
use myt_machine.Identity.{Crypto, machine_id_digest}
use myt_machine.Reputation.{attestation, revocation}
use myt_machine.Reputation.Evidence.{SettlementRow, Entry, order_by}
use myt_machine.Reputation.Store.{Moment, Db, snapshot}

-- `ReputationPolicy` as it is constructed, where `none` is no tuple.
pub record ReputationPolicy : Type 0 where
  pub trusted_issuers : Option (List Value)
  pub max_per_issuer : Value
  pub min_age : Value
  pub max_age : Value
  pub require_settlement : Value

-- Its values when they have passed `__post_init__`.
pub record Criteria : Type 0 where
  pub trusted_issuers : List Text
  pub max_per_issuer : ℕ
  pub min_age : ℕ
  pub max_age : ℕ
  pub require_settlement : Bool

unfoldable pub has_duplicate : List Text → Bool
has_duplicate [] = false
has_duplicate (s ∷ ss) = any (λ t. t == s) ss || has_duplicate ss

unfoldable pub flag : Value → Result Bool
flag (Value.bool b) = ok b
flag _ = err input_error

-- `a.statement["issued_at"]`, which is an integer of at least 0 in what was validated.
unfoldable pub issued_at : Entry → ℕ
issued_at e = elim (get "issued_at" e.statement) [ Value.int (pos n) ↦ n | _ ↦ 0 ]

-- What the loop of `reputation_summary` keeps; the accepted attestations are the last one first.
pub record Tally : Type 0 where
  pub accepted : List Entry
  pub contributions : List (Text × ℕ)
  pub revoked : ℕ

-- `contributions.get(issuer, 0)`
unfoldable pub contributed : Text → List (Text × ℕ) → ℕ
contributed issuer [] = 0
contributed issuer ((i, n) ∷ rest) =
    let later = contributed issuer rest in if i == issuer then n else later

-- `contributions[issuer] = contributions.get(issuer, 0) + 1`
unfoldable pub contribute : Text → List (Text × ℕ) → List (Text × ℕ)
contribute issuer [] = (issuer, 1) ∷ []
contribute issuer ((i, n) ∷ rest) =
    let later = contribute issuer rest in if i == issuer then (i, suc n) ∷ rest else (i, n) ∷ later

-- `(a.id, a.issuer_machine_id) in revocations`
unfoldable pub is_revoked : List Entry → Entry → Bool
is_revoked entries a =
    any
      (λ r.
        r.row.kind == revocation
        && equals_text (get "attestation_id" r.statement) a.row.id
        && r.row.issuer == a.row.issuer)
      entries

-- `min_age <= as_of - issued_at <= max_age`, with both sides moved so that nothing is negative.
unfoldable pub in_age : Criteria → ℕ → Entry → Bool
in_age policy as_of a =
    leb (policy.min_age + issued_at a) as_of && leb as_of (policy.max_age + issued_at a)

unfoldable pub is_linked : Criteria → List SettlementRow → Entry → Bool
is_linked policy events a =
    not policy.require_settlement
    || any (λ s. equals_text (get "evidence_digest" a.statement) s.digest) events

unfoldable pub is_trusted : Criteria → Text → Entry → Bool
is_trusted policy subject a =
    not (a.row.issuer == subject) && any (λ t. t == a.row.issuer) policy.trusted_issuers

-- Whether nothing but the limit per issuer keeps an attestation out.
unfoldable pub qualifies : Criteria → Text → ℕ → List SettlementRow → Entry → Bool
qualifies policy subject as_of events a =
    is_trusted policy subject a && in_age policy as_of a && is_linked policy events a

-- The order of the loop: the newest first, then by ID.
unfoldable pub comes_before : Entry → Entry → Bool
comes_before a b =
    ltb (issued_at b) (issued_at a) || issued_at a == issued_at b && text_lt a.row.id b.row.id

unfoldable pub insert_newest : Entry → List Entry → List Entry
insert_newest a [] = a ∷ []
insert_newest a (b ∷ bs) =
    let rest = insert_newest a bs in if comes_before b a then b ∷ rest else a ∷ b ∷ bs

unfoldable pub newest_first : List Entry → List Entry
newest_first [] = []
newest_first (a ∷ rest) = insert_newest a (newest_first rest)

unfoldable pub attestations_of : Text → List Entry → List Entry
attestations_of subject [] = []
attestations_of subject (a ∷ es) =
    let rest = attestations_of subject es in
    if a.row.kind == attestation && a.row.subject == some subject then a ∷ rest else rest

unfoldable pub settlements_of : Text → List SettlementRow → List SettlementRow
settlements_of subject [] = []
settlements_of subject (s ∷ ss) =
    let rest = settlements_of subject ss in if s.subject == subject then s ∷ rest else rest

-- `sum(a.statement["outcome"] == outcome for a in accepted)`
unfoldable pub count_outcome : Text → List Entry → ℕ
count_outcome outcome [] = 0
count_outcome outcome (a ∷ es) =
    let rest = count_outcome outcome es in
    if equals_text (get "outcome" a.statement) outcome then suc rest else rest

-- `min(times) if times else None`, and `max`.
unfoldable pub oldest : List Entry → Option ℕ
oldest [] = none
oldest (a ∷ es) = elim (oldest es) [
  | none ↦ some (issued_at a)
  | some n ↦ some (if ltb (issued_at a) n then issued_at a else n)
]

unfoldable pub newest : List Entry → Option ℕ
newest [] = none
newest (a ∷ es) = elim (newest es) [
  | none ↦ some (issued_at a)
  | some n ↦ some (if ltb n (issued_at a) then issued_at a else n)
]

-- The dictionary that `reputation_summary` returns. `policy` has its issuers in order.
pub record Summary : Type 0 where
  pub subject_machine_id : Text
  pub network : Text
  pub verified_recipient_settlement_events : ℕ
  pub cryptographically_valid_attestations : ℕ
  pub revoked_attestations : ℕ
  pub policy : Criteria
  pub as_of : ℕ
  pub accepted_attestations : ℕ
  pub unique_machine_identity_issuers : ℕ
  pub positive : ℕ
  pub neutral : ℕ
  pub negative : ℕ
  pub oldest_accepted_issuer_claimed_time : Option ℕ
  pub newest_accepted_issuer_claimed_time : Option ℕ

-- One round of the loop.
unfoldable pub consider :
    Criteria → Text → ℕ → List SettlementRow → List Entry → Entry → Tally → Tally
consider policy subject as_of events entries a t =
    if is_revoked entries a
    then record { accepted = t.accepted; contributions = t.contributions; revoked = suc t.revoked }
    else if not (qualifies policy subject as_of events a)
    then t
    else if leb policy.max_per_issuer (contributed a.row.issuer t.contributions)
    then t
    else record {
      accepted = a ∷ t.accepted;
      contributions = contribute a.row.issuer t.contributions;
      revoked = t.revoked;
    }

unfoldable pub consider_all :
    Criteria → Text → ℕ → List SettlementRow → List Entry → List Entry → Tally → Tally
consider_all policy subject as_of events entries [] t = t
consider_all policy subject as_of events entries (a ∷ rest) t =
    consider_all policy subject as_of events entries rest
      (consider policy subject as_of events entries a t)

-- The loop over the attestations of the subject.
unfoldable pub tally : Criteria → Text → ℕ → List Entry × List SettlementRow → Tally
tally policy subject as_of r =
    consider_all policy subject as_of (settlements_of subject r.1) r.0
      (newest_first (attestations_of subject r.0))
      (record { accepted = []; contributions = []; revoked = 0 })

-- `policy.as_dict()`
unfoldable pub shown : Criteria → Criteria
shown policy = record {
  trusted_issuers = order_by (λ t. t) policy.trusted_issuers;
  max_per_issuer = policy.max_per_issuer;
  min_age = policy.min_age;
  max_age = policy.max_age;
  require_settlement = policy.require_settlement;
}

unfoldable pub summarize : Criteria → Text → Text → ℕ → List Entry × List SettlementRow → Summary
summarize policy subject network as_of r =
    let t = tally policy subject as_of r in
    record {
      subject_machine_id = subject;
      network = network;
      verified_recipient_settlement_events = length (settlements_of subject r.1);
      cryptographically_valid_attestations = length (attestations_of subject r.0);
      revoked_attestations = t.revoked;
      policy = shown policy;
      as_of = as_of;
      accepted_attestations = length t.accepted;
      unique_machine_identity_issuers = length t.contributions;
      positive = count_outcome (codes "POSITIVE") t.accepted;
      neutral = count_outcome (codes "NEUTRAL") t.accepted;
      negative = count_outcome (codes "NEGATIVE") t.accepted;
      oldest_accepted_issuer_claimed_time = oldest t.accepted;
      newest_accepted_issuer_claimed_time = newest t.accepted;
    }

module _ (c : Crypto) where
  -- A value that is a Machine ID, as its text.
  unfoldable pub machine_id_of : Value → Result Text
  machine_id_of (Value.str s) = do machine_id_digest c (Value.str s); ok s
  machine_id_of v = do machine_id_digest c v; err input_error

  unfoldable pub machine_ids : List Value → Result (List Text)
  machine_ids [] = ok []
  machine_ids (v ∷ vs) = do s ← machine_id_of v; ss ← machine_ids vs; ok (s ∷ ss)

  unfoldable pub trusted_of : Option (List Value) → Result (List Text)
  trusted_of none = err input_error
  trusted_of (some vs) = do
    require (leb (length vs) 1000) input_error
    ids ← machine_ids vs
    require (not (has_duplicate ids)) input_error
    ok ids

  -- `__post_init__`
  unfoldable pub post_init : ReputationPolicy → Result Criteria
  post_init policy = do
    trusted ← trusted_of policy.trusted_issuers
    limit ← bounded_int policy.max_per_issuer 1 100
    youngest ← bounded_int policy.min_age 0 max_timestamp
    eldest ← bounded_int policy.max_age youngest max_timestamp
    linked ← flag policy.require_settlement
    ok (record {
      trusted_issuers = trusted;
      max_per_issuer = limit;
      min_age = youngest;
      max_age = eldest;
      require_settlement = linked;
    })

  -- The arguments of `reputation_summary`, checked in its order; `as_of` is always given, not `None`.
  unfoldable pub check_summary :
      Value → Value → ReputationPolicy → Value → Result (Text × Text × Criteria × ℕ)
  check_summary subject network policy as_of = do
    s ← machine_id_of subject
    n ← validate_network network
    criteria ← post_init policy
    now ← unix_time Value.null (some as_of)
    ok (s, n, criteria, now)

unfoldable pub reputation_summary :
    Platform
    → Crypto
    → ℕ
    → Moment
    → Value
    → Value
    → ReputationPolicy
    → Value
    → Db
    → Result Summary × Db
reputation_summary p c capacity m subject network policy as_of db =
    elim (check_summary c subject network policy as_of) [
      | err e ↦ (err e, db)
      | ok (s, n, criteria, now) ↦
          let answer = snapshot p c capacity m network db in
          (do r ← answer.0; ok (summarize criteria s n now r), answer.1)
    ]
