-- ===== src/Reputation/Reads.antt =====
-- What the evidence store returns: artifacts that were verified again when they were read.
use myt_machine.Base.{
  ℕ, ◌≡◌, refl, sym, ap, ◌∙◌, subst, none, List, [], ◌∷◌, Text, ◌==◌, Text_eq, text_eq_iff, All,
  inl, inr, Bool-cases, leb, arith,
}
use myt_machine.Errors.{
  input_error, reputation_storage_error, is_input_error, Result, ok, err, ok-injective, on_ok,
  require, require-eq-ok,
}
use myt_machine.Json.{Value}
use myt_machine.Payment.{Platform, text, validate_network}
use myt_machine.Identity.{Crypto}
use myt_machine.Reputation.{Kind, ReputationArtifact, parse_reputation_artifact, verify}
use myt_machine.Reputation.Accepted.{IsArtifact, IsSigned, verify-IsSigned}
use myt_machine.Reputation.Evidence.{
  ArtifactRow, SettlementRow, Entry, order_by, same_artifact, as_corrupt, columns, decode,
  decode_artifacts, decode_settlements,
}
use myt_machine.Reputation.Store.{
  Moment, Db, size, on_network, read_all, snapshot_body, snapshot, checked, transaction,
}
use myt_machine.Reputation.Transactions.{transaction-cases}

as_corrupt-eq-ok : {A : Type 0} (m : Result A) (a : A) → as_corrupt m ≡ ok a → m ≡ ok a
unfolding as_corrupt
as_corrupt-eq-ok (ok b) a h = h
as_corrupt-eq-ok (err e) a h = elim (Bool-cases (is_input_error e)) [
  | inl refused ↦ absurd (ground arith)
  | inr passed ↦ absurd (ground arith)
]

-- The entry is of an artifact that is well formed and signed by its issuer.
pub record IsAuthentic (p : Platform) (c : Crypto) (e : Entry) : Type 0 where
  pub artifact : ReputationArtifact
  pub kind : Kind
  pub read : columns p c artifact ≡ ok e
  pub valid : IsArtifact p c kind artifact.document
  pub signed : IsSigned p c kind artifact.document none none

module _ (p : Platform) (c : Crypto) where
  decode-IsAuthentic : (row : ArtifactRow) (e : Entry) → decode p c row ≡ ok e → IsAuthentic p c e
  unfolding decode
  decode-IsAuthentic row e h =
      on_ok (parse_reputation_artifact p c (text row.artifact)) _ (as_corrupt-eq-ok _ e h)
        λ a e1 h1. on_ok (columns p c a) _ h1 λ expected e2 h2.
          on_ok (require (same_artifact row expected.row) input_error) _ h2 λ u e3 h3.
            on_ok (verify p c a none none) _ h3 λ good e4 h4.
              on_ok (require good input_error) _ h4 λ u' e5 h5.
                let (kind, valid, signed) =
                  verify-IsSigned p c a none none
                    (e4 ∙ ap ok (require-eq-ok good input_error e5)) in
                record { artifact = a; kind = kind; read = e2 ∙ h5; valid = valid; signed = signed }

  decode_artifacts-IsAuthentic :
      (rows : List ArtifactRow) (es : List Entry)
      → decode_artifacts p c rows ≡ ok es
      → All (IsAuthentic p c) es
  unfolding decode_artifacts
  decode_artifacts-IsAuthentic [] es h = subst (All (IsAuthentic p c)) (ok-injective h) tt
  decode_artifacts-IsAuthentic (row ∷ rows) es h = on_ok (decode p c row) _ h λ e e1 h1.
      on_ok (decode_artifacts p c rows) _ h1 λ rest e2 h2.
        subst (All (IsAuthentic p c)) (ok-injective h2)
          (decode-IsAuthentic row e e1, decode_artifacts-IsAuthentic rows rest e2)

  on_network-IsAuthentic :
      (n : Text) (es : List Entry)
      → All (IsAuthentic p c) es
      → All (λ e. IsAuthentic p c e × (e.row.network ≡ n)) (on_network n es)
  unfolding on_network
  on_network-IsAuthentic n [] a = tt
  on_network-IsAuthentic n (e ∷ es) a = elim (Bool-cases (e.row.network == n)) [
    | inl here ↦
        rw here ((a.0, (text_eq_iff e.row.network n).0 here), on_network-IsAuthentic n es a.1)
    | inr elsewhere ↦ rw elsewhere (on_network-IsAuthentic n es a.1)
  ]

  snapshot_body-IsAuthentic :
      (capacity : ℕ) (n : Text) (db db' : Db) (r : List Entry × List SettlementRow)
      → snapshot_body p c capacity n db ≡ ok (r, db')
      → All (λ e. IsAuthentic p c e × (e.row.network ≡ n)) r.0 × (db ≡ db')
  unfolding read_all
  snapshot_body-IsAuthentic capacity n db db' r h =
      on_ok (read_all p c capacity db) _ h λ all_of e1 h1.
        on_ok (require (leb (size db) capacity) reputation_storage_error) _ e1 λ u e2 h2.
          on_ok (decode_artifacts p c (order_by (λ r. r.id) db.artifacts)) _ h2 λ es e3 h3.
            on_ok (decode_settlements p c (order_by (λ r. r.digest) db.settlements)) _ h3
              λ ss e4 h4.
                let found = ap (λ x. x.0) (ok-injective h4) in
                let answer = ap (λ x. x.0.0) (ok-injective h1) in
                (
                  subst (All (λ e. IsAuthentic p c e × (e.row.network ≡ n)))
                      (ap (on_network n) found ∙ answer)
                      (on_network-IsAuthentic n es (decode_artifacts-IsAuthentic _ es e3)),
                  ap (λ x. x.1) (ok-injective h1),
                )

  answered :
      {A B : Type 0} (r : Result A) (method : A → Db → Result B × Db) (db db' : Db) (b : B)
      → checked r method db ≡ (ok b, db')
      → (a : A) × (r ≡ ok a) × (method a db ≡ (ok b, db'))
  answered (ok a) method db db' b h = (a, refl, h)
  answered (err e) method db db' b h = absurd (ground arith)

  returned :
      {A : Type 0} (m : Moment) (body : Db → Result (A × Db)) (db db' : Db) (a : A)
      → transaction m body db ≡ (ok a, db')
      → body db ≡ ok (a, db')
  returned {A = A} m body db db' a h = elim (transaction-cases m body db) [
    | inl (e, failed) ↦ absurd (ground arith)
    | inr (b, new, ran, done) ↦ ran ∙ ap ok (pair (sym done ∙ h))
  ]
    where
      pair :
          {b : A} {new : Db}
          → ◌≡◌ {A = Result A × Db} (ok b, new) (ok a, db')
          → ◌≡◌ {A = A × Db} (b, new) (a, db')
      pair k = ground arith

  -- Every artifact that `snapshot` returns was verified when it was read: it is well formed, with the
  -- ID of its content, its issuer's signature over that content verifies, and it is of the network
  -- that was asked for. The tables are as they were.
  pub snapshot-IsAuthentic :
      (capacity : ℕ) (m : Moment) (network : Value) (db db' : Db) (es : List Entry)
      (ss : List SettlementRow)
      → snapshot p c capacity m network db ≡ (ok (es, ss), db')
      → (n : Text) × (validate_network network ≡ ok n)
        × All (λ e. IsAuthentic p c e × (e.row.network ≡ n)) es
        × (db ≡ db')
  unfolding snapshot
  snapshot-IsAuthentic capacity m network db db' es ss h =
      let (n, named, ran) = answered (validate_network network) _ db db' (es, ss) h in
      let (good, same) =
        snapshot_body-IsAuthentic capacity n db db' (es, ss) (returned m _ db db' (es, ss) ran) in
      (n, named, good, same)
