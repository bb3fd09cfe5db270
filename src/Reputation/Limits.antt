-- ===== src/Reputation/Limits.antt =====
-- Uniqueness and the capacity of the evidence store, under calls in any order.
use myt_machine.Base.{
  ℕ, ◌+◌, ◌≤◌, ◌≡◌, ap, subst, Bool, true, false, List, [], ◌∷◌, Text, ◌==◌, Text_eq, inl, inr,
  Bool-cases, Option-cases, length, any, ltb, arith, if◌then◌else◌,
}
use myt_machine.Errors.{
  input_error, reputation_storage_error, Result, ok, err, ok-injective, on_ok, require,
  require-eq-ok,
}
use myt_machine.Json.{Value}
use myt_machine.Payment.{Platform}
use myt_machine.Identity.{Crypto}
use myt_machine.Reputation.{ReputationArtifact}
use myt_machine.Reputation.Evidence.{ArtifactRow, SettlementRow, Entry}
use myt_machine.Reputation.Store.{
  Moment, Db, artifacts_clash, settlements_clash, insert_artifact, insert_settlement, imported,
  size, read_all, find_entry, attributed, is_authorized, insert_new, import_body, check_import,
  import_artifact, add_settlement, record_body, check_settlement, record_settlement,
}
use myt_machine.Reputation.Transactions.{
  refused_call, transaction-keeps, checked-keeps, read_all-size,
}

-- A call that can write. The other methods only read a snapshot.
pub data Call : Type 0 where
  import_call : Moment → ReputationArtifact → Text → Call
  record_call : Moment → Value → Call

-- No row clashes with a row after it.
unfoldable pub Distinct : {A : Type 0} → (A → A → Bool) → List A → Type 0
Distinct clash [] = Unit
Distinct clash (x ∷ xs) = (any (clash x) xs ≡ false) × Distinct clash xs

-- Within the capacity, with the constraints of both tables.
pub record IsConsistent (capacity : ℕ) (db : Db) : Type 0 where
  pub within : size db ≤ capacity
  pub artifacts : Distinct artifacts_clash db.artifacts
  pub settlements : Distinct settlements_clash db.settlements

module _ (p : Platform) (c : Crypto) (capacity : ℕ) where
  insert_artifact-IsConsistent :
      (row : ArtifactRow) (db db' : Db)
      → ltb (size db) capacity ≡ true
      → insert_artifact row db ≡ ok db'
      → IsConsistent capacity db
      → IsConsistent capacity db'
  unfolding insert_artifact Distinct
  insert_artifact-IsConsistent row db db' room h s =
      elim (Bool-cases (any (artifacts_clash row) db.artifacts)) [
        | inl clash ↦ absurd (refused_call (rw clash at h))
        | inr free ↦ subst (IsConsistent capacity) (ok-injective (rw free at h)) (record {
          within = ground arith;
          artifacts = (free, s.artifacts);
          settlements = s.settlements;
        })
      ]

  insert_settlement-IsConsistent :
      (row : SettlementRow) (db db' : Db)
      → ltb (size db) capacity ≡ true
      → insert_settlement row db ≡ ok db'
      → IsConsistent capacity db
      → IsConsistent capacity db'
  unfolding insert_settlement Distinct
  insert_settlement-IsConsistent row db db' room h s =
      elim (Bool-cases (any (settlements_clash row) db.settlements)) [
        | inl clash ↦ absurd (refused_call (rw clash at h))
        | inr free ↦ subst (IsConsistent capacity) (ok-injective (rw free at h)) (record {
          within = ground arith;
          artifacts = s.artifacts;
          settlements = (free, s.settlements);
        })
      ]

  insert_new-IsConsistent :
      (e : Entry) (network : Text) (r : List Entry × List SettlementRow) (db : Db) (b : Bool)
      (db' : Db)
      → length r.0 + length r.1 ≡ size db
      → insert_new p c capacity e network r db ≡ ok (b, db')
      → IsConsistent capacity db
      → IsConsistent capacity db'
  insert_new-IsConsistent e network r db b db' n h s =
      on_ok (require (is_authorized e network r.0) input_error) _ h λ u e1 h1.
        on_ok (require (ltb (length r.0 + length r.1) capacity) reputation_storage_error) _ h1
          λ u' e2 h2. on_ok (insert_artifact (imported e network) db) _ h2 λ new e3 h3.
            subst (IsConsistent capacity) (ap (λ x. x.1) (ok-injective h3)) (
              insert_artifact-IsConsistent (imported e network) db new
                (subst (λ k. ltb k capacity ≡ true) n (require-eq-ok _ _ e2)) e3 s)

  import_body-IsConsistent :
      (e : Entry) (network : Text) (db : Db) (b : Bool) (db' : Db)
      → import_body p c capacity e network db ≡ ok (b, db')
      → IsConsistent capacity db
      → IsConsistent capacity db'
  unfolding import_body
  import_body-IsConsistent e network db b db' h s = on_ok (read_all p c capacity db) _ h λ r e1 h1.
      elim (Option-cases (find_entry e.row.id r.0)) [
        | inl unknown ↦
            insert_new-IsConsistent e network r db b db' (read_all-size p c capacity db r e1)
              (rw unknown at h1) s
        | inr (stored, known) ↦ subst (IsConsistent capacity) (unchanged stored (rw known at h1)) s
      ]
    where
      unchanged :
          (stored : Entry)
          → ◌≡◌ {A = Result (Bool × Db)}
              (if stored.row.artifact == e.row.artifact then ok (false, db) else err input_error)
              (ok (b, db'))
          → db ≡ db'
      unchanged stored k = elim (Bool-cases (stored.row.artifact == e.row.artifact)) [
        | inl same ↦ ap (λ x. x.1) (ok-injective (rw same at k))
        | inr other ↦ absurd (refused_call (rw other at k))
      ]

  add_settlement-IsConsistent :
      (new : SettlementRow) (r : List Entry × List SettlementRow) (db : Db) (a : Text × Bool)
      (db' : Db)
      → length r.0 + length r.1 ≡ size db
      → add_settlement p c capacity new r db ≡ ok (a, db')
      → IsConsistent capacity db
      → IsConsistent capacity db'
  add_settlement-IsConsistent new r db a db' n h s =
      on_ok (require (ltb (length r.0 + length r.1) capacity) reputation_storage_error) _ h
        λ u e2 h2. on_ok (insert_settlement new db) _ h2 λ next e3 h3.
          subst (IsConsistent capacity) (ap (λ x. x.1) (ok-injective h3)) (
            insert_settlement-IsConsistent new db next
              (subst (λ k. ltb k capacity ≡ true) n (require-eq-ok _ _ e2)) e3 s)

  record_body-IsConsistent :
      (new : SettlementRow) (db : Db) (a : Text × Bool) (db' : Db)
      → record_body p c capacity new db ≡ ok (a, db')
      → IsConsistent capacity db
      → IsConsistent capacity db'
  unfolding record_body
  record_body-IsConsistent new db a db' h s = on_ok (read_all p c capacity db) _ h λ r e1 h1.
      elim (Option-cases (attributed new r.1)) [
        | inl unknown ↦
            add_settlement-IsConsistent new r db a db' (read_all-size p c capacity db r e1)
              (rw unknown at h1) s
        | inr (true, known) ↦
            subst (IsConsistent capacity) (ap (λ x. x.1) (ok-injective (rw known at h1))) s
        | inr (false, known) ↦ absurd (refused_call (rw known at h1))
      ]

  -- The tables after a call, whether it returns or raises.
  unfoldable pub run_call : Call → Db → Db
  run_call (import_call m a network) db = (import_artifact p c capacity m a network db).1
  run_call (record_call m value) db = (record_settlement p c capacity m value db).1

  unfoldable pub run_calls : List Call → Db → Db
  run_calls [] db = db
  run_calls (call ∷ calls) db = run_calls calls (run_call call db)

  run_call-IsConsistent :
      (call : Call) (db : Db) → IsConsistent capacity db → IsConsistent capacity (run_call call db)
  unfolding run_call import_artifact record_settlement
  run_call-IsConsistent (import_call m a network) db s =
      checked-keeps (IsConsistent capacity) (check_import p c capacity a network) _ db
        (λ e.
          transaction-keeps (IsConsistent capacity) m (import_body p c capacity e network) db
            (λ b db' h. import_body-IsConsistent e network db b db' h s) s)
        s
  run_call-IsConsistent (record_call m value) db s =
      checked-keeps (IsConsistent capacity) (check_settlement p c capacity value) _ db
        (λ new.
          transaction-keeps (IsConsistent capacity) m (record_body p c capacity new) db
            (λ a db' h. record_body-IsConsistent new db a db' h s) s)
        s

  -- From consistent tables, any imports and recordings, in any order and whether they return or raise,
  -- leave consistent tables: no more rows than the capacity, no two artifacts with one ID or digest,
  -- no two settlements with one digest, and no transaction and no request that is attributed twice
  -- on one network.
  pub run_calls-IsConsistent :
      (calls : List Call) (db : Db)
      → IsConsistent capacity db
      → IsConsistent capacity (run_calls calls db)
  unfolding run_calls
  run_calls-IsConsistent [] db s = s
  run_calls-IsConsistent (call ∷ calls) db s =
      run_calls-IsConsistent calls (run_call call db) (run_call-IsConsistent call db s)
