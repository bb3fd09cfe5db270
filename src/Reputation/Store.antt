-- ===== src/Reputation/Store.antt =====
-- src/myt_machine/reputation_store.py: the operations of `ReputationStore` on the two tables. A
-- `Moment` is what one operation meets outside: the file, and whether SQLite begins and commits.
use myt_machine.Base.{
  ℕ, ◌+◌, Bool, true, false, not, ◌&&◌, ◌||◌, Option, none, some, List, [], ◌∷◌, Text, ◌==◌, ℕ_eq,
  Text_eq, option_text_eq, leb, ltb, length, any, take, if◌then◌else◌,
}
use myt_machine.Base.Strings.{text_lt}
use myt_machine.Errors.{
  input_error, configuration_error, reputation_storage_error, Result, ok, err, ◌>>=◌, ◌>>◌, require,
}
use myt_machine.Json.{Value, get, equals_text}
use myt_machine.Payment.{
  Platform, text, max_request_bytes, bounded_int, canonical_json, strict_json, validate_network,
}
use myt_machine.Identity.{Crypto, machine_id_digest}
use myt_machine.InvoiceStore.{FileStatus}
use myt_machine.Reputation.{
  ReputationArtifact, attestation, revocation, reputation_id, parse_reputation_artifact, verify,
}
use myt_machine.Reputation.Evidence.{
  ArtifactRow, SettlementRow, Entry, order_by, columns, settlement_columns, validate_settlement,
  decode_artifacts, decode_settlements,
}

pub record Moment : Type 0 where
  pub file : Option FileStatus
  pub is_windows : Bool
  pub begins : Bool
  pub commits : Bool

pub record Db : Type 0 where
  pub artifacts : List ArtifactRow
  pub settlements : List SettlementRow

unfoldable pub check_file : Moment → Result (Unit {0})
check_file m = elim m.file [
  | none ↦ err reputation_storage_error
  | some s ↦ do
    require (s.is_regular && s.links == 1) configuration_error
    require (m.is_windows || s.mode == 0o600) configuration_error
]

-- `_transaction`: what the body wrote is kept only if it does not raise and SQLite commits.
unfoldable pub transaction : {A : Type 0} → Moment → (Db → Result (A × Db)) → Db → Result A × Db
transaction m body db = elim (check_file m) [
  | err e ↦ (err e, db)
  | ok _ ↦ if not m.begins then (err reputation_storage_error, db) else elim (body db) [
    | err e ↦ (err e, db)
    | ok r ↦ if m.commits then (ok r.0, r.1) else (err reputation_storage_error, db)
  ]
]

-- What a method checks before it opens the transaction.
abbrev pub checked : {A B : Type 0} → Result A → (A → Db → Result B × Db) → Db → Result B × Db
checked (ok a) method db = method a db
checked (err e) method db = (err e, db)

-- Two rows that one table cannot hold: `id` is its primary key and `digest` is unique.
unfoldable pub artifacts_clash : ArtifactRow → ArtifactRow → Bool
artifacts_clash r t = r.id == t.id || r.digest == t.digest

-- `digest` is the primary key; `(network, transaction_digest)` and `(network, request_digest)` are unique.
unfoldable pub settlements_clash : SettlementRow → SettlementRow → Bool
settlements_clash r t =
    r.digest == t.digest
    || r.network == t.network
      && (r.transaction_digest == t.transaction_digest || r.request_digest == t.request_digest)

unfoldable pub insert_artifact : ArtifactRow → Db → Result Db
insert_artifact row db =
    if any (artifacts_clash row) db.artifacts
    then err reputation_storage_error
    else ok (record { artifacts = row ∷ db.artifacts; settlements = db.settlements })

unfoldable pub insert_settlement : SettlementRow → Db → Result Db
insert_settlement row db =
    if any (settlements_clash row) db.settlements
    then err reputation_storage_error
    else ok (record { artifacts = db.artifacts; settlements = row ∷ db.settlements })

-- `next((a for a in artifacts if a.id == id), None)`
unfoldable pub find_entry : Text → List Entry → Option Entry
find_entry id [] = none
find_entry id (e ∷ es) = if e.row.id == id then some e else find_entry id es

-- The first settlement that ends the loop of `_record_settlement`: `true` if it is the same one.
unfoldable pub attributed : SettlementRow → List SettlementRow → Option Bool
attributed new [] = none
attributed new (s ∷ ss) =
    if s.digest == new.digest
    then some true
    else if s.network == new.network
        && (s.transaction_digest == new.transaction_digest
            || s.request_digest == new.request_digest)
    then some false
    else attributed new ss

-- The target that a revocation must not have: no attestation of its own issuer on the network.
unfoldable pub forbids : Entry → Text → Entry → Bool
forbids new network target =
    equals_text (get "attestation_id" new.statement) target.row.id
    && (not (target.row.kind == attestation)
        || not (target.row.issuer == new.row.issuer)
        || not (target.row.network == network))

unfoldable pub is_authorized : Entry → Text → List Entry → Bool
is_authorized new network stored =
    not (new.row.kind == revocation && any (forbids new network) stored)

unfoldable pub on_network : Text → List Entry → List Entry
on_network n [] = []
on_network n (e ∷ es) = let rest = on_network n es in if e.row.network == n then e ∷ rest else rest

unfoldable pub events_on : Text → List SettlementRow → List SettlementRow
events_on n [] = []
events_on n (s ∷ ss) = let rest = events_on n ss in if s.network == n then s ∷ rest else rest

-- The row that `import_artifact` inserts, with the network that was asked for.
abbrev pub imported : Entry → Text → ArtifactRow
imported e network = record {
  id = e.row.id;
  digest = e.row.digest;
  network = network;
  kind = e.row.kind;
  issuer = e.row.issuer;
  subject = e.row.subject;
  artifact = e.row.artifact;
}

abbrev pub size : Db → ℕ
size db = length db.artifacts + length db.settlements

module _ (p : Platform) (c : Crypto) (capacity : ℕ) where
  -- `_snapshot`
  unfoldable pub read_all : Db → Result (List Entry × List SettlementRow)
  read_all db = do
    require (leb (size db) capacity) reputation_storage_error
    artifacts ← decode_artifacts p c (order_by (λ r. r.id) db.artifacts)
    settlements ← decode_settlements p c (order_by (λ r. r.digest) db.settlements)
    ok (artifacts, settlements)

  abbrev pub snapshot_body : Text → Db → Result ((List Entry × List SettlementRow) × Db)
  snapshot_body network db = do
    r ← read_all db
    ok ((on_network network r.0, events_on network r.1), db)

  unfoldable pub snapshot : Moment → Value → Db → Result (List Entry × List SettlementRow) × Db
  snapshot m network db =
      checked (validate_network network) (λ n. transaction m (snapshot_body n)) db

  -- The artifact read again and verified on the network.
  unfoldable pub check_import : ReputationArtifact → Text → Result Entry
  check_import a network = do
    again ← parse_reputation_artifact p c (text a.encoded)
    valid ← verify p c again (some network) none
    require valid input_error
    columns p c again

  abbrev pub insert_new : Entry → Text → List Entry × List SettlementRow → Db → Result (Bool × Db)
  insert_new e network r db = do
    require (is_authorized e network r.0) input_error
    require (ltb (length r.0 + length r.1) capacity) reputation_storage_error
    db' ← insert_artifact (imported e network) db
    ok (true, db')

  unfoldable pub import_body : Entry → Text → Db → Result (Bool × Db)
  import_body e network db = do
    r ← read_all db
    elim (find_entry e.row.id r.0) [
      | some stored ↦
          if stored.row.artifact == e.row.artifact then ok (false, db) else err input_error
      | none ↦ insert_new e network r db
    ]

  unfoldable pub import_artifact : Moment → ReputationArtifact → Text → Db → Result Bool × Db
  import_artifact m a network db =
      checked (check_import a network) (λ e. transaction m (import_body e network)) db

  unfoldable pub get_artifact : Moment → Value → Value → Db → Result (Option Entry) × Db
  get_artifact m artifact_id network db = elim (reputation_id artifact_id) [
    | err e ↦ (err e, db)
    | ok id ↦
        let answer = snapshot m network db in (do r ← answer.0; ok (find_entry id r.0), answer.1)
  ]

  -- `after is None or a.id > after`, and the subject likewise.
  unfoldable pub select_entries : Option Text → Option Text → List Entry → List Entry
  select_entries subject after [] = []
  select_entries subject after (e ∷ es) =
      let rest = select_entries subject after es in
      if elim after [ none ↦ true | some a ↦ text_lt a e.row.id ]
        && elim subject [ none ↦ true | some s ↦ e.row.subject == some s ]
      then e ∷ rest
      else rest

  -- The arguments of `list`, checked in its order.
  unfoldable pub list_arguments : Value → Value → Value → Result (ℕ × Option Text × Option Text)
  list_arguments subject limit after = do
    n ← bounded_int limit 1 200
    a ← elim after [ Value.null ↦ ok none | v ↦ do id ← reputation_id v; ok (some id) ]
    s ← elim subject [
      | Value.null ↦ ok none
      | Value.str t ↦ do machine_id_digest c (Value.str t); ok (some t)
      | _ ↦ err input_error
    ]
    ok (n, s, a)

  unfoldable pub list : Moment → Value → Value → Value → Value → Db → Result (List Entry) × Db
  list m network subject limit after db = elim (list_arguments subject limit after) [
    | err e ↦ (err e, db)
    | ok (n, s, a) ↦
        let answer = snapshot m network db in
        (do r ← answer.0; ok (take n (select_entries s a r.0)), answer.1)
  ]

  -- The settlement, read again from its canonical text and validated.
  unfoldable pub check_settlement : Value → Result SettlementRow
  check_settlement value = do
    s ← canonical_json p value
    v ← strict_json p (text s) max_request_bytes
    f ← validate_settlement p c v
    settlement_columns p c f

  abbrev pub add_settlement :
      SettlementRow → List Entry × List SettlementRow → Db → Result ((Text × Bool) × Db)
  add_settlement new r db = do
    require (ltb (length r.0 + length r.1) capacity) reputation_storage_error
    db' ← insert_settlement new db
    ok ((new.digest, true), db')

  unfoldable pub record_body : SettlementRow → Db → Result ((Text × Bool) × Db)
  record_body new db = do
    r ← read_all db
    elim (attributed new r.1) [
      | some true ↦ ok ((new.digest, false), db)
      | some false ↦ err input_error
      | none ↦ add_settlement new r db
    ]

  -- `_record_settlement`
  unfoldable pub record_settlement : Moment → Value → Db → Result (Text × Bool) × Db
  record_settlement m value db =
      checked (check_settlement value) (λ new. transaction m (record_body new)) db
