-- ===== src/Reputation/Evidence.antt =====
-- src/myt_machine/reputation_store.py: local settlement evidence, and the rows of the two tables
-- with the values that are read from them.
use myt_machine.Base.{
  Bool, ◌&&◌, Option, none, some, List, [], ◌∷◌, ◌++◌, String, Text, ◌==◌, Text_eq, option_text_eq,
  if◌then◌else◌,
}
use myt_machine.Base.Strings.{codes, text_lt}
use myt_machine.Errors.{
  input_error, reputation_storage_error, is_input_error, Result, ok, err, ◌>>=◌, ◌>>◌, require,
}
use myt_machine.Json.{Value, Fields, get, has_exactly, equals_text}
use myt_machine.Payment.{
  Platform, text, max_request_bytes, bounded_int, canonical_json, strict_json, validate_network,
}
use myt_machine.Identity.{Crypto, machine_id_digest}
use myt_machine.Reputation.{
  ReputationArtifact, content_digest, evidence_digest, fields_of, parse_reputation_artifact,
  statement, verify,
}

abbrev pub settlement_fields : List String
settlement_fields =
    "type" ∷ "version" ∷ "network" ∷ "subject_machine_id" ∷ "transaction_digest" ∷ "request_digest"
    ∷ "binding_digest" ∷ []

-- A row of `artifacts` and a row of `settlements`.
pub record ArtifactRow : Type 0 where
  pub id : Text
  pub digest : Text
  pub network : Text
  pub kind : Text
  pub issuer : Text
  pub subject : Option Text
  pub artifact : Text

pub record SettlementRow : Type 0 where
  pub digest : Text
  pub network : Text
  pub subject : Text
  pub transaction_digest : Text
  pub request_digest : Text
  pub evidence : Text

-- A stored artifact with its properties, which are the columns of its row.
pub record Entry : Type 0 where
  pub row : ArtifactRow
  pub statement : Fields

-- A field as a value of a column: it is a string in what was validated.
unfoldable pub string_of : Value → Result Text
string_of (Value.str s) = ok s
string_of _ = err reputation_storage_error

unfoldable pub optional_string : Value → Result (Option Text)
optional_string Value.null = ok none
optional_string v = do s ← string_of v; ok (some s)

-- `tuple(row) == expected`
unfoldable pub same_artifact : ArtifactRow → ArtifactRow → Bool
same_artifact r t =
    r.id == t.id
    && r.digest == t.digest
    && r.network == t.network
    && r.kind == t.kind
    && r.issuer == t.issuer
    && r.subject == t.subject
    && r.artifact == t.artifact

unfoldable pub same_settlement : SettlementRow → SettlementRow → Bool
same_settlement r t =
    r.digest == t.digest
    && r.network == t.network
    && r.subject == t.subject
    && r.transaction_digest == t.transaction_digest
    && r.request_digest == t.request_digest
    && r.evidence == t.evidence

-- `except (InputError, TypeError, KeyError)`
unfoldable pub as_corrupt : {A : Type 0} → Result A → Result A
as_corrupt (ok a) = ok a
as_corrupt (err e) = if is_input_error e then err reputation_storage_error else err e

-- `ORDER BY` a column of text.
unfoldable pub insert_by : {A : Type 0} → (A → Text) → A → List A → List A
insert_by key x [] = x ∷ []
insert_by key x (y ∷ ys) =
    let rest = insert_by key x ys in if text_lt (key y) (key x) then y ∷ rest else x ∷ y ∷ ys

unfoldable pub order_by : {A : Type 0} → (A → Text) → List A → List A
order_by key [] = []
order_by key (x ∷ xs) = insert_by key x (order_by key xs)

module _ (p : Platform) (c : Crypto) where
  unfoldable pub validate_settlement : Value → Result Fields
  validate_settlement (Value.dict f) = do
    require (has_exactly settlement_fields f) input_error
    require (equals_text (get "type" f) (codes "myt-recipient-settlement-observation")) input_error
    bounded_int (get "version" f) 1 1
    validate_network (get "network" f)
    machine_id_digest c (get "subject_machine_id" f)
    evidence_digest (get "transaction_digest" f)
    evidence_digest (get "request_digest" f)
    evidence_digest (get "binding_digest" f)
    ok f
  validate_settlement _ = err input_error

  unfoldable pub settlement_digest : Fields → Result Text
  settlement_digest f = do
    v ← validate_settlement (Value.dict f)
    content_digest p (codes "MYT-RECIPIENT-SETTLEMENT-V1" ++ 10 ∷ []) (Value.dict v)

  -- The values that are read from an artifact, `expected` in `_decode`.
  unfoldable pub columns : ReputationArtifact → Result Entry
  columns a = do
    id ← string_of (get "id" a.document)
    digest ←
        content_digest p (codes "MYT-REPUTATION-ARTIFACT-V1" ++ 10 ∷ []) (Value.dict a.document)
    s ← statement p c a
    network ← string_of (get "network" s)
    kind ← string_of (get "type" a.document)
    issuer ← fields_of (get "issuer" a.document)
    machine_id ← string_of (get "machine_id" issuer)
    subject ← optional_string (get "subject_machine_id" s)
    ok (record {
      row = record {
        id = id;
        digest = digest;
        network = network;
        kind = kind;
        issuer = machine_id;
        subject = subject;
        artifact = a.encoded;
      };
      statement = s;
    })

  -- The columns of a settlement that was validated, `expected` in `_decode_settlement`.
  unfoldable pub settlement_columns : Fields → Result SettlementRow
  settlement_columns f = do
    digest ← settlement_digest f
    network ← string_of (get "network" f)
    subject ← string_of (get "subject_machine_id" f)
    transaction ← string_of (get "transaction_digest" f)
    request ← string_of (get "request_digest" f)
    evidence ← canonical_json p (Value.dict f)
    ok (record {
      digest = digest;
      network = network;
      subject = subject;
      transaction_digest = transaction;
      request_digest = request;
      evidence = evidence;
    })

  -- `_decode`
  unfoldable pub decode : ArtifactRow → Result Entry
  decode row = as_corrupt do
    a ← parse_reputation_artifact p c (text row.artifact)
    e ← columns a
    require (same_artifact row e.row) input_error
    valid ← verify p c a none none
    require valid input_error
    ok e

  -- `_decode_settlement`
  unfoldable pub decode_settlement : SettlementRow → Result SettlementRow
  decode_settlement row = as_corrupt do
    v ← strict_json p (text row.evidence) max_request_bytes
    f ← validate_settlement v
    expected ← settlement_columns f
    require (same_settlement row expected) input_error
    ok expected

  -- `[self._decode(row) for row in rows]`, which ends at the first row that raises.
  unfoldable pub decode_artifacts : List ArtifactRow → Result (List Entry)
  decode_artifacts [] = ok []
  decode_artifacts (row ∷ rows) = do e ← decode row; es ← decode_artifacts rows; ok (e ∷ es)

  unfoldable pub decode_settlements : List SettlementRow → Result (List SettlementRow)
  decode_settlements [] = ok []
  decode_settlements (row ∷ rows) = do
    s ← decode_settlement row
    ss ← decode_settlements rows
    ok (s ∷ ss)
