-- ===== src/Identity/Document.antt =====
-- `public_identity_document`, `parse_public_identity_document` and `parse_public_identity_json` of
-- src/myt_machine/identity_artifacts.py.
use myt_machine.Base.{ℕ, List, [], ◌∷◌, ◌++◌, String, Text, Text_eq, if◌then◌else◌}
use myt_machine.Errors.{input_error, Result, ok, err, ◌>>=◌, ◌>>◌, require}
use myt_machine.Json.{Value, Fields, end, field, get, has_exactly, equals_text}
use myt_machine.Payment.{is_version_one, refused_bytes, nat}
use myt_machine.Rpc.Client.{Decoded, decoded, malformed, raised}
use myt_machine.Identity.{
  Crypto, PublicMachineIdentity, identity_type, identity_algorithm, encode_public_key,
  decode_public_key, new_identity,
}

abbrev pub max_identity_document_bytes : ℕ
max_identity_document_bytes = 4096

abbrev pub identity_fields : List String
identity_fields = "type" ∷ "version" ∷ "algorithm" ∷ "machine_id" ∷ "public_key" ∷ []

module _ (c : Crypto) where
  unfoldable pub public_identity_document : PublicMachineIdentity → Result Fields
  public_identity_document i = do
    key ← encode_public_key c i.public_key
    ok (
        field "algorithm" (Value.str identity_algorithm) (
          field "machine_id" (Value.str i.machine_id) (
            field "public_key" (Value.str key)
              (field "type" (Value.str identity_type) (field "version" (nat 1) end)))))

  unfoldable pub parse_identity_fields : Fields → Result PublicMachineIdentity
  parse_identity_fields f = do
    require (has_exactly identity_fields f) input_error
    require (equals_text (get "type" f) identity_type) input_error
    require (is_version_one (get "version" f)) input_error
    require (equals_text (get "algorithm" f) identity_algorithm) input_error
    key ← decode_public_key c (get "public_key" f)
    new_identity c key (get "machine_id" f) (get "algorithm" f)

  unfoldable pub parse_public_identity_document : Value → Result PublicMachineIdentity
  parse_public_identity_document (Value.dict f) = parse_identity_fields f
  parse_public_identity_document _ = err input_error

  -- `serialize_public_identity`, where `dumps` is `json.dumps` with sorted keys.
  unfoldable pub serialize_public_identity : (Value → Text) → PublicMachineIdentity → Result Text
  serialize_public_identity dumps i = do
    f ← public_identity_document i
    ok (dumps (Value.dict f) ++ 10 ∷ [])

  -- `loads` decodes UTF-8 and reads JSON, and raises `InputError` on a repeated field.
  unfoldable pub parse_public_identity_json : (Text → Decoded) → Text → Result PublicMachineIdentity
  parse_public_identity_json loads encoded =
      if refused_bytes encoded max_identity_document_bytes
      then err input_error
      else elim (loads encoded) [
        | decoded v ↦ parse_public_identity_document v
        | malformed ↦ err input_error
        | raised e ↦ err e
      ]
