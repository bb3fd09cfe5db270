-- ===== src/Identity/Again.antt =====
-- Identities and their documents (identity.py, identity_artifacts.py).
use myt_machine.Base.{
  ℕ, ◌≡◌, refl, sym, ap, ◌∙◌, subst, true, some, [], ◌∷◌, ◌++◌, Text, ◌==◌, ℕ_eq, Text_eq, length,
  all, nat_eq_iff, text_eq_iff, text_eq_refl, text_eq, arith,
}
use myt_machine.Errors.{
  Error, input_error, Result, ok, err, ok-injective, on_ok, require, require-eq-ok, ◌>>=◌,
}
use myt_machine.Json.{Value, Fields, end, field, get, lookup, contains, has_exactly, equals_text}
use myt_machine.Payment.{is_version_one, nat}
use myt_machine.Identity.{
  Crypto, PublicMachineIdentity, identity_type, identity_algorithm, validate_public_key_bytes,
  encode_base64url, is_base64url, decode_text, decode_base64url, encode_public_key,
  decode_public_key, digest_of, derive_machine_id, new_identity,
}
use myt_machine.Identity.Document.{
  identity_fields, public_identity_document, parse_identity_fields, parse_public_identity_document,
}

-- A Machine ID that belongs to the public key of 32 bytes.
pub record IsIdentity (c : Crypto) (i : PublicMachineIdentity) : Type 0 where
  pub size : length i.public_key ≡ 32
  pub derived : derive_machine_id c i.public_key ≡ ok i.machine_id
  pub digest : Text
  pub canonical : digest_of c i.machine_id ≡ ok digest

-- What base64 is documented to do with one key: 43 characters of its alphabet, one sign of padding,
-- and the key again when it is decoded.
pub record IsEncodable (c : Crypto) (key : Text) : Type 0 where
  pub text : Text
  pub first : ℕ
  pub encoded : encode_base64url c key ≡ first ∷ text
  pub size : length (first ∷ text) ≡ 43
  pub alphabet : all is_base64url (first ∷ text) ≡ true
  pub decodes : c.b64_decode ((first ∷ text) ++ b'=' ∷ []) ≡ some key

refused_identity : {A : Type 0} {a : A} {e : Error} → ◌≡◌ {A = Result A} (err e) (ok a) → ⊥
refused_identity h = ground arith

key-size :
    (key raw : Text) → validate_public_key_bytes key ≡ ok raw → (key ≡ raw) × (length key ≡ 32)
unfolding validate_public_key_bytes
key-size key raw h = ground (arith, nat_eq_iff (length key) 32)

-- The document of an identity whose key has this text.
abbrev pub document_of : PublicMachineIdentity → Text → Fields
document_of i key = field "algorithm" (Value.str identity_algorithm) (
    field "machine_id" (Value.str i.machine_id) (
      field "public_key" (Value.str key)
        (field "type" (Value.str identity_type) (field "version" (nat 1) end))))

module _ (c : Crypto) where
  new_identity-eq-ok :
      (key : Text) (id algorithm : Value) (i : PublicMachineIdentity)
      → new_identity c key id algorithm ≡ ok i
      → (i.public_key ≡ key) × (id ≡ Value.str i.machine_id) × IsIdentity c i
  unfolding new_identity
  new_identity-eq-ok key (Value.str id) algorithm i h =
      on_ok (validate_public_key_bytes key) _ h λ raw e1 h1.
        on_ok (require (equals_text algorithm identity_algorithm) input_error) _ h1 λ u e2 h2.
          on_ok (digest_of c id) _ h2 λ digest e3 h3.
            on_ok (derive_machine_id c raw) _ h3 λ derived e4 h4.
              on_ok (require (derived == id) input_error) _ h4 λ u' e5 h5.
                let same = sym (ok-injective h5) in
                let (is_raw, size) = key-size key raw e1 in
                (
                  ap (λ x. x.public_key) same,
                  ap (λ x. Value.str x.machine_id) (sym same),
                  subst (IsIdentity c) (sym same) (record {
                    size = size;
                    derived =
                        subst (λ k. derive_machine_id c k ≡ ok id) (sym is_raw)
                          (e4 ∙ ap (λ x. ok x) ((text_eq_iff derived id).0 (require-eq-ok _ _ e5)));
                    digest = digest;
                    canonical = e3;
                  }),
                )
  new_identity-eq-ok key _ algorithm i h = absurd (refused_identity h)

  new_identity-IsIdentity :
      (i : PublicMachineIdentity)
      → IsIdentity c i
      → new_identity c i.public_key (Value.str i.machine_id) (Value.str identity_algorithm) ≡ ok i
  unfolding new_identity equals_text validate_public_key_bytes
  new_identity-IsIdentity i v =
      rw ((nat_eq_iff (length i.public_key) 32).1 v.size) rw (text_eq_refl identity_algorithm) rw
        v.canonical rw v.derived rw (text_eq_refl i.machine_id) refl

  decode_text-eq-ok :
      (s key : Text)
      → length s ≡ 43
      → all is_base64url s ≡ true
      → c.b64_decode (s ++ b'=' ∷ []) ≡ some key
      → length key ≡ 32
      → encode_base64url c key ≡ s
      → decode_text c s 32 ≡ ok key
  unfolding decode_text
  decode_text-eq-ok s key l a d size e = rw l rw a rw d rw size rw e rw (text_eq_refl s) refl

  pub decode_public_key-IsEncodable :
      (key : Text)
      → length key ≡ 32
      → (e : IsEncodable c key) → decode_public_key c (Value.str (e.first ∷ e.text)) ≡ ok key
  unfolding decode_public_key decode_base64url
  decode_public_key-IsEncodable key size e =
      decode_text-eq-ok (e.first ∷ e.text) key e.size e.alphabet e.decodes size e.encoded

  encode_public_key-IsEncodable :
      (key : Text)
      → length key ≡ 32
      → (e : IsEncodable c key) → encode_public_key c key ≡ ok (e.first ∷ e.text)
  unfolding encode_public_key validate_public_key_bytes
  encode_public_key-IsEncodable key size e = rw size rw e.encoded refl

  document-eq-ok :
      (i : PublicMachineIdentity) (key : Text)
      → encode_public_key c i.public_key ≡ ok key
      → public_identity_document c i ≡ ok (document_of i key)
  unfolding public_identity_document
  document-eq-ok i key h = rw h refl

  parse-document_of :
      (i : PublicMachineIdentity) (key : Text)
      → parse_public_identity_document c (Value.dict (document_of i key)) ≡ (
          decode_public_key c (Value.str key) >>= λ k.
          new_identity c k (Value.str i.machine_id) (Value.str identity_algorithm))
  unfolding parse_public_identity_document parse_identity_fields has_exactly get lookup contains
      equals_text is_version_one text_eq
  parse-document_of i key = refl

  -- An identity whose Machine ID belongs to its key is parsed back from its document, where base64 reads
  -- back what it writes for the key.
  pub parse-public_identity_document :
      (i : PublicMachineIdentity)
      → IsIdentity c i
      → (e : IsEncodable c i.public_key)
      → (public_identity_document c i >>= λ f. parse_public_identity_document c (Value.dict f))
        ≡ ok i
  parse-public_identity_document i v e =
      rw (document-eq-ok i (e.first ∷ e.text) (encode_public_key-IsEncodable i.public_key v.size e))
        (parse-document_of i (e.first ∷ e.text)
          ∙ rw (decode_public_key-IsEncodable i.public_key v.size e) (new_identity-IsIdentity i v))

  parse_fields-IsIdentity :
      (f : Fields) (i : PublicMachineIdentity)
      → parse_identity_fields c f ≡ ok i
      → IsIdentity c i
        × (has_exactly identity_fields f ≡ true)
        × (get "machine_id" f ≡ Value.str i.machine_id)
  unfolding parse_identity_fields
  parse_fields-IsIdentity f i h =
      on_ok (require (has_exactly identity_fields f) input_error) _ h λ u1 e1 h1.
        on_ok (require (equals_text (get "type" f) identity_type) input_error) _ h1 λ u2 e2 h2.
          on_ok (require (is_version_one (get "version" f)) input_error) _ h2 λ u3 e3 h3.
            on_ok (require (equals_text (get "algorithm" f) identity_algorithm) input_error) _ h3
              λ u4 e4 h4. on_ok (decode_public_key c (get "public_key" f)) _ h4 λ key e5 h5.
                let (is_key, id, valid) =
                  new_identity-eq-ok key (get "machine_id" f) (get "algorithm" f) i h5 in
                (valid, require-eq-ok _ _ e1, id)

-- What `parse_public_identity_document` accepts is an object with exactly the fields of a document, and
-- it names the Machine ID that the public key of 32 bytes derives.
pub parse-IsIdentity :
    (c : Crypto) (v : Value) (i : PublicMachineIdentity)
    → parse_public_identity_document c v ≡ ok i
    → IsIdentity c i
      × ((f : Fields) × (v ≡ Value.dict f)
          × (has_exactly identity_fields f ≡ true)
          × (get "machine_id" f ≡ Value.str i.machine_id))
unfolding parse_public_identity_document
parse-IsIdentity c (Value.dict f) i h =
    let (valid, exact, id) = parse_fields-IsIdentity c f i h in (valid, (f, refl, exact, id))
parse-IsIdentity c _ i h = absurd (refused_identity h)
