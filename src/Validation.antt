-- ===== src/Validation.antt =====
-- src/myt_machine/validation.py: checks of untrusted texts and numbers.
pub mod Txid
mod Examples
use myt_machine.Base.{
  ℕ, ◌^◌, ◌-◌, Bool, not, ◌&&◌, ◌||◌, Option, none, some, [], ◌∷◌, Text, ◌==◌, ℕ_eq, leb,
  if◌then◌else◌, length, all, any, map,
}
use myt_machine.Base.Int.{ℤ, pos}
use myt_machine.Base.Strings.{is_digit, is_space, to_lower, utf8}
use myt_machine.Errors.{input_error, value_error, Result, ok, err}
use myt_machine.Json.{Value}

abbrev pub max_message_bytes : ℕ
max_message_bytes = 8192

abbrev pub max_address_length : ℕ
max_address_length = 512

abbrev pub max_signature_length : ℕ
max_signature_length = 65536

-- A character of `[0-9a-fA-F]`.
unfoldable pub is_hex : ℕ → Bool
unfolding is_digit
is_hex c = is_digit c || leb b'a' c && leb c b'f' || leb b'A' c && leb c b'F'

-- `_TXID_PATTERN.fullmatch`
unfoldable pub is_txid : Text → Bool
unfolding is_hex
is_txid s = length s == 64 && all is_hex s

unfoldable pub normalize_txid : Value → Result Text
normalize_txid (Value.str txid) = if is_txid txid then ok (map to_lower txid) else err input_error
normalize_txid _ = err input_error

unfoldable pub validate_address_text : Value → Result Text
validate_address_text (Value.str []) = err input_error
validate_address_text (Value.str (c ∷ s)) =
    if leb (length (c ∷ s)) max_address_length && not (any is_space (c ∷ s))
    then ok (c ∷ s)
    else err input_error
validate_address_text _ = err input_error

-- A limit on the UTF-8 length of a text; encoding a lone surrogate raises `UnicodeEncodeError`.
unfoldable pub within_bytes : ℕ → Text → Result Text
within_bytes limit s = elim (utf8 s) [
  | none ↦ err value_error
  | some encoded ↦ if leb (length encoded) limit then ok s else err input_error
]

unfoldable pub validate_message : Value → Result Text
validate_message (Value.str s) = within_bytes max_message_bytes s
validate_message _ = err input_error

unfoldable pub validate_signature : Value → Result Text
validate_signature (Value.str []) = err input_error
validate_signature (Value.str (c ∷ s)) = within_bytes max_signature_length (c ∷ s)
validate_signature _ = err input_error

unfoldable pub validate_uint32 : Value → Result ℕ
validate_uint32 (Value.int (pos n)) = if leb n (2 ^ 32 - 1) then ok n else err input_error
validate_uint32 _ = err input_error
