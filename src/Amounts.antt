-- ===== src/Amounts.antt =====
-- src/myt_machine/amounts.py: decimal MYT strings and atomic units.
pub mod Decimal
pub mod RoundTrip
mod Examples
use myt_machine.Base.{
  ℕ, zero, suc, ◌+◌, ◌-◌, ◌*◌, ◌/◌, ◌%◌, ◌^◌, Bool, true, false, ◌&&◌, ◌||◌, not, Option, none,
  some, List, [], ◌∷◌, ◌++◌, Text, ◌==◌, ℕ_eq, ltb, leb, if◌then◌else◌, length, replicate, all,
}
use mathlib.Core.Option
use myt_machine.Base.Int.{ℤ, pos}
use myt_machine.Base.Strings.{is_digit}
use myt_machine.Errors.{
  Error, input_error, rpc_protocol_error, value_error, Result, ok, err, ◌>>=◌, ◌>>◌, require,
}
use myt_machine.Json.{Value, Fields, end, field}

abbrev pub atomic_units_per_myt : ℕ
atomic_units_per_myt = 1_000_000_000

abbrev pub uint64_max : ℕ
uint64_max = 2 ^ 64 - 1

-- The digits at the front of a text, and the rest.
unfoldable pub span_digits : Text → Text × Text
span_digits [] = ([], [])
span_digits (c ∷ s) = let (d, r) = span_digits s in if is_digit c then (c ∷ d, r) else ([], c ∷ s)

-- The group `(0|[1-9][0-9]*)` of the pattern, over digits.
unfoldable pub is_whole : Text → Bool
is_whole [] = false
is_whole (c ∷ []) = true
is_whole (c ∷ d ∷ s) = not (c == b'0')

-- The group `(?:\.([0-9]{1,9}))?` against all of a text.
unfoldable pub fraction_match : Text → Option (Option Text)
unfolding is_digit
fraction_match [] = some none
fraction_match (c ∷ f) =
    if c == b'.' && all is_digit f && leb 1 (length f) && leb (length f) 9
    then some (some f)
    else none

-- `_AMOUNT_PATTERN.fullmatch`, with its two groups.
unfoldable pub amount_match : Text → Option (Text × Option Text)
unfolding span_digits is_whole fraction_match
amount_match s =
    let (w, r) = span_digits s in
    if is_whole w then Option.map (λ f. (w, f)) (fraction_match r) else none

-- The value of a text of digits.
unfoldable pub number_from : ℕ → Text → ℕ
number_from n [] = n
number_from n (c ∷ s) = number_from (n * 10 + (c - b'0')) s

-- `sys.int_info.default_max_str_digits`
abbrev pub max_str_digits : ℕ
max_str_digits = 4300

-- Python's `int(text)` on a text of digits, which refuses very long texts.
unfoldable pub int_of_text : Text → Result ℕ
unfolding number_from
int_of_text s = if ltb max_str_digits (length s) then err value_error else ok (number_from 0 s)

-- `text.ljust(9, "0")`
unfoldable pub ljust9 : Text → Text
ljust9 s = s ++ replicate (9 - length s) b'0'

-- `(match.group(2) or "").ljust(9, "0")`
unfoldable pub fraction_text : Option Text → Text
unfolding ljust9
fraction_text none = ljust9 []
fraction_text (some f) = ljust9 f

unfoldable pub parse_myt_amount : Value → Bool → Result ℕ
parse_myt_amount (Value.str value) require_positive = elim (amount_match value) [
  | none ↦ err input_error
  | some (g1, g2) ↦ do
    whole ← int_of_text g1
    fraction ← int_of_text (fraction_text g2)
    let atomic = whole * atomic_units_per_myt + fraction
    require (leb atomic uint64_max) input_error
    require (not (require_positive && atomic == 0)) input_error
    ok atomic
]
parse_myt_amount _ require_positive = err input_error

-- `str(n)`: the digits after at most `fuel` of them have been written.
unfoldable pub digits : ℕ → ℕ → Text
digits zero n = []
digits (suc fuel) n =
    let front = digits fuel (n / 10) in
    if ltb n 10 then (b'0' + n) ∷ [] else front ++ (b'0' + n % 10) ∷ []

unfoldable pub decimal : ℕ → Text
unfolding digits
decimal n = digits (suc n) n

-- `f"{n:09d}"`
unfoldable pub zfill9 : ℕ → Text
unfolding decimal
zfill9 n = replicate (9 - length (decimal n)) b'0' ++ decimal n

unfoldable pub format_myt_amount : Value → Result Text
unfolding zfill9
format_myt_amount (Value.int (pos atomic)) =
    if ltb uint64_max atomic
    then err rpc_protocol_error
    else ok
        (decimal (atomic / atomic_units_per_myt) ++ b'.' ∷ zfill9 (atomic % atomic_units_per_myt))
format_myt_amount _ = err rpc_protocol_error

unfoldable pub amount_object : ℕ → Result Value
unfolding format_myt_amount
amount_object atomic = do
  myt ← format_myt_amount (Value.int (pos atomic))
  ok (Value.dict (field "atomic" (Value.int (pos atomic)) (field "myt" (Value.str myt) end)))
