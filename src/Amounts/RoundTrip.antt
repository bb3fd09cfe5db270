-- ===== src/Amounts/RoundTrip.antt =====
-- `format_myt_amount` and `parse_myt_amount` of amounts.py together; the range of what is read.
use myt_machine.Base.{
  ℕ, zero, suc, ◌+◌, ◌-◌, ◌*◌, ◌/◌, ◌%◌, ◌^◌, ◌≤◌, ◌<◌, ◌≡◌, refl, Bool, true, false, Option, some,
  [], ◌∷◌, ◌++◌, Text, length, replicate, all, length-append, all-append, length-replicate, arith,
  le→ltb, ◌∙◌, ap, subst, ◌⊎◌, inl, inr, Bool-cases, Option-cases, some-injective, leb, ◌==◌, ℕ_eq,
  ◌&&◌,
}
use mathlib.Core.List.{append-nil}
use myt_machine.Base.Int.{pos}
use myt_machine.Base.Strings.{is_digit}
use myt_machine.Errors.{Error, input_error, ok, err, value_error, ◌>>=◌}
use myt_machine.Json.{Value}
use myt_machine.Amounts.{
  uint64_max, atomic_units_per_myt, max_str_digits, span_digits, is_whole, fraction_match,
  amount_match, number_from, int_of_text, ljust9, fraction_text, parse_myt_amount, decimal, zfill9,
  format_myt_amount,
}
use myt_machine.Amounts.Decimal.{
  number_from-decimal, decimal-all, length-decimal, number_from-zeros, decimal-is_whole,
}

-- A text of digits before a dot is split off whole.
span_digits-append :
    (s r : Text) → all is_digit s ≡ true → span_digits (s ++ b'.' ∷ r) ≡ (s, b'.' ∷ r)
unfolding span_digits is_digit
span_digits-append [] r h = refl
span_digits-append (c ∷ s) r h = ground (arith, span_digits-append s r)

all-replicate : (n : ℕ) → all is_digit (replicate n b'0') ≡ true
unfolding is_digit
all-replicate zero = refl
all-replicate (suc n) = all-replicate n

module _ (n : ℕ) (small : n < 1_000_000_000) where
  length-zfill9 : length (zfill9 n) ≡ 9
  unfolding zfill9
  length-zfill9 = omega (
    arith,
    length-append (replicate (9 - length (decimal n)) b'0') (decimal n),
    length-replicate {A = ℕ} (9 - length (decimal n)) b'0',
    length-decimal 8 n small,
  )

  zfill9-all : all is_digit (zfill9 n) ≡ true
  unfolding zfill9
  zfill9-all = ground (
    arith,
    all-append is_digit (replicate (9 - length (decimal n)) b'0') (decimal n),
    all-replicate (9 - length (decimal n)),
    decimal-all n,
  )

  number_from-zfill9 : number_from 0 (zfill9 n) ≡ n
  unfolding zfill9
  number_from-zfill9 = rw number_from-zeros (number_from-decimal n)

-- A fraction of nine digits is left as it is.
ljust9-full : (s : Text) → length s ≡ 9 → ljust9 s ≡ s
unfolding ljust9
ljust9-full s h = rw h (append-nil s)

-- Short texts of digits are read by their value.
pub int_of_text-short :
    (s : Text) → length s ≤ max_str_digits → int_of_text s ≡ ok (number_from 0 s)
unfolding int_of_text
int_of_text-short s h = ground arith

fraction_match-nine :
    (s : Text) → all is_digit s ≡ true → length s ≡ 9 → fraction_match (b'.' ∷ s) ≡ some (some s)
unfolding fraction_match
fraction_match-nine s d n = rw (d, n)

module _ (w f : ℕ) (whole : w < 10 ^ 20) (small : f < 1_000_000_000) where
  match-format : amount_match (decimal w ++ b'.' ∷ zfill9 f) ≡ some (decimal w, some (zfill9 f))
  unfolding amount_match
  match-format = rw (span_digits-append (decimal w) (zfill9 f) (decimal-all w)) (
      rw
        (
          decimal-is_whole w,
          fraction_match-nine (zfill9 f) (zfill9-all f small) (length-zfill9 f small),
        )
        refl)

  fraction-format : fraction_text (some (zfill9 f)) ≡ zfill9 f
  unfolding fraction_text
  fraction-format = ljust9-full (zfill9 f) (length-zfill9 f small)

  parse_parts :
      w * atomic_units_per_myt + f ≤ uint64_max
      → parse_myt_amount (Value.str (decimal w ++ b'.' ∷ zfill9 f)) false
        ≡ ok (w * atomic_units_per_myt + f)
  unfolding parse_myt_amount
  parse_parts h =
      rw
        (
          match-format,
          parse_myt_amount,
          int_of_text-short (decimal w) (omega (arith, length-decimal 19 w whole)),
        )
        (rw (fraction-format, int_of_text-short (zfill9 f) (omega (arith, length-zfill9 f small)))
          (rw (number_from-decimal w, number_from-zfill9 f small) (ground arith)))

-- Every amount in the uint64 range is written to a text that parses back to it.
pub parse-format :
    (atomic : ℕ)
    → atomic ≤ uint64_max
    → (format_myt_amount (Value.int (pos atomic)) >>= λ s. parse_myt_amount (Value.str s) false)
      ≡ ok atomic
unfolding format_myt_amount
parse-format a h = rw (le→ltb uint64_max a h) (
    parse_parts (a / atomic_units_per_myt) (a % atomic_units_per_myt) (omega arith) (omega arith)
      (omega arith)
    ∙ ap ok (omega arith))

-- Every amount that is accepted is in the uint64 range, and above zero where that is asked for.
pub parse_myt_amount_bounds :
    (v : Value) (positive : Bool) (atomic : ℕ)
    → parse_myt_amount v positive ≡ ok atomic
    → (atomic ≤ uint64_max) × (positive ≡ true → 0 < atomic)
unfolding parse_myt_amount
parse_myt_amount_bounds v positive atomic h = ground arith

-- A text matches the pattern of amounts, with a whole part of more than 4300 digits.
abbrev pub IsTooLong : Text → Type 0
IsTooLong s =
    (w : Text) × (f : Option Text) × (amount_match s ≡ some (w, f)) × (max_str_digits < length w)

pub too_long-uncaught :
    (s w : Text) (f : Option Text) (positive : Bool)
    → amount_match s ≡ some (w, f)
    → max_str_digits < length w
    → parse_myt_amount (Value.str s) positive ≡ err value_error
unfolding parse_myt_amount int_of_text
too_long-uncaught s w f positive m long = ground arith

fraction_text-short :
    (s : Text) (f : Option Text) → fraction_match s ≡ some f → length (fraction_text f) ≤ 9
unfolding fraction_match fraction_text ljust9
fraction_text-short [] f h =
    subst (λ g. length (fraction_text g) ≤ 9) (some-injective h) (omega arith)
fraction_text-short (c ∷ s) f h =
    elim (Bool-cases (c == b'.' && all is_digit s && leb 1 (length s) && leb (length s) 9)) [
      | inr other ↦ absurd (ground arith)
      | inl good ↦
          subst (λ g. length (fraction_text g) ≤ 9) (some-injective (rw good at h))
            (omega (
              arith,
              length-append s (replicate (9 - length s) b'0'),
              length-replicate {A = ℕ} (9 - length s) b'0',
              short s good,
            ))
    ]
  where
    short :
        (t : Text)
        → (c == b'.' && all is_digit t && leb 1 (length t) && leb (length t) 9) ≡ true
        → length t ≤ 9
    short t h = ground arith

amount_match-short :
    (s w : Text) (f : Option Text) → amount_match s ≡ some (w, f) → length (fraction_text f) ≤ 9
unfolding amount_match
amount_match-short s w f h = elim (Bool-cases (is_whole (span_digits s).0)) [
  | inr other ↦ absurd (ground arith)
  | inl whole ↦ elim (Option-cases (fraction_match (span_digits s).1)) [
    | inl bad ↦ absurd (ground arith)
    | inr (g, good) ↦
        subst (λ x. length (fraction_text x) ≤ 9)
          (ap (λ t. t.1) (some-injective (rw good at rw whole at h)))
          (fraction_text-short (span_digits s).1 g good)
  ]
]

matched_error :
    (s w : Text) (f : Option Text) (positive : Bool) (e : Error)
    → amount_match s ≡ some (w, f)
    → length (fraction_text f) ≤ 9
    → parse_myt_amount (Value.str s) positive ≡ err e
    → (e ≡ input_error) ⊎ ((e ≡ value_error) × (max_str_digits < length w))
unfolding parse_myt_amount int_of_text
matched_error s w f positive e m short h = ground arith

-- An error of `parse_myt_amount` on a text is `InputError`, or else Python's own `ValueError`, which
-- it is only on a text that matches the pattern of amounts and has a whole part of more than 4300
-- digits.
pub parse_myt_amount_errors :
    (s : Text) (positive : Bool) (e : Error)
    → parse_myt_amount (Value.str s) positive ≡ err e
    → (e ≡ input_error) ⊎ ((e ≡ value_error) × IsTooLong s)
unfolding parse_myt_amount
parse_myt_amount_errors s positive e h = elim (Option-cases (amount_match s)) [
  | inl other ↦ inl (ground arith)
  | inr ((w, f), matched) ↦
      elim (matched_error s w f positive e matched (amount_match-short s w f matched) h) [
        | inl known ↦ inl known
        | inr (own, long) ↦ inr (own, (w, f, matched, long))
      ]
]
