-- ===== src/Amounts/Decimal.antt =====
-- Decimal digits as `decimal` writes and `number_from` reads them (amounts.py).
use myt_machine.Base.{
  ℕ, zero, suc, ◌+◌, ◌-◌, ◌*◌, ◌/◌, ◌%◌, ◌^◌, ◌≤◌, ◌<◌, ◌≡◌, refl, Bool, true, false, [], ◌∷◌, ◌++◌,
  Text, length, replicate, all, length-append, all-append, arith, inl, inr, Bool-cases, ltb, nat_eq,
  not,
}
use native.Mathlib.Nat.{pow-suc}
use myt_machine.Base.Strings.{is_digit}
use myt_machine.Amounts.{number_from, digits, decimal, is_whole}

pub number_from-append :
    (n : ℕ) (s t : Text) → number_from n (s ++ t) ≡ number_from (number_from n s) t
unfolding number_from
number_from-append n [] t = refl
number_from-append n (c ∷ s) t = number_from-append (n * 10 + (c - b'0')) s t

-- With fuel above the number, its digits have its value.
pub number_from-digits : (fuel n : ℕ) → n < fuel → number_from 0 (digits fuel n) ≡ n
unfolding digits
number_from-digits zero n h = elim h [ ]
number_from-digits (suc fuel) n h = elim (Bool-cases (ltb n 10)) [
  | inl small ↦ rw small (unfold number_from in omega arith)
  | inr large ↦
      rw (large, number_from-append 0 (digits fuel (n / 10)) ((b'0' + n % 10) ∷ []))
        (rw (number_from-digits fuel (n / 10) (ground arith)) (unfold number_from in omega arith))
]

pub number_from-decimal : (n : ℕ) → number_from 0 (decimal n) ≡ n
unfolding decimal
number_from-decimal n = number_from-digits (suc n) n (omega arith)

digits-all : (fuel n : ℕ) → all is_digit (digits fuel n) ≡ true
unfolding digits is_digit
digits-all zero n = refl
digits-all (suc fuel) n = ground (
  arith,
  all-append is_digit (digits fuel (n / 10)) ((b'0' + n % 10) ∷ []),
  digits-all fuel (n / 10),
)

pub decimal-all : (n : ℕ) → all is_digit (decimal n) ≡ true
unfolding decimal
decimal-all n = digits-all (suc n) n

-- A number below ten to the k has at most k digits.
length-digits : (k fuel n : ℕ) → n < 10 ^ suc k → length (digits fuel n) ≤ suc k
unfolding digits
length-digits k zero n h = omega arith
length-digits zero (suc fuel) n h = ground arith
length-digits (suc k) (suc fuel) n h = ground (
  arith,
  length-append (digits fuel (n / 10)) ((b'0' + n % 10) ∷ []),
  length-digits k fuel (n / 10),
  pow-suc 10 (suc k),
  pow-suc 10 k,
)

pub length-decimal : (k n : ℕ) → n < 10 ^ suc k → length (decimal n) ≤ suc k
unfolding decimal
length-decimal k n h = length-digits k (suc n) n h

-- The first digit of a number above zero is not zero.
pub number_from-zeros :
    (k n : ℕ) (s : Text) → number_from 0 (replicate k b'0' ++ s) ≡ number_from 0 s
unfolding number_from
number_from-zeros zero n s = refl
number_from-zeros (suc k) n s = number_from-zeros k n s

-- A text that begins with another digit than zero.
abbrev pub is_positive : Text → Bool
is_positive [] = false
is_positive (c ∷ s) = not (nat_eq c b'0')

is_positive-append : (s t : Text) → is_positive s ≡ true → is_positive (s ++ t) ≡ true
is_positive-append [] t h = ground arith
is_positive-append (c ∷ s) t h = h

is_positive-is_whole : (s : Text) → is_positive s ≡ true → is_whole s ≡ true
unfolding is_whole
is_positive-is_whole [] h = ground arith
is_positive-is_whole (c ∷ []) h = refl
is_positive-is_whole (c ∷ d ∷ s) h = h

digits-is_positive : (fuel n : ℕ) → n < fuel → 0 < n → is_positive (digits fuel n) ≡ true
unfolding digits
digits-is_positive zero n h p = elim h [ ]
digits-is_positive (suc fuel) n h p = elim (Bool-cases (ltb n 10)) [
  | inl small ↦ rw small (ground arith)
  | inr large ↦ rw large (
      is_positive-append (digits fuel (n / 10)) ((b'0' + n % 10) ∷ [])
        (digits-is_positive fuel (n / 10) (ground arith) (ground arith)))
]

-- What `decimal` writes has no leading zero, but for zero itself.
pub decimal-is_whole : (n : ℕ) → is_whole (decimal n) ≡ true
unfolding decimal
decimal-is_whole zero = unfold digits is_whole in refl
decimal-is_whole (suc n) =
    is_positive-is_whole (digits (suc (suc n)) (suc n))
      (digits-is_positive (suc (suc n)) (suc n) (omega arith) (omega arith))

pub decimal-is_positive : (n : ℕ) → 1 ≤ n → is_positive (decimal n) ≡ true
unfolding decimal
decimal-is_positive n h = digits-is_positive (suc n) n (omega arith) h
