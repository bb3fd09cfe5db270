-- ===== src/Amounts/Examples.antt =====
-- Runs of amounts.py at single inputs.
use myt_machine.Base.{◌≡◌, refl, false}
use myt_machine.Base.Int.{pos}
use myt_machine.Base.Strings.{codes}
use myt_machine.Errors.{ok, err, input_error}
use myt_machine.Json.{Value}
use myt_machine.Amounts.{
  amount_match, int_of_text, fraction_text, parse_myt_amount, format_myt_amount,
}

parse_one_and_half : parse_myt_amount (Value.str (codes "1.5")) false ≡ ok 1_500_000_000
unfolding parse_myt_amount amount_match int_of_text fraction_text
parse_one_and_half = refl

parse_leading_zero : parse_myt_amount (Value.str (codes "01.5")) false ≡ err input_error
unfolding parse_myt_amount amount_match int_of_text fraction_text
parse_leading_zero = refl

format_max :
    format_myt_amount (Value.int (pos 18446744073709551615)) ≡ ok (codes "18446744073.709551615")
unfolding format_myt_amount
format_max = refl
