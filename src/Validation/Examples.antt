-- ===== src/Validation/Examples.antt =====
-- Runs of validation.py at single inputs.
use myt_machine.Base.{◌≡◌, refl, replicate}
use myt_machine.Base.Strings.{codes, utf8}
use myt_machine.Errors.{ok}
use myt_machine.Json.{Value}
use myt_machine.Validation.{normalize_txid, is_txid, validate_message, within_bytes}
use myt_machine.Base.Strings.{to_lower}

lower_txid : normalize_txid (Value.str (replicate 64 b'A')) ≡ ok (replicate 64 b'a')
unfolding normalize_txid is_txid to_lower
lower_txid = refl

surrogate_message : validate_message (Value.str (codes "a")) ≡ ok (codes "a")
unfolding validate_message within_bytes utf8
surrogate_message = refl
