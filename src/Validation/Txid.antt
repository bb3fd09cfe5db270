-- ===== src/Validation/Txid.antt =====
-- The spelling of transaction IDs (validation.py).
use myt_machine.Base.{
  ℕ, suc, ◌≡◌, refl, Bool, true, false, not, [], ◌∷◌, Text, length, all, map, arith, ap, ℕ_eq,
}
use myt_machine.Base.Strings.{to_lower, is_upper}
use myt_machine.Errors.{ok}
use myt_machine.Json.{Value}
use myt_machine.Validation.{is_hex, is_txid, normalize_txid}

to_lower-is_hex : (c : ℕ) → is_hex c ≡ true → is_hex (to_lower c) ≡ true
unfolding is_hex to_lower
to_lower-is_hex c h = ground arith

to_lower-is_upper : (c : ℕ) → is_upper (to_lower c) ≡ false
unfolding is_upper to_lower
to_lower-is_upper c = ground arith

to_lower_idem : (c : ℕ) → to_lower (to_lower c) ≡ to_lower c
unfolding to_lower
to_lower_idem c = ground arith

length-map-to_lower : (s : Text) → length (map to_lower s) ≡ length s
length-map-to_lower [] = refl
length-map-to_lower (c ∷ s) = ap suc (length-map-to_lower s)

all-is_hex-to_lower : (s : Text) → all is_hex s ≡ true → all is_hex (map to_lower s) ≡ true
all-is_hex-to_lower [] h = refl
all-is_hex-to_lower (c ∷ s) h = ground (arith, to_lower-is_hex c, all-is_hex-to_lower s)

map-to_lower_idem : (s : Text) → map to_lower (map to_lower s) ≡ map to_lower s
map-to_lower_idem [] = refl
map-to_lower_idem (c ∷ s) = ground (arith, to_lower_idem c, map-to_lower_idem s)

-- No upper-case letter is left.
abbrev pub is_lower_text : Text → Bool
is_lower_text = all (λ c. not (is_upper c))

map-to_lower-is_lower : (s : Text) → is_lower_text (map to_lower s) ≡ true
map-to_lower-is_lower [] = refl
map-to_lower-is_lower (c ∷ s) = ground (arith, to_lower-is_upper c, map-to_lower-is_lower s)

is_txid-to_lower : (s : Text) → is_txid s ≡ true → is_txid (map to_lower s) ≡ true
unfolding is_txid
is_txid-to_lower s h = ground (arith, length-map-to_lower s, all-is_hex-to_lower s)

-- What `normalize_txid` returns is a transaction ID of 64 hexadecimal characters with no upper-case
-- letter, and it is left alone by `normalize_txid`.
pub normalize_txid_canonical :
    (v : Value) (t : Text)
    → normalize_txid v ≡ ok t
    → (normalize_txid (Value.str t) ≡ ok t) × (is_txid t ≡ true) × (is_lower_text t ≡ true)
unfolding normalize_txid
normalize_txid_canonical (Value.str s) t h =
    ground (arith, is_txid-to_lower s, map-to_lower_idem s, map-to_lower-is_lower s)
normalize_txid_canonical _ t h = ground arith
