-- ===== src/Json.antt =====
-- The dynamic values that the program receives and sends: what `json` reads and writes. A `dict`
-- is its list of entries with string keys; the keys of a `dict` are distinct.
use myt_machine.Base.{
  ℕ, ◌^◌, Bool, true, false, ◌&&◌, Option, none, some, List, [], ◌∷◌, String, Text, ◌==◌, ℕ_eq,
  String_eq, Text_eq, if◌then◌else◌, all, any,
}
use myt_machine.Base.Int.{ℤ, pos}
use myt_machine.Base.Strings.{codes, text_lt}

-- `float m k` is the number m / 2 ^ k, and `nonfinite` an infinity or a NaN.
mutual
  pub data Value : Type 0 where
    null : Value
    bool : Bool → Value
    int : ℤ → Value
    float : ℤ → ℕ → Value
    nonfinite : Value
    str : Text → Value
    list : Items → Value
    dict : Fields → Value

  pub data Items : Type 0 where
    nil : Items
    cons : Value → Items → Items

  pub data Fields : Type 0 where
    end : Fields
    field : String → Value → Fields → Fields

-- `value.get(key)`, where `none` is a missing key.
unfoldable pub lookup : String → Fields → Option Value
lookup k end = none
lookup k (field j v f) = if j == k then some v else lookup k f

-- `value.get(key)` where a missing key reads as `None`.
unfoldable pub get : String → Fields → Value
get k f = elim (lookup k f) [ none ↦ null | some v ↦ v ]

-- `value.get(key, default)`
unfoldable pub get_or : String → Value → Fields → Value
get_or k d f = elim (lookup k f) [ none ↦ d | some v ↦ v ]

-- `key in value`
unfoldable pub contains : String → Fields → Bool
contains k f = elim (lookup k f) [ none ↦ false | some _ ↦ true ]

abbrev pub keys : Fields → List String
keys end = []
keys (field k v f) = k ∷ keys f

-- `set(value) == names`
unfoldable pub has_exactly : List String → Fields → Bool
unfolding contains
has_exactly names f = all (λ k. contains k f) names && all (λ k. any (λ n. n == k) names) (keys f)

-- `value == 1` in Python, where `True` and `1.0` are equal to 1 too.
unfoldable pub equals_one : Value → Bool
equals_one (Value.bool b) = b
equals_one (Value.int (pos n)) = n == 1
equals_one (Value.float (pos m) k) = m == 2 ^ k
equals_one _ = false

-- `value == text`
unfoldable pub equals_text : Value → Text → Bool
equals_text (Value.str s) t = s == t
equals_text _ t = false

-- The entries in the order of their keys, as `sort_keys=True` writes them.
insert_field : String → Value → Fields → Fields
insert_field k v end = field k v end
insert_field k v (field j w f) =
    if text_lt (codes j) (codes k) then field j w (insert_field k v f) else field k v (field j w f)

unfoldable pub sort_fields : Fields → Fields
unfolding insert_field text_lt
sort_fields end = end
sort_fields (field k v f) = insert_field k v (sort_fields f)
