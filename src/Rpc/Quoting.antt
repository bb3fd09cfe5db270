-- ===== src/Rpc/Quoting.antt =====
-- The quoted strings of the `Authorization` header of src/myt_machine/rpc.py.
use myt_machine.Base.{
  ℕ, ◌≡◌, refl, subst, Bool, true, false, ◌||◌, Option, none, some, [], ◌∷◌, ◌++◌, Text, ◌==◌, ℕ_eq,
  any, Bool-cases, inl, inr, arith, if◌then◌else◌,
}
use myt_machine.Rpc.Digest.{Failure, Attempt, done, failed, escape, quoted, is_control_code}

abbrev push : ℕ → Option (Text × Text) → Option (Text × Text)
push c none = none
push c (some (s, rest)) = some (c ∷ s, rest)

-- How a quoted string is read up to its closing quote: a backslash is before a character that
-- stands for itself.
unfoldable pub read_quoted : Bool → Text → Option (Text × Text)
read_quoted after_backslash [] = none
read_quoted true (c ∷ s) = push c (read_quoted false s)
read_quoted false (c ∷ s) =
    let escaped = read_quoted true s in
    let plain = read_quoted false s in
    if c == 34 then some ([], s) else if c == 92 then escaped else push c plain

read_quoted-escape : (v rest : Text) → read_quoted false (escape v ++ 34 ∷ rest) ≡ some (v, rest)
unfolding read_quoted escape
read_quoted-escape [] rest = refl
read_quoted-escape (c ∷ v) rest = elim (Bool-cases (c == 92 || c == 34)) [
  | inl special ↦ rw special rw (read_quoted-escape v rest) refl
  | inr plain ↦ ground (arith, plain, read_quoted-escape v rest)
]

failed-not-done : {A : Type 0} {e : Failure} {a : A} → ◌≡◌ {A = Attempt A} (failed e) (done a) → ⊥
failed-not-done h = ground arith

done-injective : {A : Type 0} {a b : A} → ◌≡◌ {A = Attempt A} (done a) (done b) → a ≡ b
done-injective h = ground arith

-- A value that `_quoted` accepts has no control character, and a reader of the header reads exactly
-- this value and stops at the quote that the header has after it.
pub quoted_lem :
    (v q rest : Text)
    → quoted v ≡ done q
    → (read_quoted false (q ++ 34 ∷ rest) ≡ some (v, rest)) × (any is_control_code v ≡ false)
unfolding quoted
quoted_lem v q rest h = elim (Bool-cases (any is_control_code v)) [
  | inl control ↦ absurd (failed-not-done (rw control at h))
  | inr free ↦ (
    subst (λ x. read_quoted false (x ++ 34 ∷ rest) ≡ some (v, rest)) (done-injective (rw free at h))
        (read_quoted-escape v rest),
    free,
  )
]
