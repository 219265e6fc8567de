-- ===== src/Text/Decimal/Range.antt =====
-- What `stoi` may come to: an `int` or one of its two exceptions.
use hamang_server.Prelude.{
  Bool, Bool-cases, Ends, InInt, Result, [], arith, false, inl, inr, ltb, ltb→lt, refl, suc, true,
  zero, ℕ, ℤ, ◌==◌, ◌^◌, ◌∷◌,
}
use hamang_server.Text.{Bytes}
use hamang_server.Text.Decimal.{
  digits, in_range, is_digit, read_digits, read_signed, scan, skip_spaces, stoi,
}

-- The number fits an `int`, if there is one, and the call ends.
abbrev IsIntOrEnds : Result ℤ → Type 0
IsIntOrEnds call = Ends InInt call

in_range-IsInt : (neg : Bool) (n : ℕ) → IsIntOrEnds (in_range neg n)
unfolding in_range
in_range-IsInt false n = elim (Bool-cases (ltb n (2 ^ 31))) [
  | inl small ↦ rw small (ltb→lt n (2 ^ 31) small)
  | inr large ↦ rw large refl
]
in_range-IsInt true zero = omega arith
in_range-IsInt true (suc n) = elim (Bool-cases (ltb n (2 ^ 31))) [
  | inl small ↦ rw small (ltb→lt n (2 ^ 31) small)
  | inr large ↦ rw large refl
]

read_digits-IsInt : (neg : Bool) (s : Bytes) → IsIntOrEnds (read_digits neg s)
unfolding read_digits
read_digits-IsInt neg [] = refl
read_digits-IsInt neg (c ∷ s) = elim (Bool-cases (is_digit c)) [
  | inl digit ↦ rw digit (in_range-IsInt neg (scan (c ∷ s) 0))
  | inr other ↦ rw other refl
]

read_signed-IsInt : (s : Bytes) → IsIntOrEnds (read_signed s)
unfolding read_signed
read_signed-IsInt [] = refl
read_signed-IsInt (c ∷ s) = elim (Bool-cases (c == b'-')) [
  | inl minus ↦ rw minus (read_digits-IsInt true s)
  | inr other ↦ rw other (elim (Bool-cases (c == b'+')) [
    | inl plus ↦ rw plus (read_digits-IsInt false s)
    | inr digits ↦ rw digits (read_digits-IsInt false (c ∷ s))
  ])
]

pub stoi-InInt : (s : Bytes) → Ends InInt (stoi s)
unfolding stoi
stoi-InInt s = read_signed-IsInt (skip_spaces s)
