-- ===== src/Text/Decimal/RoundTrip.antt =====
-- Reading a number that was printed gives it back.
use hamang_server.Text.{Bytes}
use hamang_server.Text.Decimal.{
  emit, digits, to_string, is_digit, scan, in_range, read_digits, stoi,
}
use hamang_server.Prelude.{
  ℕ, zero, suc, ◌+◌, ◌/◌, ◌%◌, ◌≤◌, ◌≡◌, refl, Bool, true, false, [], ◌∷◌, arith, ℤ, pos, negsuc,
  InInt, ok,
}

-- Reading the digits that `emit` puts in front of `out` goes on at `out` with the value `n`.
scan-emit : (f n : ℕ) (out : Bytes) → n ≤ f → scan (emit f n out) 0 ≡ scan out n
unfolding emit scan is_digit
scan-emit zero n out h = ground arith
scan-emit (suc f) n out h = ground (arith, scan-emit f (n / 10) ((b'0' + n % 10) ∷ out))

scan-digits : (n : ℕ) → scan (digits n) 0 ≡ n
unfolding digits scan is_digit
scan-digits n = ground (arith, scan-emit n n [])

-- The bytes that `emit` adds are digits.
abbrev StartsWithDigit : Bytes → Type 0
StartsWithDigit [] = ⊥
StartsWithDigit (c ∷ s) = is_digit c ≡ true

emit-StartsWithDigit :
    (f n : ℕ) (out : Bytes) → StartsWithDigit out → StartsWithDigit (emit f n out)
unfolding emit is_digit
emit-StartsWithDigit zero n out h = h
emit-StartsWithDigit (suc f) n out h =
    ground (arith, emit-StartsWithDigit f (n / 10) ((b'0' + n % 10) ∷ out))

digits-StartsWithDigit : (n : ℕ) → StartsWithDigit (digits n)
unfolding digits emit is_digit
digits-StartsWithDigit zero = refl
digits-StartsWithDigit (suc n) =
    ground (arith, emit-StartsWithDigit n (suc n / 10) ((b'0' + suc n % 10) ∷ []))

read_digits_lem :
    (neg : Bool) (s : Bytes) → StartsWithDigit s → read_digits neg s ≡ in_range neg (scan s 0)
unfolding read_digits
read_digits_lem neg [] h = elim h [ ]
read_digits_lem neg (c ∷ s) h = rw h

read_digits-digits : (neg : Bool) (n : ℕ) → read_digits neg (digits n) ≡ in_range neg n
read_digits-digits neg n =
    rw (read_digits_lem neg (digits n) (digits-StartsWithDigit n), scan-digits n)

-- A text that starts with a digit has neither a space nor a sign in front.
stoi-unsigned : (s : Bytes) → StartsWithDigit s → stoi s ≡ read_digits false s
unfolding stoi
stoi-unsigned [] h = elim h [ ]
stoi-unsigned (c ∷ s) h = ground arith

-- For every number in the range of an `int`, `stoi` of what `to_string` prints is that number.
pub stoi-to_string : (z : ℤ) → InInt z → stoi (to_string z) ≡ ok z
unfolding to_string in_range
stoi-to_string (pos n) h =
    rw (stoi-unsigned (digits n) (digits-StartsWithDigit n), read_digits-digits false n)
      (ground arith)
stoi-to_string (negsuc n) h = unfold stoi in rw (read_digits-digits true (suc n)) (ground arith)
