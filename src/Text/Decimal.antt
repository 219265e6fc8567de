-- ===== src/Text/Decimal.antt =====
-- `std::to_string` and `std::stoi`, which the messages write and read their numbers with.
pub mod RoundTrip
pub mod Digits
pub mod Range
use hamang_server.Text.{Bytes}
use hamang_server.Prelude.{
  Bool, Result, [], err, false, if◌then◌else◌, invalid_argument, leb, ltb, negsuc, ok, out_of_range,
  pos, suc, true, zero, ℕ, ℤ, ◌%◌, ◌&&◌, ◌*◌, ◌+◌, ◌-◌, ◌/◌, ◌==◌, ◌^◌, ◌||◌, ◌∷◌,
}

-- The digits of `n` in front of `out`; as many rounds as `n` has digits are needed.
emit : ℕ → ℕ → Bytes → Bytes
emit zero n out = out
emit (suc f) n out =
    let rest = emit f (n / 10) ((b'0' + n % 10) ∷ out) in if n == 0 then out else rest

digits : ℕ → Bytes
digits n = if n == 0 then b'0' ∷ [] else emit n n []

unfoldable pub to_string : ℤ → Bytes
unfolding digits emit
to_string (pos n) = digits n
to_string (negsuc n) = b'-' ∷ digits (suc n)

is_digit : ℕ → Bool
is_digit c = leb b'0' c && leb c b'9'

is_space : ℕ → Bool
is_space c = c == 32 || (leb 9 c && leb c 13)

-- The value of the digits in front; what follows the last digit is not read.
scan : Bytes → ℕ → ℕ
scan [] n = n
scan (c ∷ s) n = if is_digit c then scan s (n * 10 + (c - b'0')) else n

skip_spaces : Bytes → Bytes
skip_spaces [] = []
skip_spaces (c ∷ s) = if is_space c then skip_spaces s else c ∷ s

in_range : Bool → ℕ → Result ℤ
in_range false n = if ltb n (2 ^ 31) then ok (pos n) else err out_of_range
in_range true zero = ok (pos 0)
in_range true (suc n) = if ltb n (2 ^ 31) then ok (negsuc n) else err out_of_range

read_digits : Bool → Bytes → Result ℤ
read_digits neg [] = err invalid_argument
read_digits neg (c ∷ s) = if is_digit c then in_range neg (scan (c ∷ s) 0) else err invalid_argument

read_signed : Bytes → Result ℤ
read_signed [] = err invalid_argument
read_signed (c ∷ s) =
    if c == b'-'
    then read_digits true s
    else if c == b'+'
    then read_digits false s
    else read_digits false (c ∷ s)

unfoldable pub stoi : Bytes → Result ℤ
unfolding is_digit is_space scan skip_spaces in_range read_digits read_signed
stoi s = read_signed (skip_spaces s)
