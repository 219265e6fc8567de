-- ===== src/Text/Decimal/Digits.antt =====
-- Which bytes a printed number is made of.
use native.Mathlib.Nat.{pow-suc}
use hamang_server.Prelude.{
  InInt, [], arith, false, length, negsuc, pos, refl, suc, zero, ℕ, ℤ, ◌%◌, ◌+◌, ◌/◌, ◌<◌, ◌^◌, ◌∷◌,
  ◌≡◌, ◌≤◌,
}
use hamang_server.Text.{Bytes, Lacks, is_empty}
use hamang_server.Text.Decimal.{digits, emit, to_string}

emit-Lacks : (d f n : ℕ) (out : Bytes) → (d < b'0') → Lacks d out → Lacks d (emit f n out)
unfolding emit
emit-Lacks d zero n out low h = h
emit-Lacks d (suc f) n out low h =
    ground (arith, emit-Lacks d f (n / 10) ((b'0' + n % 10) ∷ out) low)

digits-Lacks : (d n : ℕ) → d < b'0' → Lacks d (digits n)
unfolding digits
digits-Lacks d n low = ground (arith, emit-Lacks d n n [] low)

-- The print of a number has no byte below the digits but a sign.
pub to_string-Lacks : (d : ℕ) (z : ℤ) → d < b'-' → Lacks d (to_string z)
unfolding to_string
to_string-Lacks d (pos n) low = digits-Lacks d n (omega arith)
to_string-Lacks d (negsuc n) low = (omega arith, digits-Lacks d (suc n) (omega arith))

emit-is_empty : (f n : ℕ) (out : Bytes) → is_empty out ≡ false → is_empty (emit f n out) ≡ false
unfolding emit
emit-is_empty zero n out h = h
emit-is_empty (suc f) n out h = ground (arith, emit-is_empty f (n / 10) ((b'0' + n % 10) ∷ out))

digits-is_empty : (n : ℕ) → is_empty (digits n) ≡ false
unfolding digits emit
digits-is_empty zero = refl
digits-is_empty (suc n) = ground (arith, emit-is_empty n (suc n / 10) ((b'0' + suc n % 10) ∷ []))

pub to_string-is_empty : (z : ℤ) → is_empty (to_string z) ≡ false
unfolding to_string
to_string-is_empty (pos n) = digits-is_empty n
to_string-is_empty (negsuc n) = refl

-- A number below 10^k has at most k digits.
length-emit-le : (f k n : ℕ) (out : Bytes) → n < 10 ^ k → length (emit f n out) ≤ k + length out
unfolding emit
length-emit-le zero k n out h = omega arith
length-emit-le (suc f) zero n out h = ground arith
length-emit-le (suc f) (suc k) n out h =
    ground
      (arith, length-emit-le f k (n / 10) ((b'0' + n % 10) ∷ out) (omega (arith, pow-suc 10 k)))

length-digits-le : (n : ℕ) → n ≤ 2 ^ 31 → length (digits n) ≤ 10
unfolding digits
length-digits-le n h = ground (arith, length-emit-le n 10 n [] (omega arith))

-- The print of an `int` is at most eleven bytes long.
pub length-to_string-le : (z : ℤ) → InInt z → length (to_string z) ≤ 11
unfolding to_string
length-to_string-le (pos n) h = omega (arith, length-digits-le n (omega arith))
length-to_string-le (negsuc n) h = omega (arith, length-digits-le (suc n) (omega arith))
