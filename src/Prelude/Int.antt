-- ===== src/Prelude/Int.antt =====
-- `int` and `long long` values: signed integers over the native numbers.
use mathlib.Core.Path.{◌≡◌, refl}
use mathlib.Core.Bool.{Bool, true, false}
use mathlib.Core.Logic.{◌↔◌}
use Prim.Native.Nat.{ℕ, suc, ◌+◌, ◌-◌, ◌^◌, ◌<◌}
use native.Mathlib.Omega.{arith}
use hamang_server.Prelude.Tests.{leb, ◌==◌, if◌then◌else◌}

-- `negsuc n` is -(n + 1).
pub data ℤ : Type 0 where
  pos : ℕ → ℤ
  negsuc : ℕ → ℤ

abbrev pub pos_part : ℤ → ℕ
pos_part (pos n) = n
pos_part (negsuc n) = 0

abbrev pub neg_part : ℤ → ℕ
neg_part (pos n) = 0
neg_part (negsuc n) = suc n

-- a - b, as an integer.
abbrev pub sub_ℕ : ℕ → ℕ → ℤ
sub_ℕ a b = if leb b a then pos (a - b) else negsuc (b - a - 1)

infixl 65 ◌-ℤ◌
unfoldable pub ◌-ℤ◌ : ℤ → ℤ → ℤ
a -ℤ b = sub_ℕ (pos_part a + neg_part b) (neg_part a + pos_part b)

abbrev pub eqz : ℤ → ℤ → Bool
eqz (pos a) (pos b) = a == b
eqz (pos a) (negsuc b) = false
eqz (negsuc a) (pos b) = false
eqz (negsuc a) (negsuc b) = a == b

pub eqz_iff : (a b : ℤ) → (eqz a b ≡ true) ↔ (a ≡ b)
eqz_iff (pos a) (pos b) = ground arith
eqz_iff (pos a) (negsuc b) = ground arith
eqz_iff (negsuc a) (pos b) = ground arith
eqz_iff (negsuc a) (negsuc b) = ground arith

pub eqz_refl : (a : ℤ) → eqz a a ≡ true
eqz_refl a = (eqz_iff a a).1 refl

-- The range of a 32-bit `int`.
abbrev pub InInt : ℤ → Type 0
InInt (pos n) = n < 2 ^ 31
InInt (negsuc n) = n < 2 ^ 31

-- The conversion of an `int` to `unsigned int`: the value modulo 2^32.
abbrev pub to_unsigned : ℤ → ℕ
to_unsigned (pos n) = n
to_unsigned (negsuc n) = 2 ^ 32 - suc n
