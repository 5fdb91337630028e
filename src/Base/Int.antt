-- ===== src/Base/Int.antt =====
-- Signed machine integers. The library's ℤ stands on another ℕ.
use Prim.Native.Nat.{ℕ, suc, ◌+◌, ◌-◌, ◌/◌, ◌%◌, ◌^◌}
use mathlib.Core.Bool.{Bool, true, false}
use mathlib.Core.List.{◌∷◌}
use mathlib.Core.Logic.{◌↔◌}
use mathlib.Core.Path.{◌≡◌}
use native.Mathlib.Omega.{arith}
use syscap.Base.Tests.{if◌then◌else◌, ltb, leb, eqb, Eq}
use syscap.Base.Text.{Bytes, decimal}

-- `negsuc n` is -(n + 1).
pub data ℤ : Type 0 where
  pos : ℕ → ℤ
  negsuc : ℕ → ℤ

abbrev pub int_eq : ℤ → ℤ → Bool
int_eq (pos a) (pos b) = eqb a b
int_eq (negsuc a) (negsuc b) = eqb a b
int_eq _ _ = false

pub int_eq_iff : (a b : ℤ) → (int_eq a b ≡ true) ↔ (a ≡ b)
int_eq_iff (pos a) b = ground arith
int_eq_iff (negsuc a) b = ground arith

instance abbrev pub int_has_eq : Eq ℤ
int_has_eq = record { equal = int_eq; equal_iff = int_eq_iff }

abbrev pub int_le : ℤ → ℤ → Bool
int_le (pos a) (pos b) = leb a b
int_le (pos a) (negsuc b) = false
int_le (negsuc a) (pos b) = true
int_le (negsuc a) (negsuc b) = leb b a

abbrev pub int_lt : ℤ → ℤ → Bool
int_lt (pos a) (pos b) = ltb a b
int_lt (pos a) (negsuc b) = false
int_lt (negsuc a) (pos b) = true
int_lt (negsuc a) (negsuc b) = ltb b a

pub int_le_total : (a b : ℤ) → int_le a b ≡ false → int_le b a ≡ true
int_le_total (pos a) b h = ground arith
int_le_total (negsuc a) b h = ground arith

pub int_le_trans : (a b c : ℤ) → int_le a b ≡ true → int_le b c ≡ true → int_le a c ≡ true
int_le_trans (pos a) b c h k = ground arith
int_le_trans (negsuc a) b c h k = ground arith

-- The uint64 difference of two uint64 values.
unfoldable pub sub_u64 : ℕ → ℕ → ℕ
sub_u64 a b = (a + 2 ^ 64 - b) % 2 ^ 64

-- The int64 with the bits of a uint64, and back.
unfoldable pub to_int64 : ℕ → ℤ
to_int64 n = if ltb n (2 ^ 63) then pos n else negsuc (2 ^ 64 - 1 - n)

unfoldable pub to_u64 : ℤ → ℕ
to_u64 (pos n) = n
to_u64 (negsuc n) = 2 ^ 64 - 1 - n

-- int64 addition wraps around.
unfoldable pub add_int64 : ℤ → ℤ → ℤ
unfolding to_int64 to_u64
add_int64 a b = to_int64 ((to_u64 a + to_u64 b) % 2 ^ 64)

-- `x / 2` drops the fraction towards 0.
unfoldable pub half_int64 : ℤ → ℤ
half_int64 (pos n) = pos (n / 2)
half_int64 (negsuc n) = if leb 1 n then negsuc ((n + 1) / 2 - 1) else pos 0

-- `%d`
unfoldable pub signed_decimal : ℤ → Bytes
unfolding decimal
signed_decimal (pos n) = decimal n
signed_decimal (negsuc n) = b'-' ∷ decimal (suc n)
