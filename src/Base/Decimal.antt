-- ===== src/Base/Decimal.antt =====
-- strconv.FormatUint: a decimal number has digits only.
use Prim.Native.Nat.{ℕ, zero, suc, ◌/◌, ◌%◌, ◌<◌}
use mathlib.Core.Bool.{Bool, true, ◌&&◌}
use mathlib.Core.List.{[]}
use mathlib.Core.Logic.{inl, inr}
use mathlib.Core.Path.{◌≡◌}
use native.Mathlib.Omega.{arith}
use syscap.Base.Lists.{All}
use syscap.Base.Tests.{ltb, leb, Bool-cases}
use syscap.Base.Text.{Bytes, digit, print_digits, decimal}

abbrev pub is_digit : ℕ → Bool
is_digit c = leb b'0' c && leb c b'9'

abbrev pub Digits : Bytes → Type 0
Digits = All (λ c. is_digit c ≡ true)

pub digit-is_digit : (d : ℕ) → d < 10 → is_digit (digit d) ≡ true
unfolding digit
digit-is_digit d h = ground arith

print_digits-Digits :
    (fuel n : ℕ) (rest : Bytes) → Digits rest → Digits (print_digits 10 fuel n rest)
unfolding print_digits
print_digits-Digits zero n rest h = h
print_digits-Digits (suc fuel) n rest h = elim (Bool-cases (ltb n 10)) [
  | inl last ↦ rw last (digit-is_digit n (ground arith), h)
  | inr more ↦
      rw more (print_digits-Digits fuel (n / 10) _ (digit-is_digit (n % 10) (omega arith), h))
]

pub decimal-Digits : (n : ℕ) → Digits (decimal n)
unfolding decimal
decimal-Digits n = print_digits-Digits (suc n) n [] tt
