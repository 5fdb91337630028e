-- ===== src/Risk/Rate.antt =====
-- risk.go: the rate of failures of checkFailingTooMuch, in float64.
pub mod Laws
use syscap.Base.{ℕ, zero, suc, ◌+◌, ◌*◌, ◌/◌, ◌%◌, ◌^◌, Bool, if◌then◌else◌, ltb, leb, ◌==◌, nat_eq}

-- A float64 that is not negative: mantissa / 2 ^ scale.
pub record Float64 : Type 0 where
  pub mantissa : ℕ
  pub scale : ℕ

-- n / d to the nearest whole number, and to the even one half-way.
unfoldable pub round_half_even : ℕ → ℕ → ℕ
round_half_even n d =
    let q = n / d in
    let r = n % d in if ltb (2 * r) d then q else if ltb d (2 * r) then q + 1 else q + q % 2

-- n / (d * 2 ^ scale), with 53 bits of n / d: n is doubled until there are as many.
unfoldable pub normalize : ℕ → ℕ → ℕ → ℕ → Float64
normalize zero n d scale = record { mantissa = round_half_even n d; scale = scale }
normalize (suc fuel) n d scale =
    let doubled = normalize fuel (2 * n) d (suc scale) in
    if leb (2 ^ 52 * d) n then record { mantissa = round_half_even n d; scale = scale } else doubled

-- The quotient of two float64 that are the whole numbers n and d, both below 2^53. With 128 rounds
-- there are 53 bits of every quotient that is not 0.
unfoldable pub quotient : ℕ → ℕ → Float64
unfolding normalize round_half_even
quotient zero d = record { mantissa = 0; scale = 0 }
quotient (suc n) d = normalize 128 (suc n) d 0

unfoldable pub float_lt : Float64 → Float64 → Bool
float_lt x y = ltb (x.mantissa * 2 ^ y.scale) (y.mantissa * 2 ^ x.scale)

-- The constant 0.4 as a float64.
unfoldable pub failing_rate_ceil : Float64
unfolding quotient
failing_rate_ceil = quotient 4 10

-- `float64(failed)/float64(called) < failingRateCeil`
unfoldable pub rate_below_ceil : ℕ → ℕ → Bool
unfolding quotient float_lt failing_rate_ceil
rate_below_ceil failed called = float_lt (quotient failed called) failing_rate_ceil
