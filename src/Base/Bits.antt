-- ===== src/Base/Bits.antt =====
-- Go's `&` and `&^` on unsigned words, at every width. `r &^ v` clears the bits that `r` shares
-- with `v`: all of `bit_and r v` is set in `r`, so the subtraction borrows nothing.
use Prim.Native.Nat.{
  ℕ, zero, suc, ◌+◌, ◌-◌, ◌*◌, ◌/◌, ◌%◌, ◌≤◌, min, bit_and, digits, bit_and-bitwise,
}
use mathlib.Core.Path.{◌≡◌, refl, ◌∙◌}
use native.Mathlib.Nat.{zero-add, suc-add}
use native.Mathlib.Omega.{arith}

unfoldable pub clear : ℕ → ℕ → ℕ
clear r v = r - bit_and r v

-- Induction on the binary digits of a number, the lowest one last.
by_digits_below :
    (P : ℕ → Type 0) → P 0 → ((n : ℕ) → P (n / 2) → P n) → (bound n : ℕ) → n ≤ bound → P n
by_digits_below P base step zero zero h = base
by_digits_below P base step zero (suc n) h = absurd (omega arith)
by_digits_below P base step (suc bound) zero h = base
by_digits_below P base step (suc bound) (suc n) h =
    step (suc n) (by_digits_below P base step bound (suc n / 2) (omega arith))

pub by_digits : (P : ℕ → Type 0) → P 0 → ((n : ℕ) → P (n / 2) → P n) → (n : ℕ) → P n
by_digits P base step n = by_digits_below P base step n n (omega arith)

abbrev common : ℕ → ℕ → ℕ → ℕ
common fuel a b = digits (λ _. 0) min fuel a b

-- More fuel than digits changes nothing.
common-suc_fuel : (fuel a b : ℕ) → a ≤ fuel → common (suc fuel) a b ≡ common fuel a b
common-suc_fuel zero zero b h = refl
common-suc_fuel zero (suc a) b h = absurd (omega arith)
common-suc_fuel (suc fuel) zero b h = refl
common-suc_fuel (suc fuel) (suc a) b h =
    omega (arith, common-suc_fuel fuel (suc a / 2) (b / 2) (omega arith))

common-more_fuel : (extra a b : ℕ) → common (extra + a) a b ≡ common a a b
common-more_fuel zero a b = rw zero-add
common-more_fuel (suc extra) a b =
    rw suc-add (common-suc_fuel (extra + a) a b (omega arith) ∙ common-more_fuel extra a b)

common-fuel : (fuel a b : ℕ) → a ≤ fuel → common fuel a b ≡ common a a b
common-fuel fuel a b h =
    let split : fuel ≡ fuel - a + a = omega arith in ap_fuel split ∙ common-more_fuel (fuel - a) a b
  where
    ap_fuel : fuel ≡ fuel - a + a → common fuel a b ≡ common (fuel - a + a) a b
    ap_fuel e = λ i. common (e i) a b

-- The equation of the lowest digit.
pub and-step : (a b : ℕ) → bit_and a b ≡ bit_and (a / 2) (b / 2) * 2 + min (a % 2) (b % 2)
and-step zero b = omega (arith, bit_and-bitwise 0 b, bit_and-bitwise 0 (b / 2))
and-step (suc a) b = omega (
  arith,
  bit_and-bitwise (suc a) b,
  bit_and-bitwise (suc a / 2) (b / 2),
  common-fuel a (suc a / 2) (b / 2) (omega arith),
)

pub zero-and : (b : ℕ) → bit_and 0 b ≡ 0
zero-and b = bit_and-bitwise 0 b

pub and-le : (a b : ℕ) → bit_and a b ≤ a
and-le =
    by_digits (λ a. (b : ℕ) → bit_and a b ≤ a) (λ b. omega (arith, zero-and b))
      (λ a ih b. omega (arith, and-step a b, ih (b / 2)))

clear-halves :
    (r v : ℕ)
    → (clear r v / 2 ≡ clear (r / 2) (v / 2)) × (clear r v % 2 ≡ r % 2 - min (r % 2) (v % 2))
unfolding clear
clear-halves r v = omega (arith, and-step r v, and-le (r / 2) (v / 2))

clear-zero : (v : ℕ) → clear 0 v ≡ 0
unfolding clear
clear-zero v = omega arith

and-clear_zero : (v : ℕ) → bit_and (clear 0 v) v ≡ 0
and-clear_zero v = rw clear-zero (zero-and v)

and-clear_digit :
    (r v : ℕ) → bit_and (clear (r / 2) (v / 2)) (v / 2) ≡ 0 → bit_and (clear r v) v ≡ 0
and-clear_digit r v ih =
    and-step (clear r v) v ∙ rw ((clear-halves r v).0, ih, (clear-halves r v).1) (omega arith)

and-zero_parts :
    (v w : ℕ) → bit_and v w ≡ 0 → (bit_and (v / 2) (w / 2) ≡ 0) × (min (v % 2) (w % 2) ≡ 0)
and-zero_parts v w h = omega (arith, and-step v w)

-- Clearing `v` leaves no bit of `v`.
pub and-clear : (r v : ℕ) → bit_and (clear r v) v ≡ 0
and-clear =
    by_digits (λ r. (v : ℕ) → bit_and (clear r v) v ≡ 0) (λ v. and-clear_zero v)
      (λ r ih v. and-clear_digit r v (ih (v / 2)))

and-clear_disjoint_digit :
    (r v w : ℕ)
    → bit_and v w ≡ 0
    → (bit_and (v / 2) (w / 2) ≡ 0
        → bit_and (clear (r / 2) (v / 2)) (w / 2) ≡ bit_and (r / 2) (w / 2))
    → bit_and (clear r v) w ≡ bit_and r w
and-clear_disjoint_digit r v w h ih =
    and-step (clear r v) w
    ∙ rw ((clear-halves r v).0, (clear-halves r v).1, ih (and-zero_parts v w h).0)
        (omega (arith, and-step r w, (and-zero_parts v w h).1))

-- Clearing `v` keeps the bits of a disjoint `w`.
pub and-clear_disjoint : (r v w : ℕ) → bit_and v w ≡ 0 → bit_and (clear r v) w ≡ bit_and r w
and-clear_disjoint =
    by_digits (λ r. (v w : ℕ) → bit_and v w ≡ 0 → bit_and (clear r v) w ≡ bit_and r w)
      (λ v w h. rw clear-zero) (λ r ih v w h. and-clear_disjoint_digit r v w h (ih (v / 2) (w / 2)))

and-subset_digit :
    (r v w : ℕ)
    → bit_and v w ≡ w
    → (bit_and (v / 2) (w / 2) ≡ w / 2 → bit_and (clear (r / 2) (v / 2)) (w / 2) ≡ 0)
    → bit_and (clear r v) w ≡ 0
and-subset_digit r v w h ih =
    and-step (clear r v) w
    ∙ rw ((clear-halves r v).0, (clear-halves r v).1, ih (omega (arith, and-step v w)))
        (omega (arith, and-step v w))

-- Clearing `v` clears every part `w` of `v`.
pub and-clear_subset : (r v w : ℕ) → bit_and v w ≡ w → bit_and (clear r v) w ≡ 0
and-clear_subset =
    by_digits (λ r. (v w : ℕ) → bit_and v w ≡ w → bit_and (clear r v) w ≡ 0)
      (λ v w h. rw clear-zero (zero-and w))
      (λ r ih v w h. and-subset_digit r v w h (ih (v / 2) (w / 2)))
