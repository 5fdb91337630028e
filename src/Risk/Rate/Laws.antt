-- ===== src/Risk/Rate/Laws.antt =====
-- risk.go: on counts below 2^50 the rounded test is the exact one.
use native.Mathlib.Nat.{div-add-mod, mod-lt, mul-le-mul_left, pow-le-pow_right, two-pow-succ}
use syscap.Base.{
  ℕ, zero, suc, ◌+◌, ◌-◌, ◌*◌, ◌/◌, ◌%◌, ◌^◌, ◌≤◌, ◌<◌, true, false, ltb, leb, leb→le, ◌==◌, nat_eq,
  eqb_iff, ◌≡◌, ◌↔◌, refl, sym, ap, ◌∙◌, inl, inr, ◌⊎◌, arith, Bool-cases,
}
use syscap.Risk.Rate.{
  Float64, round_half_even, normalize, quotient, float_lt, failing_rate_ceil, rate_below_ceil,
}

failing_rate_ceil_lem : failing_rate_ceil ≡ record { mantissa = 7205759403792794; scale = 54 }
unfolding failing_rate_ceil quotient normalize round_half_even
failing_rate_ceil_lem = refl

rounded_down :
    (n d q r : ℕ)
    → d * q + r ≡ n
    → 2 * r ≤ d
    → (2 * (d * q) ≤ 2 * n + d) × (2 * n ≤ 2 * (d * q) + d)
rounded_down n d q r e h = (omega arith, omega arith)

rounded_up :
    (n d q r : ℕ)
    → d * q + r ≡ n
    → d ≤ 2 * r
    → r < d
    → (2 * (d * (q + 1)) ≤ 2 * n + d) × (2 * n ≤ 2 * (d * (q + 1)) + d)
rounded_up n d q r e h small =
    let more : d * (q + 1) ≡ d * q + d = omega arith in (omega (arith, more), omega (arith, more))

even_or_odd : (q : ℕ) → (q + q % 2 ≡ q) ⊎ (q + q % 2 ≡ q + 1)
even_or_odd q = elim (Bool-cases (q % 2 == 0)) [
  | inl even ↦ inl (omega (arith, (eqb_iff (q % 2) 0).0 even))
  | inr odd ↦ inr (ground arith)
]

le_of_ltb : (a b : ℕ) → ltb a b ≡ true → a ≤ b
le_of_ltb a b h = ground arith

ge_of_ltb : (a b : ℕ) → ltb a b ≡ false → b ≤ a
ge_of_ltb a b h = ground arith

gt_of_leb : (a b : ℕ) → leb a b ≡ false → b < a
gt_of_leb a b h = ground arith

same_float :
    {m n s t : ℕ}
    → m ≡ n
    → s ≡ t
    → ◌≡◌ {A = Float64} (record { mantissa = m; scale = s }) (record { mantissa = n; scale = t })
same_float p q = λ i. record { mantissa = p i; scale = q i }

-- The rounded quotient is at most one half away.
round_half_even_near :
    (n d : ℕ)
    → 0 < d
    → (2 * (d * round_half_even n d) ≤ 2 * n + d) × (2 * n ≤ 2 * (d * round_half_even n d) + d)
unfolding round_half_even
round_half_even_near n d h =
    let q = n / d in
    let r = n % d in
    let e : d * q + r ≡ n = div-add-mod n d in
    let small : r < d = mod-lt n h in
    elim (Bool-cases (ltb (2 * r) d)) [
      | inl low ↦ rw low (rounded_down n d q r e (le_of_ltb (2 * r) d low))
      | inr not_low ↦ elim (Bool-cases (ltb d (2 * r))) [
        | inl high ↦ rw not_low (rw high (rounded_up n d q r e (le_of_ltb d (2 * r) high) small))
        | inr half ↦ elim (even_or_odd q) [
          | inl even ↦
              rw not_low (rw half (rw even (rounded_down n d q r e (ge_of_ltb d (2 * r) half))))
          | inr odd ↦
              rw not_low
                (rw half (rw odd (rounded_up n d q r e (ge_of_ltb (2 * r) d not_low) small)))
        ]
      ]
    ]

doubled_power : (n k : ℕ) → 2 * n * 2 ^ k ≡ n * 2 ^ suc k
doubled_power n k = rw (two-pow-succ k) (omega arith)

-- What the doubling ends with.
normalize_ends :
    (fuel n d scale : ℕ)
    → 2 ^ 52 * d ≤ n * 2 ^ fuel
    → n < 2 ^ 53 * d
    → (k : ℕ) × (normalize fuel n d scale
        ≡ record { mantissa = round_half_even (n * 2 ^ k) d; scale = scale + k })
      × (2 ^ 52 * d ≤ n * 2 ^ k)
      × (n * 2 ^ k < 2 ^ 53 * d)
unfolding normalize
normalize_ends zero n d scale enough below = (
  0,
  same_float (ap (λ t. round_half_even t d) (omega arith)) (omega arith),
  omega (arith, enough),
  omega (arith, below),
)
normalize_ends (suc fuel) n d scale enough below = elim (Bool-cases (leb (2 ^ 52 * d) n)) [
  | inl full ↦ (
    0,
    rw full (same_float (ap (λ t. round_half_even t d) (omega arith)) (omega arith)),
    omega (arith, leb→le (2 ^ 52 * d) n full),
    omega (arith, below),
  )
  | inr few ↦
      let (k, e, at_least, at_most) =
        normalize_ends fuel (2 * n) d (suc scale) (omega (arith, enough, doubled_power n fuel))
          (omega (arith, gt_of_leb (2 ^ 52 * d) n few)) in
      (
        suc k,
        rw few (e ∙ same_float (ap (λ t. round_half_even t d) (doubled_power n k)) (omega arith)),
        omega (arith, at_least, doubled_power n k),
        omega (arith, at_most, doubled_power n k),
      )
]

abbrev ceil : ℕ
ceil = 7205759403792794

ltb_iff : (a b : ℕ) → (ltb a b ≡ true) ↔ (a < b)
ltb_iff a b = (λ h. ground arith, λ h. ground arith)

ltb-false : (a b : ℕ) → b ≤ a → ltb a b ≡ false
ltb-false a b h = ground arith

-- The counts, and what the doubling and the rounding leave: p is the power of two, m the mantissa.
module _ (a d m p : ℕ) (some_calls : 0 < d) (few_calls : d < 2 ^ 50)
    (from_above : 2 * (d * m) ≤ 2 * (a * p) + d) (from_below : 2 * (a * p) ≤ 2 * (d * m) + d)
    (at_least : 2 ^ 52 * d ≤ a * p) (at_most : a * p < 2 ^ 53 * d) where
  same_scale : p ≡ 2 ^ 54 → ltb (m * 2 ^ 54) (ceil * p) ≡ ltb (5 * a) (2 * d)
  same_scale same =
      let quarter : a * p ≡ a * 2 ^ 54 = ap (λ t. a * t) same in
      let scaled : ceil * p ≡ ceil * 2 ^ 54 = ap (λ t. ceil * t) same in
      elim (Bool-cases (ltb m ceil)) [
        | inl below ↦
            let step : d * m ≤ d * (ceil - 1) =
              mul-le-mul_left d (omega (arith, (ltb_iff m ceil).0 below)) in
            (ltb_iff (m * 2 ^ 54) (ceil * p)).1 (omega (arith, scaled, (ltb_iff m ceil).0 below))
            ∙ sym (
                (ltb_iff (5 * a) (2 * d)).1
                  (omega (arith, step, quarter, from_below, few_calls, some_calls)))
        | inr reached ↦
            let step : d * ceil ≤ d * m = mul-le-mul_left d (ge_of_ltb m ceil reached) in
            ltb-false (m * 2 ^ 54) (ceil * p) (omega (arith, scaled, ge_of_ltb m ceil reached))
            ∙ sym (
                ltb-false (5 * a) (2 * d)
                  (omega (arith, step, quarter, from_above, few_calls, some_calls)))
      ]

  larger_scale : 2 ^ 55 ≤ p → ltb (m * 2 ^ 54) (ceil * p) ≡ ltb (5 * a) (2 * d)
  larger_scale large =
      let scaled : a * 2 ^ 55 ≤ a * p = mul-le-mul_left a large in
      elim (Bool-cases (ltb (2 ^ 53) m)) [
        | inl over ↦
            let step : d * (2 ^ 53 + 1) ≤ d * m =
              mul-le-mul_left d (omega (arith, (ltb_iff (2 ^ 53) m).0 over)) in
            absurd (omega (arith, step, from_above, at_most, some_calls))
        | inr fits ↦
            (ltb_iff (m * 2 ^ 54) (ceil * p)).1 (omega (arith, large, ge_of_ltb (2 ^ 53) m fits))
            ∙ sym ((ltb_iff (5 * a) (2 * d)).1 (omega (arith, scaled, at_most, some_calls)))
      ]

  smaller_scale : p ≤ 2 ^ 53 → ltb (m * 2 ^ 54) (ceil * p) ≡ ltb (5 * a) (2 * d)
  smaller_scale small =
      let scaled : a * p ≤ a * 2 ^ 53 = mul-le-mul_left a small in
      elim (Bool-cases (ltb m (2 ^ 52))) [
        | inl under ↦
            let step : d * m ≤ d * (2 ^ 52 - 1) =
              mul-le-mul_left d (omega (arith, (ltb_iff m (2 ^ 52)).0 under)) in
            absurd (omega (arith, step, from_below, at_least, some_calls))
        | inr fits ↦
            ltb-false (m * 2 ^ 54) (ceil * p) (omega (arith, small, ge_of_ltb m (2 ^ 52) fits))
            ∙ sym (ltb-false (5 * a) (2 * d) (omega (arith, scaled, at_least, some_calls)))
      ]

scaled_exact :
    (a d m k : ℕ)
    → 0 < d
    → d < 2 ^ 50
    → 2 * (d * m) ≤ 2 * (a * 2 ^ k) + d
    → 2 * (a * 2 ^ k) ≤ 2 * (d * m) + d
    → 2 ^ 52 * d ≤ a * 2 ^ k
    → a * 2 ^ k < 2 ^ 53 * d
    → ltb (m * 2 ^ 54) (ceil * 2 ^ k) ≡ ltb (5 * a) (2 * d)
scaled_exact a d m k h i above below at_least at_most = elim (Bool-cases (ltb k 54)) [
  | inl under ↦
      smaller_scale a d m (2 ^ k) h i above below at_least at_most
        (pow-le-pow_right (omega arith) {i = k} {j = 53} (omega (arith, (ltb_iff k 54).0 under)))
  | inr reached ↦ elim (Bool-cases (ltb 54 k)) [
    | inl over ↦
        larger_scale a d m (2 ^ k) h i above below at_least at_most
          (pow-le-pow_right (omega arith) {i = 55} {j = k} (omega (arith, (ltb_iff 54 k).0 over)))
    | inr fits ↦ same_scale a d m (2 ^ k) h i above below at_least at_most (
        ap (λ t. 2 ^ t) {x = k} {y = 54}
          (omega (arith, ge_of_ltb k 54 reached, ge_of_ltb 54 k fits)))
  ]
]

-- Below 2^50 calls, of which at least one, the rounded quotient is below the rounded 0.4 exactly when
-- the counts stand in a ratio below 2 to 5.
pub rate_below_ceil_exact :
    (failed called : ℕ)
    → failed < 2 ^ 50
    → 0 < called
    → called < 2 ^ 50
    → rate_below_ceil failed called ≡ ltb (5 * failed) (2 * called)
unfolding rate_below_ceil float_lt quotient
rate_below_ceil_exact zero called h i j =
    ap (float_lt (record { mantissa = 0; scale = 0 })) failing_rate_ceil_lem
    ∙ sym ((ltb_iff 0 (2 * called)).1 (omega (arith, i)))
rate_below_ceil_exact (suc n) called h i j =
    let (k, e, at_least, at_most) =
      normalize_ends 128 (suc n) called 0 (omega arith) (omega arith) in
    let m = round_half_even (suc n * 2 ^ k) called in
    let (above, below) = round_half_even_near (suc n * 2 ^ k) called i in
    ap (float_lt (normalize 128 (suc n) called 0)) failing_rate_ceil_lem
    ∙ ap (λ x. float_lt x (record { mantissa = ceil; scale = 54 }))
        (e ∙ same_float refl (omega arith))
    ∙ scaled_exact (suc n) called m k i j above below at_least at_most
