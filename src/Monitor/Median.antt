-- ===== src/Monitor/Median.antt =====
-- main.go: the P50 delay of summarizeOneSyscall is the median.
use mathlib.Core.List.{Perm}
use syscap.Base.{
  ℕ, zero, suc, ◌+◌, ◌-◌, ◌*◌, ◌/◌, ◌%◌, ◌^◌, ◌≤◌, ◌<◌, true, false, List, [], ◌∷◌, ◌++◌, ◌==◌,
  nat_eq, ◌≡◌, refl, sym, ap, subst, ◌∙◌, inl, inr, arith, Bool-cases, length, get_or, take, drop,
  take_append_drop, length-take-drop, drop_step, All, All-get_or, ℤ, pos, negsuc, int_le, add_int64,
  half_int64, IsSorted, sort_by-perm, sort_by-All, length-sort_by, eqb_iff,
}
use syscap.Monitor.Percentiles.{sort_delays-IsSorted, percentiles-with_percentiles}
use syscap.Monitor.Statistics.{StatisticalRes, sort_delays, p50, summarize}

-- A delay of less than 2^62 nanoseconds (146 years), and not negative.
abbrev pub IsSmall : ℤ → Type 0
IsSmall (pos n) = n < 2 ^ 62
IsSmall (negsuc n) = ⊥

-- The median of some delays, in whatever order they stand: the one with as many others below it as
-- above it, or half the sum, rounded down, of the two that have as many below the one as above
-- the other.
pub data IsMedian (ds : List ℤ) (m : ℤ) : Type 0 where
  one_middle :
      (low high : List ℤ)
      → Perm (low ++ m ∷ high) ds
      → length low ≡ length high
      → All (λ d. int_le d m ≡ true) low
      → All (λ d. int_le m d ≡ true) high
      → IsMedian ds m
  two_middle :
      (low : List ℤ) (a b : ℕ) (high : List ℤ)
      → Perm (low ++ (pos a ∷ (pos b ∷ high))) ds
      → length low ≡ length high
      → All (λ d. int_le d (pos a) ≡ true) low
      → a ≤ b
      → All (λ d. int_le (pos b) d ≡ true) high
      → m ≡ pos ((a + b) / 2)
      → IsMedian ds m

All-take :
    (ds : List ℤ) (i : ℕ)
    → IsSorted int_le ds
    → i < length ds
    → All (λ d. int_le d (get_or ds i (pos 0)) ≡ true) (take i ds)
All-take [] i s h = absurd (omega arith)
All-take (d ∷ ds) zero s h = tt
All-take (d ∷ ds) (suc i) (below, s) h = (
  All-get_or (λ y. int_le d y ≡ true) ds i (pos 0) below (omega arith),
  All-take ds i s (omega arith),
)

All-drop :
    (ds : List ℤ) (i : ℕ)
    → IsSorted int_le ds
    → i < length ds
    → All (λ d. int_le (get_or ds i (pos 0)) d ≡ true) (drop (suc i) ds)
All-drop [] i s h = absurd (omega arith)
All-drop (d ∷ ds) zero (below, s) h = below
All-drop (d ∷ ds) (suc i) (below, s) h = All-drop ds i s (omega arith)

mean_small :
    (a b : ℕ) → a < 2 ^ 62 → b < 2 ^ 62 → half_int64 (add_int64 (pos a) (pos b)) ≡ pos ((a + b) / 2)
unfolding half_int64 add_int64
mean_small a b h k = ground arith

as_natural : (d : ℤ) → IsSmall d → (n : ℕ) × (d ≡ pos n) × (n < 2 ^ 62)
as_natural (pos n) h = (n, refl, h)
as_natural (negsuc n) h = elim h [ ]

pos_le : (a b : ℕ) → int_le (pos a) (pos b) ≡ true → a ≤ b
pos_le a b h = ground arith

remainder_one : (n : ℕ) → (n % 2 == 0) ≡ false → n % 2 ≡ 1
remainder_one n h = ground arith

module _ (ds delays : List ℤ) (sorted : IsSorted int_le ds) (same : Perm ds delays) where
  one_between : length ds % 2 ≡ 1 → IsMedian delays (get_or ds (length ds / 2) (pos 0))
  one_between half =
      let i = length ds / 2 in
      let inside : i < length ds = omega (arith, half) in
      let whole : take i ds ++ (get_or ds i (pos 0) ∷ drop (suc i) ds) ≡ ds =
        ap (λ rest. take i ds ++ rest) (sym (drop_step i ds (pos 0) inside))
        ∙ take_append_drop i ds in
      IsMedian.one_middle (take i ds) (drop (suc i) ds)
        (subst (λ l. Perm l delays) (sym whole) same)
        (omega (
          arith,
          half,
          (length-take-drop i ds (omega (arith, inside))).0,
          (length-take-drop (suc i) ds (omega (arith, inside))).1,
        ))
        (All-take ds i sorted inside) (All-drop ds i sorted inside)

  two_between :
      (i : ℕ)
      → length ds ≡ 2 * suc i
      → All IsSmall ds
      → IsMedian delays (half_int64 (add_int64 (get_or ds i (pos 0)) (get_or ds (suc i) (pos 0))))
  two_between i len small =
      let first : i < length ds = omega (arith, len) in
      let second : suc i < length ds = omega (arith, len) in
      let (a, is_a, small_a) =
        as_natural (get_or ds i (pos 0)) (All-get_or IsSmall ds i (pos 0) small first) in
      let (b, is_b, small_b) =
        as_natural (get_or ds (suc i) (pos 0))
          (All-get_or IsSmall ds (suc i) (pos 0) small second) in
      let rest : drop (suc i) ds ≡ pos b ∷ drop (suc (suc i)) ds =
        drop_step (suc i) ds (pos 0) second ∙ ap (λ d. d ∷ drop (suc (suc i)) ds) is_b in
      let middle : drop i ds ≡ pos a ∷ (pos b ∷ drop (suc (suc i)) ds) =
        drop_step i ds (pos 0) first
        ∙ ap (λ d. d ∷ drop (suc i) ds) is_a
        ∙ ap (λ l. pos a ∷ l) rest in
      let whole : take i ds ++ (pos a ∷ (pos b ∷ drop (suc (suc i)) ds)) ≡ ds =
        ap (λ l. take i ds ++ l) (sym middle) ∙ take_append_drop i ds in
      let above =
        subst (λ d. All (λ e. int_le d e ≡ true) (drop (suc i) ds)) is_a
          (All-drop ds i sorted first) in
      let le = pos_le a b (subst (All (λ e. int_le (pos a) e ≡ true)) rest above).0 in
      IsMedian.two_middle (take i ds) a b (drop (suc (suc i)) ds)
        (subst (λ l. Perm l delays) (sym whole) same)
        (omega (
          arith,
          len,
          (length-take-drop i ds (omega (arith, first))).0,
          (length-take-drop (suc (suc i)) ds (omega (arith, second))).1,
        ))
        (subst (λ d. All (λ e. int_le e d ≡ true) (take i ds)) is_a (All-take ds i sorted first)) le
        (subst (λ d. All (λ e. int_le d e ≡ true) (drop (suc (suc i)) ds)) is_b
          (All-drop ds (suc i) sorted second))
        (rw (is_a, is_b) (mean_small a b small_a small_b))

  p50-IsMedian : 0 < length ds → All IsSmall ds → IsMedian delays (p50 ds)
  unfolding p50
  p50-IsMedian some_delay small = elim (Bool-cases (length ds % 2 == 0)) [
    | inl even ↦
        let half = (eqb_iff (length ds % 2) 0).0 even in
        let next : length ds / 2 ≡ suc (length ds / 2 - 1) = omega (arith, half, some_delay) in
        rw even (
          subst
            (λ j. IsMedian delays (
              half_int64 (add_int64 (get_or ds (length ds / 2 - 1) (pos 0)) (get_or ds j (pos 0)))))
            (sym next) (two_between (length ds / 2 - 1) (omega (arith, half, some_delay)) small))
    | inr odd ↦ rw odd (one_between (remainder_one (length ds) odd))
  ]

-- For a syscall with at least one delay, none of them negative or of 2^62 nanoseconds or more, the
-- P50 delay that summarizeOneSyscall sets is the median of the delays in whatever order they came:
-- for an odd number of delays, one that stands between two halves of equal length, and for an even
-- number half the sum, rounded down, of the two that do.
pub summarize_p50 :
    (res : StatisticalRes)
    → 0 < length res.delays
    → All IsSmall res.delays
    → IsMedian res.delays (summarize res).p50_delay
unfolding summarize
summarize_p50 res h small =
    let ds = sort_delays res.delays in
    let some_delay : 0 < length ds = omega (arith, length-sort_by int_le res.delays) in
    rw ((percentiles-with_percentiles res ds some_delay).0) (
      p50-IsMedian ds res.delays (sort_delays-IsSorted res.delays) (sort_by-perm int_le res.delays)
        some_delay (sort_by-All int_le IsSmall res.delays small))
