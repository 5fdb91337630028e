-- ===== src/Monitor/Percentiles.antt =====
-- main.go: summarizeOneSyscall.
use mathlib.Core.List.{Perm}
use syscap.Base.{
  ℕ, zero, suc, ◌*◌, ◌/◌, ◌<◌, true, List, [], ◌∷◌, nat_eq, ◌≡◌, refl, ap, arith, length, get_or,
  keep, All-get_or, ℤ, pos, negsuc, int_le, int_le_total, int_le_trans, sort_by, IsSorted,
  sort_by-IsSorted, sort_by-perm, sort_by-IsSorted_self, length-sort_by,
}
use syscap.Monitor.Statistics.{StatisticalRes, sort_delays, p50, p99, with_percentiles, summarize}

pub sort_delays-IsSorted : (ds : List ℤ) → IsSorted int_le (sort_delays ds)
sort_delays-IsSorted = sort_by-IsSorted int_le int_le_total int_le_trans

delays-with_percentiles :
    (res : StatisticalRes) (ds : List ℤ) → (with_percentiles res ds).delays ≡ ds
unfolding with_percentiles
delays-with_percentiles res [] = refl
delays-with_percentiles res (d ∷ ds) = refl

-- summarizeOneSyscall leaves the delays of a syscall ascending and a rearrangement of what they
-- were, and its counters as they were.
pub summarize_sorts :
    (res : StatisticalRes)
    → IsSorted int_le (summarize res).delays
      × Perm (summarize res).delays res.delays
      × ((summarize res).called_count ≡ res.called_count)
      × ((summarize res).failed_count ≡ res.failed_count)
unfolding summarize
summarize_sorts res =
    let ds = sort_delays res.delays in
    rw (delays-with_percentiles res ds) (
      sort_delays-IsSorted res.delays,
      sort_by-perm int_le res.delays,
      same_called ds,
      same_failed ds,
    )
  where
    same_called : (ds : List ℤ) → (with_percentiles res ds).called_count ≡ res.called_count
    same_called [] = unfold with_percentiles in refl
    same_called (d ∷ ds) = unfold with_percentiles in refl

    same_failed : (ds : List ℤ) → (with_percentiles res ds).failed_count ≡ res.failed_count
    same_failed [] = unfold with_percentiles in refl
    same_failed (d ∷ ds) = unfold with_percentiles in refl

with_percentiles_again :
    (res : StatisticalRes) (ds : List ℤ)
    → IsSorted int_le ds
    → summarize (with_percentiles res ds) ≡ with_percentiles res ds
unfolding summarize with_percentiles sort_by
with_percentiles_again res [] h = refl
with_percentiles_again res (d ∷ ds) h =
    ap (with_percentiles (with_percentiles res (d ∷ ds))) (sort_by-IsSorted_self int_le (d ∷ ds) h)

-- A second summary of a syscall changes nothing.
pub summarize_idem : (res : StatisticalRes) → summarize (summarize res) ≡ summarize res
unfolding summarize
summarize_idem res =
    with_percentiles_again res (sort_delays res.delays) (sort_delays-IsSorted res.delays)

pub int_le_refl : (a : ℤ) → int_le a a ≡ true
int_le_refl (pos n) = ground arith
int_le_refl (negsuc n) = ground arith

-- In an ascending list, what stands up to place `i` is at most what stands there.
rank-get_or :
    (ds : List ℤ) (i : ℕ)
    → IsSorted int_le ds
    → i < length ds
    → i < length (keep (λ d. int_le d (get_or ds i (pos 0))) ds)
rank-get_or [] i s h = absurd (omega arith)
rank-get_or (d ∷ ds) zero s h = rw (int_le_refl d) (omega arith)
rank-get_or (d ∷ ds) (suc i) (below, s) h =
    rw (All-get_or (λ y. int_le d y ≡ true) ds i (pos 0) below (omega arith))
      (omega (arith, rank-get_or ds i s (omega arith)))

p99_covers :
    (ds : List ℤ)
    → IsSorted int_le ds
    → 0 < length ds
    → 99 * length ds < 100 * length (keep (λ d. int_le d (p99 ds)) ds)
unfolding p99
p99_covers ds s h = omega (arith, rank-get_or ds (99 * length ds / 100) s (omega arith))

pub percentiles-with_percentiles :
    (res : StatisticalRes) (ds : List ℤ)
    → 0 < length ds
    → ((with_percentiles res ds).p50_delay ≡ p50 ds)
      × ((with_percentiles res ds).p99_delay ≡ p99 ds)
unfolding with_percentiles
percentiles-with_percentiles res [] h = absurd (omega arith)
percentiles-with_percentiles res (d ∷ ds) h = (refl, refl)

-- For a syscall with at least one delay, more than 99 in a hundred of its delays are at most the
-- P99 delay that summarizeOneSyscall sets.
pub summarize_p99 :
    (res : StatisticalRes)
    → 0 < length res.delays
    → 99 * length (summarize res).delays
      < 100 * length (keep (λ d. int_le d (summarize res).p99_delay) (summarize res).delays)
unfolding summarize
summarize_p99 res h =
    let ds = sort_delays res.delays in
    let some_delay : 0 < length ds = omega (arith, length-sort_by int_le res.delays) in
    rw (delays-with_percentiles res ds) (
      rw ((percentiles-with_percentiles res ds some_delay).1)
        (p99_covers ds (sort_delays-IsSorted res.delays) some_delay))
