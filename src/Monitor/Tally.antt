-- ===== src/Monitor/Tally.antt =====
-- main.go: what the read loop has counted for a syscall after any events.
use mathlib.Core.List.{append-nil, append_assoc}
use native.Mathlib.Nat.{add-zero}
use syscap.Base.{
  ℕ, ◌+◌, Bool, ◌&&◌, List, [], ◌∷◌, ◌++◌, map, some, some_inj, if◌then◌else◌, ◌==◌, nat_eq, ◌≡◌,
  refl, sym, ap, ◌∙◌, inl, inr, arith, Bool-cases, Bytes, length, keep, lookup_or, lookup_or-insert,
  ℤ, pos, int_lt, eqb_iff,
}
use syscap.Event.{Event, duration}
use syscap.Monitor.Loop.{Monitor, started, is_kept, handle_event, handle_events}
use syscap.Monitor.Statistics.{StatisticalRes, no_calls, Statistics, count_event, update_statistics}
use syscap.Monitor.Step.{
  take_event-eq-some, handle_events-cons, handle_event-kept, handle_event-dropped,
}

-- An event that the filter keeps, of this syscall.
abbrev pub counts_for : Bytes → ℕ → Event → Bool
counts_for target id event = is_kept target event && event.syscall_id == id

abbrev pub is_failure : Event → Bool
is_failure event = int_lt (pos 0) event.errno

-- Some events counted on top of a record.
abbrev pub tally : List Event → StatisticalRes → StatisticalRes
tally events res = record res {
  called_count = res.called_count + length events;
  failed_count = res.failed_count + length (keep is_failure events);
  delays = res.delays ++ map duration events;
}

tally-nil : (res : StatisticalRes) → tally [] res ≡ res
tally-nil res = rw (add-zero, add-zero, append-nil)

same_counts :
    (res : StatisticalRes) {c c' f f' : ℕ} {d d' : List ℤ}
    → c ≡ c'
    → f ≡ f'
    → d ≡ d'
    → ◌≡◌ {A = StatisticalRes}
        (record res { called_count = c; failed_count = f; delays = d })
        (record res { called_count = c'; failed_count = f'; delays = d' })
same_counts res p q r = λ i. record res { called_count = p i; failed_count = q i; delays = r i }

tally-cons :
    (event : Event) (events : List Event) (res : StatisticalRes)
    → tally events (count_event event res) ≡ tally (event ∷ events) res
unfolding count_event
tally-cons event events res =
    same_counts res (omega arith) (ground arith)
      (append_assoc res.delays (duration event ∷ []) (map duration events))

update_statistics_lookup :
    (event : Event) (statistics : Statistics) (id : ℕ)
    → lookup_or no_calls id (update_statistics event statistics) ≡ (
        if event.syscall_id == id
        then count_event event (lookup_or no_calls id statistics)
        else lookup_or no_calls id statistics)
unfolding update_statistics
update_statistics_lookup event statistics id =
    lookup_or-insert no_calls event.syscall_id id _ statistics
    ∙ elim (Bool-cases (event.syscall_id == id)) [
      | inl same ↦ rw (same, (eqb_iff event.syscall_id id).0 same)
      | inr other ↦ rw other
    ]

module _ (byte_slice_to_string : Bytes → Bytes) (target : Bytes) (id : ℕ) where
  -- One round.
  handle_event_counts :
      (event : Event) (m : Monitor) {m' : Monitor}
      → handle_event byte_slice_to_string target event m ≡ some m'
      → lookup_or no_calls id m'.statistics ≡ (
          if counts_for target id event
          then count_event event (lookup_or no_calls id m.statistics)
          else lookup_or no_calls id m.statistics)
  handle_event_counts event m h = elim (Bool-cases (is_kept target event)) [
    | inl kept ↦
        let (text, entry, e, same) =
          take_event-eq-some byte_slice_to_string event m
            (handle_event-kept byte_slice_to_string target event m kept h) in
        rw (same, kept) (update_statistics_lookup event m.statistics id)
    | inr dropped ↦ rw (dropped, handle_event-dropped byte_slice_to_string target event m dropped h)
  ]

  -- The whole loop.
  handle_events-tally :
      (events : List Event) (m : Monitor) {m' : Monitor}
      → handle_events byte_slice_to_string target events m ≡ some m'
      → lookup_or no_calls id m'.statistics
        ≡ tally (keep (counts_for target id) events) (lookup_or no_calls id m.statistics)
  unfolding handle_events
  handle_events-tally [] m h =
      ap (λ (n : Monitor). lookup_or no_calls id n.statistics) (sym (some_inj h))
      ∙ sym (tally-nil (lookup_or no_calls id m.statistics))
  handle_events-tally (event ∷ events) m h =
      let (m₁, one, later) = handle_events-cons byte_slice_to_string target event events m h in
      handle_events-tally events m₁ later ∙ elim (Bool-cases (counts_for target id event)) [
        | inl counted ↦ rw (handle_event_counts event m one, counted) (tally-cons event _ _)
        | inr other ↦ rw (handle_event_counts event m one, other)
      ]

  -- When the read loop has handled some events from the start, the record of a syscall holds the
  -- number of the events of this syscall that the filter keeps, the number of those with a
  -- positive errno, and their durations in the order of arrival; the percentiles are still 0.
  pub handle_events-statistics :
      (events : List Event) {m : Monitor}
      → handle_events byte_slice_to_string target events started ≡ some m
      → let own = keep (counts_for target id) events in
        lookup_or no_calls id m.statistics ≡ record {
          called_count = length own;
          failed_count = length (keep is_failure own);
          delays = map duration own;
          p50_delay = pos 0;
          p99_delay = pos 0;
        }
  handle_events-statistics events h =
      handle_events-tally events started h ∙ same_counts no_calls (omega arith) (omega arith) refl
