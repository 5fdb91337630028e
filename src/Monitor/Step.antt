-- ===== src/Monitor/Step.antt =====
-- main.go: one round of the read loop as a plain function of what the event's texts are.
use syscap.Base.{
  ℕ, suc, true, false, List, [], ◌∷◌, ◌++◌, some, some_inj, nat_eq, ◌≡◌, sym, ◌∙◌, inl, inr,
  Option-cases, Bytes, lookup_or, insert,
}
use syscap.Event.{Event}
use syscap.Monitor.Log.{log_text}
use syscap.Monitor.Loop.{Monitor, is_kept, add_seen, take_event, handle_event, handle_events}
use syscap.Monitor.Records.{
  RunningLogMetadata, no_info, OverallInfo, log_metadata, record_log_metadata,
  append_running_metadata_to_overall_info,
}
use syscap.Monitor.Statistics.{update_statistics}

-- The records of an id, one more behind them.
abbrev pub add_running : ℕ → RunningLogMetadata → OverallInfo → OverallInfo
add_running id entry overall =
    let info = lookup_or no_info id overall in
    insert id (record info { running = info.running ++ entry ∷ [] }) overall

-- The state after an event with this log text and this entry.
abbrev pub after : Event → Bytes → RunningLogMetadata → Monitor → Monitor
after event text entry m = record {
  statistics = update_statistics event m.statistics;
  overall = add_running event.syscall_id entry m.overall;
  seen_syscalls = add_seen event.syscall_id m.seen_syscalls;
  events_caught = suc m.events_caught;
  record_file = m.record_file ++ text;
  datas = m.datas ++ entry ∷ [];
}

module _ (byte_slice_to_string : Bytes → Bytes) where
  pub take_event-after :
      (event : Event) (m : Monitor) {text : Bytes} {entry : RunningLogMetadata}
      → log_text byte_slice_to_string event ≡ some text
      → log_metadata byte_slice_to_string event ≡ some entry
      → take_event byte_slice_to_string event m ≡ some (after event text entry m)
  unfolding take_event record_log_metadata append_running_metadata_to_overall_info
  take_event-after event m t e =
      rw (t, e, take_event) (rw (e, append_running_metadata_to_overall_info))

  -- A round that does not panic has its two texts, and gives that state.
  pub take_event-eq-some :
      (event : Event) (m : Monitor) {m' : Monitor}
      → take_event byte_slice_to_string event m ≡ some m'
      → (text : Bytes) × (entry : RunningLogMetadata) × (log_metadata byte_slice_to_string event
          ≡ some entry)
        × (m' ≡ after event text entry m)
  unfolding take_event record_log_metadata append_running_metadata_to_overall_info
  take_event-eq-some event m h = elim (Option-cases (log_text byte_slice_to_string event)) [
    | inl silent ↦ cc (rw (silent, take_event) at h)
    | inr (text, t) ↦ elim (Option-cases (log_metadata byte_slice_to_string event)) [
      | inl missing ↦ cc (rw (t, missing, take_event) at h)
      | inr (entry, e) ↦ (text, entry, e, some_inj (sym h ∙ take_event-after event m t e))
    ]
  ]

  -- A round of the whole loop: the filter, then the rest.
  pub handle_events-cons :
      (target : Bytes) (event : Event) (events : List Event) (m : Monitor) {m' : Monitor}
      → handle_events byte_slice_to_string target (event ∷ events) m ≡ some m'
      → (m₁ : Monitor) × (handle_event byte_slice_to_string target event m ≡ some m₁)
        × (handle_events byte_slice_to_string target events m₁ ≡ some m')
  unfolding handle_events
  handle_events-cons target event events m h =
      elim (Option-cases (handle_event byte_slice_to_string target event m)) [
        | inl panic ↦ cc (rw (panic, handle_events) at h)
        | inr (m₁, e) ↦ (m₁, e, rw (e, handle_events) at h)
      ]

  pub handle_event-kept :
      (target : Bytes) (event : Event) (m : Monitor) {m' : Monitor}
      → is_kept target event ≡ true
      → handle_event byte_slice_to_string target event m ≡ some m'
      → take_event byte_slice_to_string event m ≡ some m'
  unfolding handle_event
  handle_event-kept target event m kept h = rw kept at h

  pub handle_event-dropped :
      (target : Bytes) (event : Event) (m : Monitor) {m' : Monitor}
      → is_kept target event ≡ false
      → handle_event byte_slice_to_string target event m ≡ some m'
      → m' ≡ m
  unfolding handle_event
  handle_event-dropped target event m dropped h = sym (some_inj (rw dropped at h))
