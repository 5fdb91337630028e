-- ===== src/Monitor/Logged.antt =====
-- main.go: the records that the read loop has kept after any events.
use mathlib.Core.List.{append-nil, append_assoc}
use syscap.Base.{
  ℕ, ◌+◌, Bool, List, [], ◌∷◌, ◌++◌, Option, none, some, some_inj, if◌then◌else◌, ◌==◌, nat_eq, ◌≡◌,
  refl, sym, ap, ◌∙◌, inl, inr, arith, Bool-cases, Bytes, length, keep, lookup_or, lookup_or-insert,
  eqb_iff, keep-append,
}
use syscap.Event.{Event}
use syscap.Monitor.Loop.{Monitor, started, is_kept, handle_event, handle_events}
use syscap.Monitor.Records.{
  RunningLogMetadata, MetadataForRiskAnalysis, no_info, OverallInfo, log_metadata,
}
use syscap.Monitor.Step.{
  add_running, take_event-eq-some, handle_events-cons, handle_event-kept, handle_event-dropped,
}
use syscap.Monitor.Tally.{counts_for}

-- The records of an id.
abbrev pub running_of : ℕ → Monitor → List RunningLogMetadata
running_of id m = (lookup_or no_info id m.overall).running

running-add_running :
    (id k : ℕ) (entry : RunningLogMetadata) (overall : OverallInfo)
    → (lookup_or no_info id (add_running k entry overall)).running ≡ (
        if k == id
        then (lookup_or no_info id overall).running ++ entry ∷ []
        else (lookup_or no_info id overall).running)
running-add_running id k entry overall =
    ap (λ (info : MetadataForRiskAnalysis). info.running) (lookup_or-insert no_info k id _ overall)
    ∙ elim (Bool-cases (k == id)) [
      | inl same ↦ rw (same, (eqb_iff k id).0 same)
      | inr other ↦ rw other
    ]

module _ (byte_slice_to_string : Bytes → Bytes) where
  -- The entry of an event whose texts can be formatted.
  unfoldable pub entry_list : Option RunningLogMetadata → List RunningLogMetadata
  entry_list none = []
  entry_list (some entry) = entry ∷ []

  -- The entries of some events, in order.
  unfoldable pub entries : List Event → List RunningLogMetadata
  unfolding entry_list
  entries [] = []
  entries (event ∷ events) = entry_list (log_metadata byte_slice_to_string event) ++ entries events

module _ (byte_slice_to_string : Bytes → Bytes) (target : Bytes) where
  abbrev pub kept_entries : List Event → List RunningLogMetadata
  kept_entries events = entries byte_slice_to_string (keep (is_kept target) events)

  abbrev pub own_entries : ℕ → List Event → List RunningLogMetadata
  own_entries id events = entries byte_slice_to_string (keep (counts_for target id) events)

  own_entry :
      (id : ℕ) (event : Event) {entry : RunningLogMetadata} (running : List RunningLogMetadata)
      → log_metadata byte_slice_to_string event ≡ some entry
      → (if event.syscall_id == id then running ++ entry ∷ [] else running)
        ≡ running
          ++ entries byte_slice_to_string (if event.syscall_id == id then event ∷ [] else [])
  unfolding entries
  own_entry id event running e = elim (Bool-cases (event.syscall_id == id)) [
    | inl same ↦ rw (same, e, entries, entry_list)
    | inr other ↦ rw other (sym (append-nil running))
  ]

  -- What some rounds add.
  record Adds (events : List Event) (m m' : Monitor) : Type 0 where
    datas : m'.datas ≡ m.datas ++ kept_entries events
    running : (id : ℕ) → running_of id m' ≡ running_of id m ++ own_entries id events
    caught : m'.events_caught ≡ m.events_caught + length (keep (is_kept target) events)

  handle_event-Adds :
      (event : Event) (m : Monitor) {m' : Monitor}
      → handle_event byte_slice_to_string target event m ≡ some m'
      → Adds (event ∷ []) m m'
  unfolding entries
  handle_event-Adds event m h = elim (Bool-cases (is_kept target event)) [
    | inl kept ↦
        let (text, entry, e, same) =
          take_event-eq-some byte_slice_to_string event m
            (handle_event-kept byte_slice_to_string target event m kept h) in
        record {
          datas = rw (same, kept, e, entries, entry_list);
          running = λ id.
              rw (same, kept)
                (running-add_running id event.syscall_id entry m.overall
                  ∙ own_entry id event (running_of id m) e);
          caught = rw (same, kept) (omega arith);
        }
    | inr dropped ↦
        let same = handle_event-dropped byte_slice_to_string target event m dropped h in
        record {
          datas = rw (same, dropped) (sym (append-nil m.datas));
          running = λ id. rw (same, dropped) (sym (append-nil (running_of id m)));
          caught = rw (same, dropped) (omega arith);
        }
  ]

  entries-append :
      (xs ys : List Event)
      → entries byte_slice_to_string (xs ++ ys)
        ≡ entries byte_slice_to_string xs ++ entries byte_slice_to_string ys
  unfolding entries
  entries-append [] ys = refl
  entries-append (x ∷ xs) ys = rw (entries-append xs ys, append_assoc)

  entries-keep :
      (p : Event → Bool) (event : Event) (events : List Event)
      → entries byte_slice_to_string (keep p (event ∷ events))
        ≡ entries byte_slice_to_string (keep p (event ∷ []))
          ++ entries byte_slice_to_string (keep p events)
  entries-keep p event events =
      ap (entries byte_slice_to_string) (keep-append p (event ∷ []) events)
      ∙ entries-append (keep p (event ∷ [])) (keep p events)

  Adds-cons :
      (event : Event) (events : List Event) {m m₁ m' : Monitor}
      → Adds (event ∷ []) m m₁
      → Adds events m₁ m'
      → Adds (event ∷ events) m m'
  Adds-cons event events {m} a b = record {
    datas = rw (b.datas, a.datas, append_assoc, entries-keep (is_kept target) event events);
    running = λ id. rw (
      b.running id,
      a.running id,
      append_assoc,
      entries-keep (counts_for target id) event events,
    );
    caught = ground arith;
  }

  handle_events-Adds :
      (events : List Event) (m : Monitor) {m' : Monitor}
      → handle_events byte_slice_to_string target events m ≡ some m'
      → Adds events m m'
  unfolding handle_events entries
  handle_events-Adds [] m h = record {
    datas = rw (← some_inj h) (sym (append-nil m.datas));
    running = λ id. rw (← some_inj h) (sym (append-nil (running_of id m)));
    caught = rw (← some_inj h) (omega arith);
  }
  handle_events-Adds (event ∷ events) m h =
      let (m₁, one, later) = handle_events-cons byte_slice_to_string target event events m h in
      Adds-cons event events (handle_event-Adds event m one) (handle_events-Adds events m₁ later)

  -- When the read loop has handled some events from the start, its log holds the entries of the
  -- events that the filter keeps, in the order of arrival, and counts them; and the records of
  -- each syscall are those of its own entries.
  pub handle_events-records :
      (events : List Event) {m : Monitor} (id : ℕ)
      → handle_events byte_slice_to_string target events started ≡ some m
      → (m.datas ≡ kept_entries events)
        × (m.events_caught ≡ length (keep (is_kept target) events))
        × (running_of id m ≡ own_entries id events)
  handle_events-records events id h =
      let a = handle_events-Adds events started h in
      (a.datas, omega (arith, a.caught), a.running id)
