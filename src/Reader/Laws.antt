-- ===== src/Reader/Laws.antt =====
-- main.go: the read loop never panics, and on the bytes of events it is the loop over the events.
use syscap.Base.{
  List, [], ◌∷◌, ◌++◌, map, some, ◌≡◌, ◌≢◌, ap, inl, inr, subst, some_inj, Bytes, All, length,
  length-words_of, Bool-cases, ltb,
}
use syscap.Base.Result.{ok, Result-cases, ok_inj}
use syscap.Event.{Event}
use syscap.Monitor.Loop.{Monitor, handle_event, handle_events}
use syscap.Monitor.Step.{handle_events-cons}
use syscap.Monitor.Total.{HasSix, handle_events_total}
use syscap.Reader.{Read, sample, closed, failed, panicked, run_loop}
use syscap.Wire.RoundTrip.{IsEvent, read_event-event_bytes}
use syscap.Wire.{event_bytes, read_event, decode_event, event_size}

decode_event-HasSix : (s : Bytes) → HasSix (decode_event s)
unfolding decode_event
decode_event-HasSix s = record { args = length-words_of 6 _; deref_args = length-words_of 6 _ }

-- Whatever the bytes, an event that is read has six arguments.
read_event-HasSix : (s : Bytes) {event : Event} → read_event s ≡ ok event → HasSix event
unfolding read_event
read_event-HasSix [] h = cc
read_event-HasSix (b ∷ s) h = elim (Bool-cases (ltb (length (b ∷ s)) event_size)) [
  | inl short ↦ cc (rw (short, read_event) at h)
  | inr long ↦ subst HasSix (ok_inj (rw long at h)) (decode_event-HasSix (b ∷ s))
]

module _ (byte_slice_to_string : Bytes → Bytes) (target : Bytes) where
  handle_event_total :
      (event : Event) (m : Monitor)
      → HasSix event
      → (m' : Monitor) × (handle_event byte_slice_to_string target event m ≡ some m')
  handle_event_total event m six =
      let (m', done) = handle_events_total byte_slice_to_string target (event ∷ []) m (six, tt) in
      let (m₁, one, rest) = handle_events-cons byte_slice_to_string target event [] m done in
      (m₁, one)

  -- Whatever the ring buffer delivers, well-formed samples, short ones or errors, and whatever the
  -- filter, the read loop does not panic.
  pub run_loop-ne-panicked :
      (reads : List Read) (m : Monitor) → run_loop byte_slice_to_string target reads m ≢ panicked
  unfolding run_loop handle_events
  run_loop-ne-panicked [] m = λ h. cc
  run_loop-ne-panicked (closed ∷ reads) m = λ h. cc
  run_loop-ne-panicked (failed ∷ reads) m = λ h. cc
  run_loop-ne-panicked (sample s ∷ reads) m = elim (Result-cases (read_event s)) [
    | inl (e, bad) ↦ rw (bad, run_loop) (λ h. cc)
    | inr (event, good) ↦
        let (m', done) = handle_event_total event m (read_event-HasSix s good) in
        rw (good, run_loop) (rw (done, run_loop) (run_loop-ne-panicked reads m'))
  ]

  -- On the samples of events that fit `struct event`, whatever bytes follow each, the read loop goes on
  -- exactly from the state to which these events lead.
  pub run_loop-handle_events :
      (events : List (Event × Bytes)) (reads : List Read) (m : Monitor) {m' : Monitor}
      → All (λ (e, rest). IsEvent e) events
      → handle_events byte_slice_to_string target (map (λ (e, rest). e) events) m ≡ some m'
      → run_loop byte_slice_to_string target
          (map (λ (e, rest). sample (event_bytes e ++ rest)) events ++ reads)
          m
        ≡ run_loop byte_slice_to_string target reads m'
  unfolding run_loop handle_events
  run_loop-handle_events [] reads m h done =
      ap (run_loop byte_slice_to_string target reads) (some_inj done)
  run_loop-handle_events ((e, rest) ∷ events) reads m h done =
      let (m₁, one, later) =
        handle_events-cons byte_slice_to_string target e (map (λ (e, rest). e) events) m done in
      rw (read_event-event_bytes e rest h.0, run_loop)
        (rw (one, run_loop) (run_loop-handle_events events reads m₁ h.1 later))
