-- ===== src/Monitor/Seen.antt =====
-- main.go: which ids the read loop has seen after any events.
use syscap.Base.{
  ℕ, Bool, true, false, ◌||◌, List, [], ◌∷◌, ◌++◌, some, some_inj, ◌==◌, nat_eq, ◌≡◌, refl, sym, ap,
  ◌∙◌, inl, inr, arith, Bool-cases, Bytes, any, contains, eqb_iff,
}
use syscap.Event.{Event}
use syscap.Monitor.Loop.{Monitor, started, is_kept, add_seen, handle_event, handle_events}
use syscap.Monitor.Step.{
  take_event-eq-some, handle_events-cons, handle_event-kept, handle_event-dropped,
}
use syscap.Monitor.Tally.{counts_for}

contains-append :
    (id : ℕ) (xs ys : List ℕ) → contains id (xs ++ ys) ≡ (contains id xs || contains id ys)
contains-append id [] ys = refl
contains-append id (x ∷ xs) ys = ground (arith, contains-append id xs ys)

or_false : (b : Bool) → (b || false) ≡ b
or_false true = refl
or_false false = refl

or_comm : (b c : Bool) → (b || c) ≡ (c || b)
or_comm true true = refl
or_comm true false = refl
or_comm false true = refl
or_comm false false = refl

or_assoc : (a b c : Bool) → ((a || b) || c) ≡ (b || (a || c))
or_assoc true true c = refl
or_assoc true false c = refl
or_assoc false b c = refl

contains-add_seen :
    (id k : ℕ) (seen : List ℕ) → contains id (add_seen k seen) ≡ (k == id || contains id seen)
unfolding add_seen
contains-add_seen id k seen = elim (Bool-cases (contains k seen)) [
  | inl old ↦ rw old (elim (Bool-cases (k == id)) [
    | inl same ↦ rw same (ap (λ i. contains i seen) (sym ((eqb_iff k id).0 same)) ∙ old)
    | inr other ↦ rw other
  ])
  | inr new ↦ rw new (
      contains-append id seen (k ∷ [])
      ∙ or_comm (contains id seen) (k == id || false)
      ∙ ap (λ b. b || contains id seen) (or_false (k == id)))
]

module _ (byte_slice_to_string : Bytes → Bytes) (target : Bytes) (id : ℕ) where
  handle_event-seen :
      (event : Event) (m : Monitor) {m' : Monitor}
      → handle_event byte_slice_to_string target event m ≡ some m'
      → contains id m'.seen_syscalls ≡ (counts_for target id event || contains id m.seen_syscalls)
  handle_event-seen event m h = elim (Bool-cases (is_kept target event)) [
    | inl kept ↦
        let (text, entry, e, same) =
          take_event-eq-some byte_slice_to_string event m
            (handle_event-kept byte_slice_to_string target event m kept h) in
        rw (same, kept) (contains-add_seen id event.syscall_id m.seen_syscalls)
    | inr dropped ↦ rw (dropped, handle_event-dropped byte_slice_to_string target event m dropped h)
  ]

  handle_events-any :
      (events : List Event) (m : Monitor) {m' : Monitor}
      → handle_events byte_slice_to_string target events m ≡ some m'
      → contains id m'.seen_syscalls
        ≡ (contains id m.seen_syscalls || any (counts_for target id) events)
  unfolding handle_events
  handle_events-any [] m h =
      ap (λ (n : Monitor). contains id n.seen_syscalls) (sym (some_inj h))
      ∙ sym (or_false (contains id m.seen_syscalls))
  handle_events-any (event ∷ events) m h =
      let (m₁, one, later) = handle_events-cons byte_slice_to_string target event events m h in
      handle_events-any events m₁ later
      ∙ rw (handle_event-seen event m one) (
          or_assoc (counts_for target id event) (contains id m.seen_syscalls)
            (any (counts_for target id) events))

  -- When the read loop has handled some events from the start, the seen ids are those of the events
  -- that the filter keeps.
  pub handle_events-seen :
      (events : List Event) {m : Monitor}
      → handle_events byte_slice_to_string target events started ≡ some m
      → contains id m.seen_syscalls ≡ any (counts_for target id) events
  handle_events-seen events h = handle_events-any events started h
