-- ===== src/Monitor/Total.antt =====
-- main.go: the read loop does not panic on the events that the kernel side sends.
use mathlib.Core.Option
use syscap.Args.Total.{format_parsed_arguments_total}
use syscap.Base.{
  ℕ, suc, ◌+◌, ◌≤◌, String, List, [], ◌∷◌, ◌++◌, Option, some, ◌==◌, nat_eq, string_eq, ◌≡◌, refl,
  ap, inl, inr, arith, Option-cases, Bool-cases, Bytes, All, length, get_elem?-lt, lookup,
  lookup_or,
}
use syscap.Event.{Event}
use syscap.Monitor.Log.{listed, argument_line, event_line, log_text}
use syscap.Monitor.Loop.{Monitor, is_kept, handle_event, handle_events}
use syscap.Monitor.Records.{
  RunningLogMetadata, syscall_name_of, format_argument_text, deref_parts,
  format_deref_argument_text, log_metadata,
}
use syscap.Monitor.Step.{after, take_event-after}
use syscap.Syscall.RoundTrip.{length-fields-le}
use syscap.Syscall.{syscall_fields}

map_total {ℓ κ} :
    {A : Type ℓ} {B : Type κ} (f : A → B) {o : Option A}
    → (a : A) × (o ≡ some a)
    → (b : B) × (Option.map f o ≡ some b)
map_total f (a, e) = (f a, ap (Option.map f) e)

-- An event has six arguments and six words read through them.
pub record HasSix (event : Event) : Type 0 where
  pub args : length event.args ≡ 6
  pub deref_args : length event.deref_args ≡ 6

abbrev fields_of : Event → List String
fields_of event = lookup_or [] (syscall_name_of event.syscall_id) syscall_fields

fields_le_six : (name : String) → length (lookup_or [] name syscall_fields) ≤ 6
fields_le_six name = elim (Option-cases (lookup name syscall_fields)) [
  | inl unknown ↦ rw (unknown, lookup_or) (omega arith)
  | inr (fields, known) ↦ rw (known, lookup_or) (length-fields-le name known)
]

listed_total :
    (count : ℕ) (values : List ℕ) (idx : ℕ) (fields : List String)
    → idx + length fields ≤ length values
    → (text : Bytes) × (listed count values idx fields ≡ some text)
unfolding listed
listed_total count values idx [] h = ([], refl)
listed_total count values idx (arg ∷ rest) h =
    let (raw, found) = get_elem?-lt values idx (omega arith) in
    let later = listed_total count values (suc idx) rest (omega arith) in
    rw (found, listed) (map_total _ later)

deref_parts_total :
    (values : List ℕ) (idx : ℕ) (fields : List String)
    → idx + length fields ≤ length values
    → (parts : List Bytes) × (deref_parts values idx fields ≡ some parts)
unfolding deref_parts
deref_parts_total values idx [] h = ([], refl)
deref_parts_total values idx (arg ∷ rest) h =
    let (raw, found) = get_elem?-lt values idx (omega arith) in
    let later = deref_parts_total values (suc idx) rest (omega arith) in
    elim (Bool-cases (raw == 0)) [
      | inl zero_word ↦ rw (found, deref_parts) (rw zero_word later)
      | inr word ↦ rw (found, deref_parts) (rw word (map_total _ later))
    ]

argument_line_total :
    (name : String) (values : List ℕ) (fields : List String)
    → length fields ≤ length values
    → (text : Bytes) × (argument_line name values fields ≡ some text)
unfolding argument_line
argument_line_total name values fields h =
    map_total _ (listed_total (length fields) values 0 fields (omega arith))

module _ (byte_slice_to_string : Bytes → Bytes) where
  log_text_total :
      (event : Event)
      → HasSix event
      → (text : Bytes) × (log_text byte_slice_to_string event ≡ some text)
  unfolding log_text
  log_text_total event six =
      let small = fields_le_six (syscall_name_of event.syscall_id) in
      let (args, a) = argument_line_total "args" event.args (fields_of event) (omega arith) in
      let (derefs, d) =
        argument_line_total "deref_args" event.deref_args (fields_of event) (omega arith) in
      (event_line byte_slice_to_string event ++ (args ++ derefs), rw (a, d, log_text))

  log_metadata_total :
      (event : Event)
      → HasSix event
      → (entry : RunningLogMetadata) × (log_metadata byte_slice_to_string event ≡ some entry)
  unfolding log_metadata format_argument_text format_deref_argument_text
  log_metadata_total event six =
      let small = fields_le_six (syscall_name_of event.syscall_id) in
      let (text, t) =
        format_parsed_arguments_total (syscall_name_of event.syscall_id) event.args six.args in
      let derefs = deref_parts_total event.deref_args 0 (fields_of event) (omega arith) in
      rw (t, log_metadata) (map_total _ (map_total _ derefs))

  -- Whatever the filter and the state, the read loop handles every list of events that have six
  -- arguments and six dereferenced words to the end, with no index out of range.
  pub handle_events_total :
      (target : Bytes) (events : List Event) (m : Monitor)
      → All HasSix events
      → (m' : Monitor) × (handle_events byte_slice_to_string target events m ≡ some m')
  unfolding handle_events handle_event
  handle_events_total target [] m h = (m, refl)
  handle_events_total target (event ∷ events) m (six, rest) =
      elim (Bool-cases (is_kept target event)) [
        | inl kept ↦
            let (text, t) = log_text_total event six in
            let (entry, e) = log_metadata_total event six in
            let (m', later) = handle_events_total target events (after event text entry m) rest in
            (m', rw (kept, take_event-after byte_slice_to_string event m t e, handle_events) later)
        | inr dropped ↦
            let (m', later) = handle_events_total target events m rest in
            (m', rw (dropped, handle_events) later)
      ]
