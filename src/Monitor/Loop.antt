-- ===== src/Monitor/Loop.antt =====
-- main.go: the body of the read loop in `run`, on the state that it shares with the shutdown.
use mathlib.Core.Option
use syscap.Base.{
  ℕ, suc, Bool, not, ◌&&◌, List, [], ◌∷◌, ◌++◌, Option, none, some, if◌then◌else◌, ◌==◌, nat_eq,
  bytes_has_eq, contains, Bytes, codes, split,
}
use syscap.Event.{Event}
use syscap.Monitor.Log.{log_text}
use syscap.Monitor.Records.{
  RunningLogMetadata, OverallInfo, syscall_name_of, record_log_metadata,
  append_running_metadata_to_overall_info,
}
use syscap.Monitor.Statistics.{Statistics, update_statistics}

-- splitSupportedSyscallFilter: the set of names between the commas.
unfoldable pub split_supported_syscall_filter : Bytes → List Bytes
unfolding split
split_supported_syscall_filter target_syscalls = split b',' target_syscalls

-- checkIfExistInMap
unfoldable pub check_if_exist_in_map : List Bytes → Bytes → Bool
check_if_exist_in_map m elem = contains elem m

-- The guard of `continue`, turned round: no filter, or a name in it.
unfoldable pub is_kept : Bytes → Event → Bool
unfolding split_supported_syscall_filter check_if_exist_in_map syscall_name_of
is_kept target_syscall event = not (
    not (target_syscall == [])
    && not (
        check_if_exist_in_map (split_supported_syscall_filter target_syscall)
          (codes (syscall_name_of event.syscall_id))))

-- seen_syscalls is a set: an id stands in it once.
pub record Monitor : Type 0 where
  pub statistics : Statistics
  pub overall : OverallInfo
  pub seen_syscalls : List ℕ
  pub events_caught : ℕ
  pub record_file : Bytes
  pub datas : List RunningLogMetadata

abbrev pub started : Monitor
started = record {
  statistics = [];
  overall = [];
  seen_syscalls = [];
  events_caught = 0;
  record_file = [];
  datas = [];
}

-- `seenSyscalls[id] = struct{}{}`
unfoldable pub add_seen : ℕ → List ℕ → List ℕ
add_seen id seen = if contains id seen then seen else seen ++ id ∷ []

module _ (byte_slice_to_string : Bytes → Bytes) where
  -- What follows the filter, in the order of the code.
  unfoldable pub take_event : Event → Monitor → Option Monitor
  unfolding add_seen update_statistics log_text record_log_metadata
      append_running_metadata_to_overall_info
  take_event event m = elim (log_text byte_slice_to_string event) [
    | none ↦ none
    | some text ↦ elim (record_log_metadata byte_slice_to_string event m.datas) [
      | none ↦ none
      | some datas ↦
          Option.map
            (λ overall. record {
              statistics = update_statistics event m.statistics;
              overall = overall;
              seen_syscalls = add_seen event.syscall_id m.seen_syscalls;
              events_caught = suc m.events_caught;
              record_file = m.record_file ++ text;
              datas = datas;
            })
            (append_running_metadata_to_overall_info byte_slice_to_string event m.overall)
    ]
  ]

  unfoldable pub handle_event : Bytes → Event → Monitor → Option Monitor
  unfolding is_kept take_event
  handle_event target_syscall event m =
      if is_kept target_syscall event then take_event event m else some m

  -- The loop over the events that the reader delivers and binary.Read decodes.
  unfoldable pub handle_events : Bytes → List Event → Monitor → Option Monitor
  handle_events target_syscall [] m = some m
  handle_events target_syscall (event ∷ events) m = elim (handle_event target_syscall event m) [
    | none ↦ none
    | some m' ↦ handle_events target_syscall events m'
  ]
