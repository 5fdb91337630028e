-- ===== src/Monitor/Records.antt =====
-- main.go: RunningLogMetadata, recordLogMetadata and the map syscallOverallInfo.
-- `none` stands for a panic by an index out of range.
use mathlib.Core.Option
use syscap.Args.Format.{format_parsed_arguments}
use syscap.Base.{
  ℕ, suc, String, List, [], ◌∷◌, ◌++◌, Option, none, some, if◌then◌else◌, ◌==◌, nat_eq, string_eq,
  get_elem?, lookup_or, insert, ℤ, Bytes, codes, join, decimal,
}
use syscap.Event.{Event, duration}
use syscap.Monitor.Statistics.{StatisticalRes, no_calls, Statistics}
use syscap.Syscall.{syscall_table, syscall_fields}

pub record RunningLogMetadata : Type 0 where
  pub pid : ℕ
  pub uid : ℕ
  pub tid : ℕ
  pub ppid : ℕ
  pub syscall_name : String
  pub duration : ℤ
  pub return_value : ℤ
  pub comm : Bytes
  pub arguments : Bytes
  pub deref_arguments : Bytes

pub record MetadataForRiskAnalysis : Type 0 where
  pub running : List RunningLogMetadata
  pub result : StatisticalRes

abbrev pub no_info : MetadataForRiskAnalysis
no_info = record { running = []; result = no_calls }

abbrev pub OverallInfo : Type 0
OverallInfo = List (ℕ × MetadataForRiskAnalysis)

-- `syscallTable[int(id)]`: an id without a name reads as the empty text.
unfoldable pub syscall_name_of : ℕ → String
unfolding syscall_table
syscall_name_of id = lookup_or "" id syscall_table

unfoldable pub format_argument_text : Event → Option Bytes
unfolding syscall_name_of format_parsed_arguments
format_argument_text event = format_parsed_arguments (syscall_name_of event.syscall_id) event.args

-- The loop of formatDerefArgumentText from index `idx` on: zero words are passed over.
unfoldable pub deref_parts : List ℕ → ℕ → List String → Option (List Bytes)
deref_parts deref_args idx [] = some []
deref_parts deref_args idx (arg ∷ rest) =
    let later = deref_parts deref_args (suc idx) rest in
    elim (get_elem? deref_args idx) [
      | none ↦ none
      | some raw ↦
          if raw == 0
          then later
          else Option.map (λ parts. (codes arg ++ (codes "=" ++ decimal raw)) ∷ parts) later
    ]

unfoldable pub format_deref_argument_text : Event → Option Bytes
unfolding syscall_fields syscall_name_of deref_parts
format_deref_argument_text event =
    Option.map (λ parts. join (codes ", ") parts)
      (deref_parts event.deref_args 0
        (lookup_or [] (syscall_name_of event.syscall_id) syscall_fields))

-- golang.org/x/sys/unix.ByteSliceToString is a parameter.
module _ (byte_slice_to_string : Bytes → Bytes) where
  -- The entry that recordLogMetadata appends.
  unfoldable pub log_metadata : Event → Option RunningLogMetadata
  unfolding format_argument_text format_deref_argument_text
  log_metadata event = elim (format_argument_text event) [
    | none ↦ none
    | some arguments ↦
        Option.map
          (λ deref_arguments. record {
            pid = event.pid;
            uid = event.uid;
            tid = event.tid;
            ppid = event.ppid;
            syscall_name = syscall_name_of event.syscall_id;
            duration = duration event;
            return_value = event.ret;
            comm = byte_slice_to_string event.comm;
            arguments = arguments;
            deref_arguments = deref_arguments;
          })
          (format_deref_argument_text event)
  ]

  unfoldable pub record_log_metadata :
      Event → List RunningLogMetadata → Option (List RunningLogMetadata)
  record_log_metadata event datas = Option.map (λ entry. datas ++ entry ∷ []) (log_metadata event)

  unfoldable pub append_running_metadata_to_overall_info : Event → OverallInfo → Option OverallInfo
  append_running_metadata_to_overall_info event overall =
      let info = lookup_or no_info event.syscall_id overall in
      Option.map (λ running. insert event.syscall_id (record info { running = running }) overall)
        (record_log_metadata event info.running)

unfoldable pub assign_result_to_overall_info : ℕ → Statistics → OverallInfo → OverallInfo
assign_result_to_overall_info syscall_id statistics overall =
    let info = lookup_or no_info syscall_id overall in
    insert syscall_id (record info { result = lookup_or no_calls syscall_id statistics }) overall
