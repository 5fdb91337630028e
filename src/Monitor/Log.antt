-- ===== src/Monitor/Log.antt =====
-- main.go: the two lines of running.log for one event. `none` stands for a panic by an index out
-- of range.
use mathlib.Core.Option
use syscap.Base.{
  ℕ, suc, ◌-◌, String, List, [], ◌∷◌, ◌++◌, Option, none, some, if◌then◌else◌, ltb, string_eq,
  get_elem?, length, lookup_or, Bytes, codes, decimal, signed_decimal, sub_u64,
}
use syscap.Event.{Event}
use syscap.Monitor.Records.{syscall_name_of}
use syscap.Syscall.{syscall_fields}

-- The loop that prints `field=value` with a comma behind all but the last of `count` fields.
unfoldable pub listed : ℕ → List ℕ → ℕ → List String → Option Bytes
listed count values idx [] = some []
listed count values idx (arg ∷ rest) =
    let later = listed count values (suc idx) rest in
    elim (get_elem? values idx) [
      | none ↦ none
      | some raw ↦
          Option.map
            (λ text.
              codes arg
              ++ (codes "="
                  ++ (decimal raw ++ ((if ltb idx (count - 1) then codes ", " else []) ++ text))))
            later
    ]

-- `name=(…) ` and a newline
unfoldable pub argument_line : String → List ℕ → List String → Option Bytes
unfolding listed
argument_line name values fields =
    Option.map (λ text. codes name ++ (codes "=(" ++ (text ++ codes ") \n")))
      (listed (length fields) values 0 fields)

abbrev pub pair : String → Bytes → Bytes
pair key value = codes key ++ (codes "=" ++ (value ++ codes " "))

module _ (byte_slice_to_string : Bytes → Bytes) where
  unfoldable pub event_line : Event → Bytes
  unfolding syscall_name_of decimal signed_decimal sub_u64
  event_line event =
      pair "pid" (decimal event.pid)
      ++ (pair "tid" (decimal event.tid)
          ++ (pair "uid" (decimal event.uid)
              ++ (pair "ppid" (decimal event.ppid)
                  ++ (pair "syscall" (codes (syscall_name_of event.syscall_id))
                      ++ (pair "ts_ns_enter" (decimal event.time_stamp_enter)
                          ++ (pair "ts_ns_exit" (decimal event.time_stamp_exit)
                              ++ (pair "duration(ns)"
                                    (decimal (sub_u64 event.time_stamp_exit event.time_stamp_enter))
                                  ++ (pair "ret" (signed_decimal event.ret)
                                      ++ pair "comm" (byte_slice_to_string event.comm)))))))))

  unfoldable pub log_text : Event → Option Bytes
  unfolding event_line argument_line syscall_fields
  log_text event =
      let fields = lookup_or [] (syscall_name_of event.syscall_id) syscall_fields in
      elim (argument_line "args" event.args fields) [
        | none ↦ none
        | some args ↦
            Option.map (λ deref_args. event_line event ++ (args ++ deref_args))
              (argument_line "deref_args" event.deref_args fields)
      ]
