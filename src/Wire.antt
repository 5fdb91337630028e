-- ===== src/Wire.antt =====
-- The bytes of an event in the ring buffer: bpf/program.bpf.c lays `struct event` out in memory,
-- and the binary.Read in the read loop of main.go fills the Event of ebpf.go from them.
pub mod RoundTrip
pub mod Examples
use syscap.Base.{
  ℕ, ◌-◌, ◌+◌, ◌^◌, ◌<◌, List, [], ◌∷◌, ◌++◌, if◌then◌else◌, ltb, length, take, drop, ℤ, pos,
  negsuc, to_int64, to_u64, Bytes, word_bytes, word, words_of, all_word_bytes,
}
use syscap.Base.Result.{Result, ok, err}
use syscap.Event.{Event}

-- The errors of io.ReadFull on a short buffer.
pub data ReadError : Type 0 where
  eof unexpected_eof : ReadError

-- The int32 with the bits of a uint32, and back.
unfoldable pub to_int32 : ℕ → ℤ
to_int32 n = if ltb n (2 ^ 31) then pos n else negsuc (2 ^ 32 - 1 - n)

unfoldable pub to_u32 : ℤ → ℕ
to_u32 (pos n) = n
to_u32 (negsuc n) = 2 ^ 32 - 1 - n

-- `struct event` has no padding: six words of 32 bits stand before the words of 64 bits.
unfoldable pub event_bytes : Event → Bytes
event_bytes e =
    word_bytes 4 e.pid
    ++ (word_bytes 4 e.tid
        ++ (word_bytes 4 e.uid
            ++ (word_bytes 4 e.syscall_id
                ++ (word_bytes 4 e.ppid
                    ++ (word_bytes 4 (to_u32 e.errno)
                        ++ (word_bytes 8 (to_u64 e.ret)
                            ++ (word_bytes 8 e.time_stamp_enter
                                ++ (word_bytes 8 e.time_stamp_exit
                                    ++ (word_bytes 8 e.cgroup_id
                                        ++ (e.comm
                                            ++ (all_word_bytes e.args
                                                ++ all_word_bytes e.deref_args)))))))))))

-- The fields of Event in the order of their declaration: each takes its bytes off the front.
unfoldable pub decode_event : Bytes → Event
decode_event s =
    let s₁ = drop 4 s in
    let s₂ = drop 4 s₁ in
    let s₃ = drop 4 s₂ in
    let s₄ = drop 4 s₃ in
    let s₅ = drop 4 s₄ in
    let s₆ = drop 4 s₅ in
    let s₇ = drop 8 s₆ in
    let s₈ = drop 8 s₇ in
    let s₉ = drop 8 s₈ in
    let s₁₀ = drop 8 s₉ in
    let s₁₁ = drop 16 s₁₀ in
    let s₁₂ = drop 48 s₁₁ in
    record {
      pid = word 4 s;
      tid = word 4 s₁;
      uid = word 4 s₂;
      syscall_id = word 4 s₃;
      ppid = word 4 s₄;
      errno = to_int32 (word 4 s₅);
      ret = to_int64 (word 8 s₆);
      time_stamp_enter = word 8 s₇;
      time_stamp_exit = word 8 s₈;
      cgroup_id = word 8 s₉;
      comm = take 16 s₁₀;
      args = words_of 6 s₁₁;
      deref_args = words_of 6 s₁₂;
    }

-- binary.Size(Event{})
abbrev pub event_size : ℕ
event_size = 168

-- binary.Read of an Event: what stands behind the first 168 bytes is not read.
unfoldable pub read_event : Bytes → Result ReadError Event
unfolding decode_event
read_event [] = err eof
read_event (b ∷ s) =
    if ltb (length (b ∷ s)) event_size then err unexpected_eof else ok (decode_event (b ∷ s))
