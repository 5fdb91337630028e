-- ===== src/Wire/RoundTrip.antt =====
-- The bytes of an event read back as this event.
use mathlib.Core.List.{append_assoc}
use syscap.Base.{
  ℕ, zero, suc, ◌*◌, ◌^◌, ◌<◌, ◌≤◌, List, [], ◌∷◌, ◌++◌, ltb, ◌≡◌, refl, ap, ◌∙◌, arith, false,
  length, length-append, take, drop, All, ℤ, pos, negsuc, to_int64, to_u64, Bytes, word_bytes,
  words_of, all_word_bytes, length-word_bytes, drop-word_bytes, word-word_bytes,
}
use syscap.Base.Result.{ok}
use syscap.Event.{Event}
use syscap.Wire.{to_int32, to_u32, event_bytes, decode_event, read_event, event_size}

abbrev pub IsInt : ℕ → ℤ → Type 0
IsInt half (pos n) = n < half
IsInt half (negsuc n) = n < half

-- The ranges of the fields of `struct event`.
pub record IsEvent (e : Event) : Type 0 where
  pub pid : e.pid < 256 ^ 4
  pub tid : e.tid < 256 ^ 4
  pub uid : e.uid < 256 ^ 4
  pub syscall_id : e.syscall_id < 256 ^ 4
  pub ppid : e.ppid < 256 ^ 4
  pub errno : IsInt (2 ^ 31) e.errno
  pub ret : IsInt (2 ^ 63) e.ret
  pub time_stamp_enter : e.time_stamp_enter < 256 ^ 8
  pub time_stamp_exit : e.time_stamp_exit < 256 ^ 8
  pub cgroup_id : e.cgroup_id < 256 ^ 8
  pub comm : length e.comm ≡ 16
  pub args : length e.args ≡ 6
  pub args_below : All (λ n. n < 256 ^ 8) e.args
  pub deref_args : length e.deref_args ≡ 6
  pub deref_args_below : All (λ n. n < 256 ^ 8) e.deref_args

to_int32-to_u32 : (z : ℤ) → IsInt (2 ^ 31) z → (to_int32 (to_u32 z) ≡ z) × (to_u32 z < 256 ^ 4)
unfolding to_int32 to_u32
to_int32-to_u32 (pos n) h = ground arith
to_int32-to_u32 (negsuc n) h = ground arith

to_int64-to_u64 : (z : ℤ) → IsInt (2 ^ 63) z → (to_int64 (to_u64 z) ≡ z) × (to_u64 z < 256 ^ 8)
unfolding to_int64 to_u64
to_int64-to_u64 (pos n) h = ground arith
to_int64-to_u64 (negsuc n) h = ground arith

drop-append {ℓ} :
    {A : Type ℓ} (n : ℕ) (xs : List A) → length xs ≡ n → (ys : List A) → drop n (xs ++ ys) ≡ ys
drop-append zero [] h ys = refl
drop-append (suc n) [] h ys = absurd (omega arith)
drop-append zero (x ∷ xs) h ys = absurd (omega arith)
drop-append (suc n) (x ∷ xs) h ys = drop-append n xs (omega arith) ys

take-append {ℓ} :
    {A : Type ℓ} (n : ℕ) (xs : List A) → length xs ≡ n → (ys : List A) → take n (xs ++ ys) ≡ xs
take-append zero [] h ys = refl
take-append (suc n) [] h ys = absurd (omega arith)
take-append zero (x ∷ xs) h ys = absurd (omega arith)
take-append (suc n) (x ∷ xs) h ys = ap (◌∷◌ x) (take-append n xs (omega arith) ys)

words_of-all_word_bytes :
    (count : ℕ) (ns : List ℕ)
    → length ns ≡ count
    → All (λ n. n < 256 ^ 8) ns
    → (rest : Bytes) → words_of count (all_word_bytes ns ++ rest) ≡ ns
unfolding words_of all_word_bytes
words_of-all_word_bytes zero [] l h rest = refl
words_of-all_word_bytes (suc count) [] l h rest = absurd (omega arith)
words_of-all_word_bytes zero (n ∷ ns) l h rest = absurd (omega arith)
words_of-all_word_bytes (suc count) (n ∷ ns) l h rest = simp (
  append_assoc,
  drop-word_bytes,
  word-word_bytes 8 n h.0,
  words_of-all_word_bytes count ns (omega arith) h.1 rest,
)

length-all_word_bytes : (ns : List ℕ) → length (all_word_bytes ns) ≡ 8 * length ns
unfolding all_word_bytes
length-all_word_bytes [] = refl
length-all_word_bytes (n ∷ ns) = omega (
  arith,
  length-append (word_bytes 8 n) (all_word_bytes ns),
  length-word_bytes 8 n,
  length-all_word_bytes ns,
)

decode_event-event_bytes :
    (e : Event) → IsEvent e → (rest : Bytes) → decode_event (event_bytes e ++ rest) ≡ e
unfolding decode_event event_bytes
decode_event-event_bytes e h rest =
    let (errno, errno_below) = to_int32-to_u32 e.errno h.errno in
    let (ret, ret_below) = to_int64-to_u64 e.ret h.ret in
    let args_size : length (all_word_bytes e.args) ≡ 48 =
      omega (arith, length-all_word_bytes e.args, h.args) in
    simp (
      append_assoc,
      drop-word_bytes,
      word-word_bytes 4 e.pid h.pid,
      word-word_bytes 4 e.tid h.tid,
      word-word_bytes 4 e.uid h.uid,
      word-word_bytes 4 e.syscall_id h.syscall_id,
      word-word_bytes 4 e.ppid h.ppid,
      word-word_bytes 4 (to_u32 e.errno) errno_below,
      word-word_bytes 8 (to_u64 e.ret) ret_below,
      word-word_bytes 8 e.time_stamp_enter h.time_stamp_enter,
      word-word_bytes 8 e.time_stamp_exit h.time_stamp_exit,
      word-word_bytes 8 e.cgroup_id h.cgroup_id,
      errno,
      ret,
      take-append 16 e.comm h.comm,
      drop-append 16 e.comm h.comm,
      drop-append 48 (all_word_bytes e.args) args_size,
      words_of-all_word_bytes 6 e.args h.args h.args_below,
      words_of-all_word_bytes 6 e.deref_args h.deref_args h.deref_args_below,
    )

length-event_bytes : (e : Event) → IsEvent e → length (event_bytes e) ≡ event_size
unfolding event_bytes
length-event_bytes e h =
    simp (length-append, length-word_bytes, length-all_word_bytes)
      (omega (arith, h.comm, h.args, h.deref_args))

read_event_long : (s : Bytes) → event_size ≤ length s → read_event s ≡ ok (decode_event s)
unfolding read_event
read_event_long [] h = absurd (omega arith)
read_event_long (b ∷ s) h = rw (not_short (length (b ∷ s)) h)
  where
    not_short : (n : ℕ) → event_size ≤ n → ltb n event_size ≡ false
    not_short n le = ground arith

-- binary.Read gives back the event whose bytes, in the layout of `struct event`, stand at the front
-- of the sample, whatever follows them.
pub read_event-event_bytes :
    (e : Event) (rest : Bytes) → IsEvent e → read_event (event_bytes e ++ rest) ≡ ok e
read_event-event_bytes e rest h =
    read_event_long (event_bytes e ++ rest)
      (omega (arith, length-append (event_bytes e) rest, length-event_bytes e h))
    ∙ ap ok (decode_event-event_bytes e h rest)
