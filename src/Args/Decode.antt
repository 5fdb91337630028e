-- ===== src/Args/Decode.antt =====
-- parse_arg.go: the decoders of single values. A raw value is a uint64.
use syscap.Args.Tables.{
  NamedValue, sock_nonblock, sock_cloexec, o_sync, o_tmpfile, socket_types, open_flag_bits,
  clone_flags,
}
use syscap.Base.{
  ℕ, Bool, not, ◌&&◌, String, List, [], ◌∷◌, ◌++◌, map, none, some, bit_and, if◌then◌else◌, ◌==◌,
  nat_eq, string_eq, lookup, clear, Bytes, codes, bytes_le, join, decimal, hexadecimal, sort_by,
}

-- The loops over a table: the entries whose bits are all set in what the entries above left,
-- and what is left after the last.
unfoldable pub scan : (ℕ → NamedValue → Bool) → List NamedValue → ℕ → List NamedValue × ℕ
scan hit [] remaining = ([], remaining)
scan hit (d ∷ ds) remaining =
    let here = hit remaining d in
    let (found, rest) = scan hit ds (if here then clear remaining d.value else remaining) in
    (if here then d ∷ found else found, rest)

-- `remaining&def.Value == def.Value`
unfoldable pub is_set : ℕ → NamedValue → Bool
is_set remaining d = bit_and remaining d.value == d.value

-- The same behind `if def.Value == 0 { continue }`.
unfoldable pub is_set_nonzero : ℕ → NamedValue → Bool
unfolding is_set
is_set_nonzero remaining d = not (d.value == 0) && is_set remaining d

abbrev pub names : List NamedValue → List Bytes
names = map (λ d. codes d.name)

-- sort.Strings
abbrev pub sort_strings : List Bytes → List Bytes
sort_strings = sort_by bytes_le

-- `fmt.Sprintf("0x%x", remaining)`, appended where something is left
unfoldable pub with_remaining : List Bytes → ℕ → List Bytes
with_remaining texts remaining =
    if remaining == 0 then texts else texts ++ (codes "0x" ++ hexadecimal remaining) ∷ []

-- `if len(names) == 0 { return strconv.FormatUint(raw, 10) }`, else the names joined
unfoldable pub joined_or_decimal : List Bytes → ℕ → Bytes
joined_or_decimal [] raw = decimal raw
joined_or_decimal (t ∷ ts) raw = join (codes "|") (t ∷ ts)

unfoldable pub decode_exact : ℕ → List (ℕ × String) → Bytes
decode_exact raw table = elim (lookup raw table) [ some name ↦ codes name | none ↦ decimal raw ]

unfoldable pub decode_bitmask : ℕ → List NamedValue → String → Bytes
unfolding with_remaining joined_or_decimal
decode_bitmask raw defs zero_name =
    let (found, remaining) = scan is_set_nonzero defs raw in
    if raw == 0 && not (zero_name == "")
    then codes zero_name
    else joined_or_decimal (with_remaining (sort_strings (names found)) remaining) raw

abbrev pub nonblock : NamedValue
nonblock = record { name = "SOCK_NONBLOCK"; value = sock_nonblock }

abbrev pub cloexec : NamedValue
cloexec = record { name = "SOCK_CLOEXEC"; value = sock_cloexec }

abbrev pub sock_type_mask : ℕ
sock_type_mask = 0xf

-- The base type has a name or is passed over.
abbrev pub base_type : ℕ → List Bytes
base_type raw = elim (lookup (bit_and raw sock_type_mask) socket_types) [
  | some t ↦ codes t ∷ []
  | none ↦ []
]

unfoldable pub decode_socket_type : ℕ → Bytes
unfolding socket_types with_remaining joined_or_decimal
decode_socket_type raw =
    let (extras, remaining) = scan is_set (nonblock ∷ cloexec ∷ []) (clear raw sock_type_mask) in
    joined_or_decimal (with_remaining (sort_strings (base_type raw ++ names extras)) remaining) raw

abbrev pub o_accmode : ℕ
o_accmode = 0x3

-- The `switch raw & oAccmode`.
unfoldable pub access_mode : ℕ → Bytes
access_mode mode =
    if mode == 0
    then codes "O_RDONLY"
    else if mode == 1
    then codes "O_WRONLY"
    else if mode == 2
    then codes "O_RDWR"
    else codes "0x" ++ hexadecimal mode

abbrev pub tmpfile : NamedValue
tmpfile = record { name = "O_TMPFILE"; value = o_tmpfile }

abbrev pub sync : NamedValue
sync = record { name = "O_SYNC"; value = o_sync }

-- O_TMPFILE and O_SYNC hold the bits of other flags, so they are looked for first.
unfoldable pub decode_open_flags : ℕ → Bytes
unfolding open_flag_bits access_mode with_remaining
decode_open_flags raw =
    let (found, remaining) =
      scan is_set (tmpfile ∷ (sync ∷ open_flag_bits)) (clear raw o_accmode) in
    join (codes "|")
      (with_remaining (sort_strings (access_mode (bit_and raw o_accmode) ∷ names found)) remaining)

abbrev pub exit_signal_mask : ℕ
exit_signal_mask = 0xff

-- The low byte of clone_flags is the signal sent to the parent on exit.
abbrev pub exit_signal : ℕ → List Bytes
exit_signal signal = if signal == 0 then [] else (codes "SIGNAL_" ++ decimal signal) ∷ []

unfoldable pub decode_clone_flags : ℕ → Bytes
unfolding clone_flags with_remaining joined_or_decimal
decode_clone_flags raw =
    let (found, remaining) = scan is_set clone_flags (clear raw exit_signal_mask) in
    joined_or_decimal
      (with_remaining (sort_strings (exit_signal (bit_and raw exit_signal_mask) ++ names found))
        remaining)
      raw
