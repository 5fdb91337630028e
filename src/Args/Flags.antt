-- ===== src/Args/Flags.antt =====
-- parse_arg.go: decodeBitmask, decodeCloneFlags and decodeSocketType against a description with no
-- loop: which entries a raw value holds, and what they leave over.
use syscap.Args.Decode.{
  is_set, is_set_nonzero, names, sort_strings, with_remaining, joined_or_decimal, decode_bitmask,
  exit_signal_mask, exit_signal, decode_clone_flags, nonblock, cloexec, sock_type_mask, base_type,
  decode_socket_type,
}
use syscap.Args.Scan.{
  total, Disjoint, DisjointFrom, is_set-Sound, is_set_nonzero-Sound, is_set-Local,
  is_set_nonzero-Local, scan-keep, keep-clear, scan_rest,
}
use syscap.Args.Tables.{
  NamedValue, namespace_flags, mmap_protections, mmap_flags, clone_flags, seccomp_flags,
}
use syscap.Base.{
  ℕ, ◌-◌, not, ◌&&◌, String, List, [], ◌∷◌, ◌++◌, bit_and, ◌≡◌, arith, if◌then◌else◌, ◌==◌, nat_eq,
  string_eq, keep, clear, Bytes, codes,
}

-- The text of a bit mask: the names of the entries whose bits are all set, sorted, then what the
-- entries leave over, and the plain number where that is nothing.
abbrev pub bitmask_text : ℕ → List NamedValue → Bytes
bitmask_text raw defs =
    let found = keep (is_set_nonzero raw) defs in
    joined_or_decimal (with_remaining (sort_strings (names found)) (raw - total found)) raw

-- Over a table whose entries share no bits, decodeBitmask prints the zero name for 0 where it has
-- one, and else names exactly the non-zero entries whose bits are all set in the raw value,
-- followed by the raw value less those entries.
pub decode_bitmask-eq-text :
    (raw : ℕ) (defs : List NamedValue) (zero_name : String)
    → Disjoint defs
    → decode_bitmask raw defs zero_name
      ≡ (if raw == 0 && not (zero_name == "") then codes zero_name else bitmask_text raw defs)
unfolding decode_bitmask
decode_bitmask-eq-text raw defs zero_name apart = rw (
  scan-keep is_set_nonzero defs raw is_set_nonzero-Local apart,
  scan_rest is_set_nonzero defs raw is_set_nonzero-Sound is_set_nonzero-Local apart,
)

pub namespace_flags-Disjoint : Disjoint namespace_flags
unfolding namespace_flags
namespace_flags-Disjoint = omega arith

pub mmap_protections-Disjoint : Disjoint mmap_protections
unfolding mmap_protections
mmap_protections-Disjoint = omega arith

pub mmap_flags-Disjoint : Disjoint mmap_flags
unfolding mmap_flags
mmap_flags-Disjoint = omega arith

pub seccomp_flags-Disjoint : Disjoint seccomp_flags
unfolding seccomp_flags
seccomp_flags-Disjoint = omega arith

pub clone_flags-Disjoint : Disjoint clone_flags
unfolding clone_flags
clone_flags-Disjoint = omega arith

signal_apart : DisjointFrom exit_signal_mask clone_flags
unfolding clone_flags
signal_apart = omega arith

-- decodeCloneFlags names the exit signal in the low byte, if there is one, and exactly the entries
-- of cloneFlags whose bits are all set, sorted; what is left over follows in hexadecimal.
pub decode_clone_flags-eq-text :
    (raw : ℕ)
    → let found = keep (is_set raw) clone_flags in
      let signal = bit_and raw exit_signal_mask in
      decode_clone_flags raw
      ≡ joined_or_decimal
          (with_remaining
            (sort_strings (exit_signal signal ++ names found))
            (raw - signal - total found))
          raw
unfolding decode_clone_flags clear
decode_clone_flags-eq-text raw = rw (
  scan-keep is_set clone_flags (clear raw exit_signal_mask) is_set-Local clone_flags-Disjoint,
  scan_rest is_set clone_flags (clear raw exit_signal_mask) is_set-Sound is_set-Local
      clone_flags-Disjoint,
  keep-clear is_set clone_flags raw exit_signal_mask is_set-Local signal_apart,
)

abbrev pub socket_extras : List NamedValue
socket_extras = nonblock ∷ (cloexec ∷ [])

socket_extras-Disjoint : Disjoint socket_extras
socket_extras-Disjoint = omega arith

type_apart : DisjointFrom sock_type_mask socket_extras
type_apart = omega arith

-- decodeSocketType names the type in the low four bits where it has a name, and exactly those of
-- SOCK_NONBLOCK and SOCK_CLOEXEC that are set, sorted; what else is set above the type follows in
-- hexadecimal.
pub decode_socket_type-eq-text :
    (raw : ℕ)
    → let found = keep (is_set raw) socket_extras in
      decode_socket_type raw
      ≡ joined_or_decimal
          (with_remaining
            (sort_strings (base_type raw ++ names found))
            (raw - bit_and raw sock_type_mask - total found))
          raw
unfolding decode_socket_type clear
decode_socket_type-eq-text raw = rw (
  scan-keep is_set socket_extras (clear raw sock_type_mask) is_set-Local socket_extras-Disjoint,
  scan_rest is_set socket_extras (clear raw sock_type_mask) is_set-Sound is_set-Local
      socket_extras-Disjoint,
  keep-clear is_set socket_extras raw sock_type_mask is_set-Local type_apart,
)
