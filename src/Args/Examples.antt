-- ===== src/Args/Examples.antt =====
-- parse_arg.go: some texts.
use syscap.Args.Decode.{
  base_type, sock_type_mask, scan, is_set, is_set_nonzero, names, sort_strings, with_remaining,
  joined_or_decimal, decode_bitmask, o_accmode, access_mode, tmpfile, sync, decode_open_flags,
  exit_signal_mask, exit_signal, decode_clone_flags, decode_socket_type,
}
use syscap.Args.Flags.{
  socket_extras, decode_socket_type-eq-text, bitmask_text, decode_bitmask-eq-text,
  mmap_protections-Disjoint, decode_clone_flags-eq-text,
}
use syscap.Args.Format.{format_parsed_arguments}
use syscap.Args.OpenFlags.{holds, decode_open_flags-eq-text}
use syscap.Args.Scan.{total}
use syscap.Args.Tables.{mmap_protections, open_flag_bits, clone_flags}
use syscap.Base.{
  ◌-◌, clear, sort_by, hexadecimal, codes, join, keep, bit_and, [], ◌∷◌, ◌++◌, some, ◌≡◌, refl,
}

decode_bitmask-eq-text_example :
    decode_bitmask 5 mmap_protections "PROT_NONE" ≡ bitmask_text 5 mmap_protections
decode_bitmask-eq-text_example =
    decode_bitmask-eq-text 5 mmap_protections "PROT_NONE" mmap_protections-Disjoint

decode_bitmask_text :
    decode_bitmask 0x15 mmap_protections "PROT_NONE" ≡ codes "PROT_EXEC|PROT_READ|0x10"
unfolding decode_bitmask mmap_protections join scan is_set_nonzero clear sort_by hexadecimal
decode_bitmask_text = refl

decode_clone_flags-eq-text_example :
    let found = keep (is_set 0x10000011) clone_flags in
    decode_clone_flags 0x10000011
    ≡ joined_or_decimal
        (with_remaining
          (sort_strings (exit_signal (bit_and 0x10000011 exit_signal_mask) ++ names found))
          (0x10000011 - bit_and 0x10000011 exit_signal_mask - total found))
        0x10000011
decode_clone_flags-eq-text_example = decode_clone_flags-eq-text 0x10000011

decode_open_flags-eq-text_example :
    let found = keep (holds 0x410002) (tmpfile ∷ (sync ∷ open_flag_bits)) in
    let mode = bit_and 0x410002 o_accmode in
    decode_open_flags 0x410002
    ≡ join (codes "|") (
        with_remaining
          (sort_strings (access_mode mode ∷ names found))
          (0x410002 - mode - total found))
decode_open_flags-eq-text_example = decode_open_flags-eq-text 0x410002

decode_open_flags_text : decode_open_flags 0x410002 ≡ codes "O_RDWR|O_TMPFILE"
unfolding decode_open_flags open_flag_bits join scan is_set clear sort_by
decode_open_flags_text = refl

decode_socket_type-eq-text_example :
    let found = keep (is_set 0x80803) socket_extras in
    decode_socket_type 0x80803
    ≡ joined_or_decimal
        (with_remaining
          (sort_strings (base_type 0x80803 ++ names found))
          (0x80803 - bit_and 0x80803 sock_type_mask - total found))
        0x80803
decode_socket_type-eq-text_example = decode_socket_type-eq-text 0x80803

decode_socket_type_text : decode_socket_type 0x80803 ≡ codes "SOCK_CLOEXEC|SOCK_NONBLOCK|SOCK_RAW"
unfolding decode_socket_type join scan is_set clear sort_by
decode_socket_type_text = refl

clone_text :
    format_parsed_arguments "clone" (0x11200011 ∷ 2 ∷ 3 ∷ 4 ∷ 5 ∷ 6 ∷ [])
    ≡ some (
        codes
          "unsigned long clone_flags=CLONE_CHILD_CLEARTID|CLONE_CHILD_SETTID|CLONE_NEWUSER|SIGNAL_17, unsigned long newsp=2, int * parent_tidptr=3, int * child_tidptr=4, unsigned long tls=5")
unfolding format_parsed_arguments join
clone_text = refl
