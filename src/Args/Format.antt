-- ===== src/Args/Format.antt =====
-- parse_arg.go: FormatParsedArguments and ParseArgumentValue. A read of rawArgs past its six
-- entries panics in Go; here it gives `none`.
use mathlib.Core.Option
use syscap.Args.Decl.{parse_argument_decl, argument_name}
use syscap.Args.Decode.{
  scan, is_set, is_set_nonzero, decode_exact, decode_bitmask, decode_socket_type, decode_open_flags,
  decode_clone_flags,
}
use syscap.Args.Tables.{
  socket_families, namespace_flags, mmap_protections, mmap_flags, ptrace_requests, bpf_commands,
  seccomp_operations, seccomp_flags, prctl_options,
}
use syscap.Base.{
  ℕ, suc, ◌||◌, String, List, [], ◌∷◌, ◌++◌, Option, none, some, if◌then◌else◌, ◌==◌, string_eq,
  bytes_has_eq, get_elem?, lookup, Bytes, codes, join, decimal, hexadecimal, clear, sort_by,
}
use syscap.Syscall.{syscall_fields}

-- The `switch syscallName`; a field without a decoder is printed in decimal.
unfoldable pub parse_argument_value_by_field : String → Bytes → ℕ → Bytes
unfolding socket_families namespace_flags mmap_protections mmap_flags ptrace_requests bpf_commands
    seccomp_operations seccomp_flags prctl_options decode_exact decode_bitmask decode_socket_type
    decode_open_flags decode_clone_flags scan is_set is_set_nonzero clear sort_by join decimal
    hexadecimal
parse_argument_value_by_field syscall_name field_name raw =
    let field = λ (s : String). field_name == codes s in
    if syscall_name == "socket"
    then if field "family"
      then decode_exact raw socket_families
      else if field "type"
      then decode_socket_type raw
      else decimal raw
    else if syscall_name == "clone"
    then if field "clone_flags" then decode_clone_flags raw else decimal raw
    else if syscall_name == "unshare"
    then if field "unshare_flags" then decode_bitmask raw namespace_flags "" else decimal raw
    else if syscall_name == "mmap"
    then if field "prot"
      then decode_bitmask raw mmap_protections "PROT_NONE"
      else if field "flags"
      then decode_bitmask raw mmap_flags ""
      else decimal raw
    else if syscall_name == "mprotect" || syscall_name == "pkey_mprotect"
    then if field "prot" then decode_bitmask raw mmap_protections "PROT_NONE" else decimal raw
    else if syscall_name == "open" || syscall_name == "openat"
    then if field "flags" then decode_open_flags raw else decimal raw
    else if syscall_name == "ptrace"
    then if field "request" then decode_exact raw ptrace_requests else decimal raw
    else if syscall_name == "bpf"
    then if field "cmd" then decode_exact raw bpf_commands else decimal raw
    else if syscall_name == "seccomp"
    then if field "op"
      then decode_exact raw seccomp_operations
      else if field "flags"
      then decode_bitmask raw seccomp_flags "0"
      else decimal raw
    else if syscall_name == "prctl"
    then if field "option" then decode_exact raw prctl_options else decimal raw
    else decimal raw

-- An index below 0 is not met: the only caller counts up from 0.
unfoldable pub parse_argument_value : String → ℕ → ℕ → Bytes
unfolding syscall_fields argument_name parse_argument_value_by_field
parse_argument_value syscall_name arg_index raw = elim (lookup syscall_name syscall_fields) [
  | none ↦ decimal raw
  | some fields ↦ elim (get_elem? fields arg_index) [
    | none ↦ decimal raw
    | some field_decl ↦
        parse_argument_value_by_field syscall_name (argument_name (codes field_decl)) raw
  ]
]

-- `Type name=value`, or `name=value` where the declaration has no type.
unfoldable pub format_field : String → ℕ → String → ℕ → Bytes
unfolding parse_argument_decl parse_argument_value
format_field syscall_name idx field_decl raw =
    let decl = parse_argument_decl (codes field_decl) in
    let named = decl.name ++ (codes "=" ++ parse_argument_value syscall_name idx raw) in
    if decl.type_text == [] then named else decl.type_text ++ (codes " " ++ named)

-- The loop over the declarations from index `idx` on.
unfoldable pub format_fields : String → List ℕ → ℕ → List String → Option (List Bytes)
format_fields syscall_name raw_args idx [] = some []
format_fields syscall_name raw_args idx (field_decl ∷ rest) =
    let later = format_fields syscall_name raw_args (suc idx) rest in
    elim (get_elem? raw_args idx) [
      | none ↦ none
      | some raw ↦ Option.map (λ parts. format_field syscall_name idx field_decl raw ∷ parts) later
    ]

-- A syscall with no declarations, or with an empty list of them, gives the empty text.
unfoldable pub format_parsed_arguments : String → List ℕ → Option Bytes
unfolding syscall_fields format_fields format_field
format_parsed_arguments syscall_name raw_args = elim (lookup syscall_name syscall_fields) [
  | none ↦ some []
  | some fields ↦
      Option.map (λ parts. join (codes ", ") parts) (format_fields syscall_name raw_args 0 fields)
]
