-- ===== src/Args/Total.antt =====
-- parse_arg.go: FormatParsedArguments never reads past the six raw arguments.
use syscap.Args.Format.{format_field, format_fields, format_parsed_arguments}
use syscap.Base.{
  ℕ, suc, ◌+◌, ◌≤◌, String, List, [], ◌∷◌, some, ◌≡◌, refl, arith, inl, inr, Option-cases, Bytes,
  codes, join, get_elem?-lt, length, lookup, string_eq,
}
use syscap.Syscall.RoundTrip.{length-fields-le}
use syscap.Syscall.{syscall_fields}

format_fields_total :
    (name : String) (raw_args : List ℕ) (idx : ℕ) (fields : List String)
    → idx + length fields ≤ length raw_args
    → (parts : List Bytes) × (format_fields name raw_args idx fields ≡ some parts)
unfolding format_fields
format_fields_total name raw_args idx [] h = ([], refl)
format_fields_total name raw_args idx (field ∷ fields) h =
    let (raw, found) = get_elem?-lt raw_args idx (omega arith) in
    let (parts, later) = format_fields_total name raw_args (suc idx) fields (omega arith) in
    (format_field name idx field raw ∷ parts, rw (found, later, format_fields))

-- For an event with six arguments FormatParsedArguments returns a text, whatever the syscall's name.
pub format_parsed_arguments_total :
    (name : String) (raw_args : List ℕ)
    → length raw_args ≡ 6
    → (text : Bytes) × (format_parsed_arguments name raw_args ≡ some text)
unfolding format_parsed_arguments
format_parsed_arguments_total name raw_args six = elim (Option-cases (lookup name syscall_fields)) [
  | inl unknown ↦ ([], rw (unknown, format_parsed_arguments))
  | inr (fields, known) ↦
      let (parts, done) =
        format_fields_total name raw_args 0 fields (omega (arith, length-fields-le name known)) in
      (join (codes ", ") parts, rw (known, done, format_parsed_arguments))
]
