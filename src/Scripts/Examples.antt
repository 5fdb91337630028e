-- ===== src/Scripts/Examples.antt =====
-- scripts/: a header of two syscalls, a format file, and the table in the order of the source.
use mathlib.Core.List.Perm
use syscap.Args.Decl.{argument_name}
use syscap.Base.Result.{ok}
use syscap.Base.{
  none, split, ℕ, String, true, false, not, all, leb, trim_space, skip_spaces, subst, some_inj, inl,
  inr, Bool-cases, bytes_has_eq, List, [], ◌∷◌, ◌++◌, Option, some, map, Bytes, codes, length,
  none_is, eqb, ◌≡◌, refl, All, join, is_space, has_prefix,
}
use syscap.Scripts.Fields.Files.{
  Format, IsFormat, IsLine, file_text, format_lines, get_syscall_fields-written,
}
use syscap.Scripts.Fields.Laws.{Field, IsField, declaration}
use syscap.Scripts.Fields.Names.{argument_name-declaration}
use syscap.Scripts.Fields.{get_syscall_fields, trim_suffix, has_suffix, syscall_text}
use syscap.Scripts.Mapping.Laws.{
  HeaderLine, number, other, IsHeaderLine, process_syscall_name_to_id_mapping_lem,
}
use syscap.Scripts.Mapping.{process_syscall_name_to_id_mapping}
use syscap.Scripts.Numbering.Laws.{fill_sys_ptr_arg_table_for_go_lost}
use syscap.Scripts.Numbering.Reading.{read_define, definition_of, read_define-output_syscall_number}
use syscap.Scripts.Numbering.{output_syscall_number, go_row, fill_sys_ptr_arg_table_for_go}
use syscap.Scripts.Writer.Laws.{concat}
use syscap.Syscall.{syscall_table}

fill_sys_ptr_arg_table_for_go_lost_example :
    (file : Bytes) × (lost : Bytes) × (fill_sys_ptr_arg_table_for_go (some []) syscall_table
      ≡ some file)
    × (file ++ lost ≡ concat (map go_row syscall_table))
    × (length file ≡ 4096)
    × (length lost ≡ 460)
fill_sys_ptr_arg_table_for_go_lost_example =
    fill_sys_ptr_arg_table_for_go_lost syscall_table (Perm.refl syscall_table)

read_define-output_syscall_number_example :
    (file : Bytes) × (output_syscall_number (some []) syscall_table ≡ some file)
    × (map read_define (split b'\n' file)
        ≡ map (λ e. some (definition_of e)) syscall_table ++ (none ∷ []))
read_define-output_syscall_number_example =
    read_define-output_syscall_number syscall_table (Perm.refl syscall_table)

abbrev two_calls : List (ℕ × String)
two_calls = (3, "close") ∷ ((39, "getpid") ∷ [])

abbrev guard : HeaderLine
guard = other (codes "#define _ASM_UNISTD_64_H")

abbrev two_lines : List HeaderLine
two_lines =
    other [] ∷ (number (codes "read") (codes "0") ∷ (number (codes "write") (codes "1") ∷ []))

without : (b : ℕ) (s : Bytes) → all (λ c. not (eqb c b)) s ≡ true → All (λ c. eqb c b ≡ false) s
without b s h = none_is (λ c. eqb c b) s h

two_lines-IsHeaderLine : All IsHeaderLine (guard ∷ two_lines)
unfolding has_prefix
two_lines-IsHeaderLine = (
  (without b'\n' (codes "#define _ASM_UNISTD_64_H") refl, refl),
  (
    (tt, refl),
    (
      (
        without b' ' (codes "read") refl,
        without b'\n' (codes "read") refl,
        without b'\n' (codes "0") refl,
      ),
      (
        (
          without b' ' (codes "write") refl,
          without b'\n' (codes "write") refl,
          without b'\n' (codes "1") refl,
        ),
        tt,
      ),
    ),
  ),
)

abbrev header_text : Bytes
header_text = codes "#define _ASM_UNISTD_64_H\n\n#define __NR_read 0\n#define __NR_write 1"

process_syscall_name_to_id_mapping_lem_example :
    process_syscall_name_to_id_mapping (some (header_text ++ codes "\n")) []
    ≡ some (codes "0: \"read\",\n1: \"write\",\n\"read\": 0,\n\"write\": 1,\n")
unfolding join trim_space skip_spaces
process_syscall_name_to_id_mapping_lem_example =
    process_syscall_name_to_id_mapping_lem (header_text ++ codes "\n") [] guard two_lines refl
      two_lines-IsHeaderLine

-- `const char * filename`, behind the kernel's own number.
abbrev number_field : Field
number_field = record {
  first = codes "int";
  more = [];
  field_name = codes "__syscall_nr";
  layout = codes "\toffset:8;\tsize:4;\tsigned:1";
}

abbrev name_field : Field
name_field = record {
  first = codes "const";
  more = codes "char" ∷ (codes "*" ∷ []);
  field_name = codes "filename";
  layout = codes "\toffset:16;\tsize:8;\tsigned:0";
}

words_without :
    (b : ℕ) (ps : List Bytes)
    → all (all (λ c. not (eqb c b))) ps ≡ true
    → All (All (λ c. eqb c b ≡ false)) ps
words_without b [] h = tt
words_without b (p ∷ ps) h = elim (Bool-cases (all (λ c. not (eqb c b)) p)) [
  | inl here ↦ (without b p here, words_without b ps (rw here at h))
  | inr there ↦ cc (rw there at h)
]

abbrev number_field_words : List Bytes
number_field_words = number_field.first ∷ (number_field.more ++ number_field.field_name ∷ [])

number_field-IsField : IsField number_field
number_field-IsField = record {
  whole_words = words_without b' ' (number_field_words) refl;
  no_end = words_without b';' (number_field_words) refl;
}

abbrev name_field_words : List Bytes
name_field_words = name_field.first ∷ (name_field.more ++ name_field.field_name ∷ [])

name_field-IsField : IsField name_field
name_field-IsField = record {
  whole_words = words_without b' ' (name_field_words) refl;
  no_end = words_without b';' (name_field_words) refl;
}

abbrev one_format : Format
one_format = record {
  header =
      codes "name: sys_enter_x"
      ∷ (codes "format:" ∷ (codes "\tfield:int common_pid;\toffset:4;" ∷ []));
  own = number_field ∷ (name_field ∷ []);
  trailer = [] ∷ (codes "print fmt: x" ∷ []);
}

is_line :
    (line : Bytes)
    → all (λ c. not (eqb c b'\n')) line ≡ true
    → trim_suffix b'\r' line ≡ line
    → leb (length line) 65535 ≡ true
    → IsLine line
is_line line a b c = record { whole = without b'\n' line a; no_return = b; short = c }

one_format-IsFormat : IsFormat one_format
unfolding trim_suffix join trim_space skip_spaces has_prefix
one_format-IsFormat = record {
  lines = (
    is_line _ refl refl refl,
    (
      is_line _ refl refl refl,
      (
        is_line _ refl refl refl,
        (
          is_line _ refl refl refl,
          (
            is_line _ refl refl refl,
            (is_line _ refl refl refl, (is_line _ refl refl refl, (is_line _ refl refl refl, tt))),
          ),
        ),
      ),
    ),
  );
  header = (refl, (refl, (refl, tt)));
  own = (number_field-IsField, (name_field-IsField, tt));
  trailer = (refl, (refl, tt));
}

-- Every syscall has this file.
abbrev formats : String → Option Format
formats name = some one_format

abbrev content_of : Bytes → Option Bytes
content_of path = some (file_text (format_lines one_format))

get_syscall_fields-written_example :
    get_syscall_fields content_of (λ name. true) two_calls (codes "// ")
    ≡ ok (
        codes
          "// \"close\": {\n    \"const char *filename\",\n},\n\"getpid\": {\n    \"const char *filename\",\n},\n")
unfolding has_prefix join has_suffix syscall_text
get_syscall_fields-written_example =
    get_syscall_fields-written formats content_of (λ name. true) (λ name. refl) (λ name. refl)
      (λ name f h. subst IsFormat (some_inj h) one_format-IsFormat) two_calls (codes "// ")

argument_name-declaration_example : argument_name (declaration name_field) ≡ codes "filename"
unfolding has_suffix join
argument_name-declaration_example =
    argument_name-declaration name_field
      (
        none_is is_space (codes "const") refl,
        (none_is is_space (codes "char") refl, (none_is is_space (codes "*") refl, tt)),
      )
      (none_is is_space (codes "filename") refl, refl)
      (λ h. (codes "char" ∷ [], codes "*", refl, (refl, tt)))
