-- ===== src/Scripts/Mapping.antt =====
-- scripts/syscallMapping.go: the names and ids from the kernel's header, and the rows of the two
-- tables that internal/syscalls.go holds.
pub mod Laws
use mathlib.Core.Option
use syscap.Base.{
  Bool, List, [], ◌∷◌, ◌++◌, Option, none, some, if◌then◌else◌, Bytes, codes, drop, split, cut,
  has_prefix, trim_space,
}
use syscap.Scripts.Writer.{new_writer, write_string, flush, Writer}

-- What the loop of processRawText does with a line.
pub data Line : Type 0 where
  skipped malformed : Line
  define : Bytes → Bytes → Line

unfoldable pub line_of : Bytes → Line
unfolding cut has_prefix
line_of line =
    if has_prefix line (codes "#define ")
    then if has_prefix (drop 8 line) (codes "__NR_")
      then elim (cut b' ' (drop 5 (drop 8 line))) [
        | none ↦ malformed
        | some (before, after) ↦ define before after
      ]
      else skipped
    else skipped

unfoldable pub names_and_ids : List Bytes → Option (List Bytes × List Bytes)
unfolding line_of
names_and_ids [] = some ([], [])
names_and_ids (line ∷ lines) = elim (line_of line) [
  | skipped ↦ names_and_ids lines
  | malformed ↦ none
  | define name id ↦ Option.map (λ (names, ids). (name ∷ names, id ∷ ids)) (names_and_ids lines)
]

-- `none` is the error.
unfoldable pub process_raw_text : Bytes → Option (List Bytes × List Bytes)
unfolding names_and_ids split
process_raw_text raw_text = names_and_ids (split b'\n' raw_text)

abbrev pub id_row : Bytes → Bytes → Bytes
id_row name id = id ++ (codes ": \"" ++ (name ++ codes "\",\n"))

abbrev pub name_row : Bytes → Bytes → Bytes
name_row name id = codes "\"" ++ (name ++ (codes "\": " ++ (id ++ codes ",\n")))

-- A loop over the names, which reads `id[i]`, with a writer of its own for each row; `none` is an
-- index out of range.
unfoldable pub write_rows : (Bytes → Bytes → Bytes) → List Bytes → List Bytes → Bytes → Option Bytes
unfolding write_string flush
write_rows row [] ids file = some file
write_rows row (name ∷ names) [] file = none
write_rows row (name ∷ names) (id ∷ ids) file =
    write_rows row names ids (flush (write_string (row name id) (new_writer file))).file

abbrev pub write_tables : List Bytes → List Bytes → Bytes → Option Bytes
write_tables names ids file = elim (write_rows id_row names ids file) [
  | none ↦ none
  | some file' ↦ write_rows name_row names ids file'
]

-- getRawText, from what the command prints; an error is printed, and the text is empty.
abbrev pub get_raw_text : Option Bytes → Bytes
get_raw_text none = []
get_raw_text (some out) = trim_space out

-- From what the command prints and the file that os.OpenFile has opened to the file's content. An
-- error of processRawText is printed, and there are no names.
unfoldable pub process_syscall_name_to_id_mapping : Option Bytes → Bytes → Option Bytes
unfolding process_raw_text write_rows
process_syscall_name_to_id_mapping out file = elim (process_raw_text (get_raw_text out)) [
  | none ↦ write_tables [] [] file
  | some (names, ids) ↦ write_tables names ids file
]
