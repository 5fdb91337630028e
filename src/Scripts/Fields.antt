-- ===== src/Scripts/Fields.antt =====
-- scripts/syscallFields.go: the declarations of a syscall's arguments, from the format files of the
-- kernel's tracepoints.
pub mod Laws
pub mod Files
pub mod Names
use syscap.Args.Decl.{last_part, but_last}
use syscap.Base.Result.{Result, ok, err}
use syscap.Base.{
  ℕ, String, Bool, true, false, not, ◌||◌, List, [], ◌∷◌, ◌++◌, Option, none, some, map,
  if◌then◌else◌, eqb, leb, ◌==◌, bytes_has_eq, Bytes, codes, length, drop, join, split, has_prefix,
  trim_space,
}
use syscap.Scripts.Writer.{new_writer, write_all, flush, Writer}

-- strings.TrimSuffix and strings.HasSuffix at one byte.
unfoldable pub trim_suffix : ℕ → Bytes → Bytes
trim_suffix b [] = []
trim_suffix b (c ∷ []) = if eqb c b then [] else c ∷ []
trim_suffix b (c ∷ (d ∷ s)) = c ∷ trim_suffix b (d ∷ s)

unfoldable pub has_suffix : ℕ → Bytes → Bool
has_suffix b [] = false
has_suffix b (c ∷ []) = eqb c b
has_suffix b (c ∷ (d ∷ s)) = has_suffix b (d ∷ s)

-- `parts[0]` of what strings.Split gives.
abbrev pub first_piece : List Bytes → Bytes
first_piece [] = []
first_piece (p ∷ ps) = p

abbrev pub with_name : Bytes → Bytes → Bytes
with_name type_text field_name =
    type_text ++ ((if has_suffix b'*' type_text then [] else codes " ") ++ field_name)

-- The type and the name among the words, but for a name with a `_` in front.
unfoldable pub declared : List Bytes → Option Bytes
unfolding has_suffix join last_part but_last
declared [] = none
declared (p ∷ []) = none
declared (p ∷ (q ∷ ps)) =
    let field_name = last_part q ps in
    if has_prefix field_name (codes "_")
    then none
    else some (with_name (join (codes " ") (p ∷ but_last q ps)) field_name)

-- The declaration on a line that is trimmed.
unfoldable pub field_of : Bytes → Option Bytes
unfolding trim_suffix split declared
field_of line =
    if has_prefix line (codes "field:")
    then declared (split b' ' (first_piece (split b';' (trim_suffix b';' (drop 6 line)))))
    else none

abbrev pub in_front : Option Bytes → List Bytes → List Bytes
in_front none fields = fields
in_front (some field) fields = field ∷ fields

-- The loop over the lines; `seen` is seenBlankLine.
unfoldable pub fields_from : Bool → List Bytes → List Bytes
unfolding field_of
fields_from seen [] = []
fields_from seen (raw ∷ lines) =
    let line = trim_space raw in
    let rest = fields_from (line == [] || seen) lines in
    if line == [] || not seen then rest else in_front (field_of line) rest

-- bufio.Scanner: the lines, up to the first that has no room in its buffer of 64 KiB.
unfoldable pub short_lines : List Bytes → List Bytes
short_lines [] = []
short_lines (line ∷ lines) =
    let rest = short_lines lines in if leb (length line) 65535 then line ∷ rest else []

unfoldable pub but_last_empty : List Bytes → List Bytes
but_last_empty [] = []
but_last_empty ([] ∷ []) = []
but_last_empty ((c ∷ line) ∷ []) = (c ∷ line) ∷ []
but_last_empty (line ∷ (next ∷ lines)) = line ∷ but_last_empty (next ∷ lines)

unfoldable pub scan_lines : Bytes → List Bytes
unfolding short_lines but_last_empty split trim_suffix
scan_lines content = map (trim_suffix b'\r') (short_lines (but_last_empty (split b'\n' content)))

unfoldable pub syscall_text : Bytes → List Bytes → List Bytes
syscall_text name fields =
    (codes "\"" ++ (name ++ codes "\": {\n"))
    ∷ (map (λ field. codes "    \"" ++ (field ++ codes "\",\n")) fields ++ (codes "},\n" ∷ []))

abbrev pub format_path : String → Bytes
format_path name =
    codes "/sys/kernel/tracing/events/syscalls/sys_enter_" ++ (codes name ++ codes "/format")

-- The content of a path, and whether syscall_fields.txt opens at a syscall's turn.
module _ (content_of : Bytes → Option Bytes) (opens : Bytes → Bool) where
  -- From the content of syscall_fields.txt to what is appended, or up to the error.
  unfoldable pub get_syscall_fields : List (ℕ × String) → Bytes → Result Bytes Bytes
  unfolding fields_from scan_lines syscall_text write_all flush
  get_syscall_fields [] file = ok file
  get_syscall_fields ((number, name) ∷ order) file = elim (content_of (format_path name)) [
    | none ↦ get_syscall_fields order file
    | some content ↦ elim (opens (codes name)) [
      | false ↦ err file
      | true ↦
          get_syscall_fields order
            (flush (
              write_all (syscall_text (codes name) (fields_from false (scan_lines content)))
                (new_writer file))).file
    ]
  ]
