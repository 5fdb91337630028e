-- ===== src/Scripts/Fields/Files.antt =====
-- scripts/syscallFields.go: from the kernel's format files to the text of syscall_fields.txt.
use mathlib.Core.List.{append_assoc, append-nil}
use mathlib.Core.Option
use syscap.Base.Result.{ok}
use syscap.Base.{
  ℕ, String, Bool, true, false, List, [], ◌∷◌, ◌++◌, Option, none, some, map, leb, ◌==◌,
  bytes_has_eq, Bytes, codes, length, join, split, split-join, Without, has_prefix, trim_space,
  keep, All, All-append, ◌≡◌, refl, sym, ap, ◌∙◌, inl, inr, Option-cases,
}
use syscap.Scripts.Fields.Laws.{
  Field, field_line, IsField, is_user, declaration, fields_from_format,
}
use syscap.Scripts.Fields.{
  trim_suffix, fields_from, short_lines, but_last_empty, scan_lines, syscall_text, format_path,
  get_syscall_fields,
}
use syscap.Scripts.Writer.Laws.{concat, flush-write_all}
use syscap.Scripts.Writer.{new_writer, write_all, flush}

-- A line that the scanner gives back as it stands: no newline in it, no carriage return at its end,
-- and room for it in the buffer.
pub record IsLine (line : Bytes) : Type 0 where
  pub whole : Without b'\n' line
  pub no_return : trim_suffix b'\r' line ≡ line
  pub short : leb (length line) 65535 ≡ true

but_last_empty-lines : (lines : List Bytes) → but_last_empty (lines ++ [] ∷ []) ≡ lines
unfolding but_last_empty
but_last_empty-lines [] = refl
but_last_empty-lines ([] ∷ []) = refl
but_last_empty-lines ((c ∷ line) ∷ []) = refl
but_last_empty-lines ([] ∷ (next ∷ lines)) = ap (◌∷◌ []) (but_last_empty-lines (next ∷ lines))
but_last_empty-lines ((c ∷ line) ∷ (next ∷ lines)) =
    ap (◌∷◌ (c ∷ line)) (but_last_empty-lines (next ∷ lines))

short_lines-lines :
    (lines : List Bytes) → All IsLine lines → map (trim_suffix b'\r') (short_lines lines) ≡ lines
unfolding short_lines
short_lines-lines [] h = refl
short_lines-lines (line ∷ lines) h =
    rw h.0.short (rw h.0.no_return (ap (◌∷◌ line) (short_lines-lines lines h.1)))

-- The text of a file: a newline behind each line.
abbrev pub file_text : List Bytes → Bytes
file_text lines = join (codes "\n") (lines ++ [] ∷ [])

split-file_text :
    (lines : List Bytes) → All IsLine lines → split b'\n' (file_text lines) ≡ lines ++ [] ∷ []
split-file_text [] h = unfold split join in refl
split-file_text (line ∷ lines) h =
    split-join b'\n' line (lines ++ [] ∷ [])
      (h.0.whole, All-append _ lines ([] ∷ []) (pieces lines h.1) (tt, tt))
  where
    pieces : (lines : List Bytes) → All IsLine lines → All (Without b'\n') lines
    pieces [] h = tt
    pieces (line ∷ lines) h = (h.0.whole, pieces lines h.1)

scan_lines-file_text :
    (lines : List Bytes) → All IsLine lines → scan_lines (file_text lines) ≡ lines
unfolding scan_lines
scan_lines-file_text lines h =
    ap (λ ps. map (trim_suffix b'\r') (short_lines (but_last_empty ps))) (split-file_text lines h)
    ∙ ap (λ ps. map (trim_suffix b'\r') (short_lines ps)) (but_last_empty-lines lines)
    ∙ short_lines-lines lines h

-- A format file: the header with the common fields, the syscall's fields, and what follows.
pub record Format : Type 0 where
  pub header : List Bytes
  pub own : List Field
  pub trailer : List Bytes

abbrev pub format_lines : Format → List Bytes
format_lines f = f.header ++ ([] ∷ (map field_line f.own ++ f.trailer))

pub record IsFormat (f : Format) : Type 0 where
  pub lines : All IsLine (format_lines f)
  pub header : All (λ line. (trim_space line == []) ≡ false) f.header
  pub own : All IsField f.own
  pub trailer : All (λ line. has_prefix (trim_space line) (codes "field:") ≡ false) f.trailer

module _ (formats : String → Option Format) where
  -- What is written for each syscall with a format file.
  abbrev pub written : List (ℕ × String) → Bytes
  written [] = []
  written ((number, name) ∷ order) = elim (formats name) [
    | none ↦ written order
    | some f ↦
        concat (syscall_text (codes name) (map declaration (keep is_user f.own))) ++ written order
  ]

  -- Where the kernel has format files for some of the syscalls and syscall_fields.txt opens, then
  -- in whatever order Go ranges over the table, getSyscallFields appends for each of these syscalls
  -- its name and the declarations of its user fields, in order, skips the others, and ends with no
  -- error.
  pub get_syscall_fields-written :
      (content_of : Bytes → Option Bytes) (opens : Bytes → Bool)
      → ((name : String)
          → content_of (format_path name)
            ≡ Option.map (λ f. file_text (format_lines f)) (formats name))
      → ((name : Bytes) → opens name ≡ true)
      → ((name : String) (f : Format) → formats name ≡ some f → IsFormat f)
      → (order : List (ℕ × String)) (file : Bytes)
      → get_syscall_fields content_of opens order file ≡ ok (file ++ written order)
  unfolding get_syscall_fields
  get_syscall_fields-written content_of opens there writable whole [] file =
      ap ok (sym (append-nil file))
  get_syscall_fields-written content_of opens there writable whole ((number, name) ∷ order) file =
      elim (Option-cases (formats name)) [
        | inl missing ↦
            rw
              (
                there name ∙ ap (Option.map (λ f. file_text (format_lines f))) missing,
                get_syscall_fields,
              )
              (rw (missing, written)
                (get_syscall_fields-written content_of opens there writable whole order file))
        | inr (f, found) ↦
            let shape = whole name f found in
            let fields : fields_from false (scan_lines (file_text (format_lines f)))
                ≡ map declaration (keep is_user f.own) =
              ap (fields_from false) (scan_lines-file_text (format_lines f) shape.lines)
              ∙ fields_from_format f.header f.own f.trailer shape.header shape.own shape.trailer in
            let rows = syscall_text (codes name) (map declaration (keep is_user f.own)) in
            rw
              (
                there name ∙ ap (Option.map (λ f. file_text (format_lines f))) found,
                get_syscall_fields,
              )
              (rw (writable (codes name), get_syscall_fields)
                (rw (found, written)
                  (ap
                      (λ fs.
                        get_syscall_fields content_of opens order
                          (flush (write_all (syscall_text (codes name) fs) (new_writer file))).file)
                      fields
                    ∙ ap (get_syscall_fields content_of opens order) (flush-write_all rows file)
                    ∙ get_syscall_fields-written content_of opens there writable whole order
                        (file ++ concat rows)
                    ∙ ap ok (append_assoc file (concat rows) (written order)))))
      ]
