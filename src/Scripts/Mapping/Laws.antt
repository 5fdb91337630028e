-- ===== src/Scripts/Mapping/Laws.antt =====
-- scripts/syscallMapping.go: the rows for a header are those of its `#define __NR_` lines.
use mathlib.Core.List.{append_assoc, append-nil}
use syscap.Base.{
  true, false, ◌&&◌, List, [], ◌∷◌, ◌++◌, some, map, eqb, Bytes, codes, drop, length, join,
  split-join, Without, cut_at, has_prefix, trim_space, All, All-append, ◌≡◌, refl, sym, ap, ◌∙◌,
  inl, inr, Bool-cases, none_is,
}
use syscap.Scripts.Mapping.{
  skipped, define, line_of, names_and_ids, process_raw_text, id_row, name_row, write_rows,
  write_tables, process_syscall_name_to_id_mapping,
}
use syscap.Scripts.Writer.Laws.{flush-write_string}

-- A line of the header.
pub data HeaderLine : Type 0 where
  number : Bytes → Bytes → HeaderLine
  other : Bytes → HeaderLine

abbrev pub line_text : HeaderLine → Bytes
line_text (number name id) = codes "#define __NR_" ++ (name ++ (b' ' ∷ id))
line_text (other text) = text

abbrev pub IsHeaderLine : HeaderLine → Type 0
IsHeaderLine (number name id) = Without b' ' name × Without b'\n' name × Without b'\n' id
IsHeaderLine (other text) = Without b'\n' text × (has_prefix text (codes "#define __NR_") ≡ false)

abbrev pub header_names : List HeaderLine → List Bytes
header_names [] = []
header_names (number name id ∷ lines) = name ∷ header_names lines
header_names (other text ∷ lines) = header_names lines

abbrev pub header_ids : List HeaderLine → List Bytes
header_ids [] = []
header_ids (number name id ∷ lines) = id ∷ header_ids lines
header_ids (other text ∷ lines) = header_ids lines

-- The rows that a loop writes.
abbrev pub header_rows : (Bytes → Bytes → Bytes) → List HeaderLine → Bytes
header_rows row [] = []
header_rows row (number name id ∷ lines) = row name id ++ header_rows row lines
header_rows row (other text ∷ lines) = header_rows row lines

has_prefix-append :
    (s p q : Bytes) → has_prefix s (p ++ q) ≡ (has_prefix s p && has_prefix (drop (length p) s) q)
unfolding has_prefix
has_prefix-append s [] q = refl
has_prefix-append [] (b ∷ p) q = refl
has_prefix-append (c ∷ s) (b ∷ p) q = elim (Bool-cases (eqb c b)) [
  | inl same ↦ rw same (has_prefix-append s p q)
  | inr apart ↦ rw apart
]

line_of_number :
    (name id : Bytes) → Without b' ' name → line_of (line_text (number name id)) ≡ define name id
unfolding line_of has_prefix
line_of_number name id h = rw (cut_at b' ' name id h, line_of)

line_of_other :
    (text : Bytes) → has_prefix text (codes "#define __NR_") ≡ false → line_of text ≡ skipped
unfolding line_of
line_of_other text h = elim (Bool-cases (has_prefix text (codes "#define "))) [
  | inr apart ↦ rw apart
  | inl near ↦
      let both : (true && has_prefix (drop 8 text) (codes "__NR_")) ≡ false =
        ap (λ b. b && has_prefix (drop 8 text) (codes "__NR_")) (sym near)
        ∙ sym (has_prefix-append text (codes "#define ") (codes "__NR_"))
        ∙ h in
      rw near (rw both)
]

names_and_ids-line_text :
    (lines : List HeaderLine)
    → All IsHeaderLine lines
    → names_and_ids (map line_text lines) ≡ some (header_names lines, header_ids lines)
unfolding names_and_ids
names_and_ids-line_text [] h = refl
names_and_ids-line_text (number name id ∷ lines) h =
    rw (line_of_number name id h.0.0, names_and_ids) (rw (names_and_ids-line_text lines h.1))
names_and_ids-line_text (other text ∷ lines) h =
    rw (line_of_other text h.0.1, names_and_ids) (names_and_ids-line_text lines h.1)

line_text-Without :
    (lines : List HeaderLine) → All IsHeaderLine lines → All (Without b'\n') (map line_text lines)
line_text-Without [] h = tt
line_text-Without (number name id ∷ lines) h = (
  All-append _ (codes "#define __NR_") _ (none_is (λ c. eqb c b'\n') (codes "#define __NR_") refl)
      (All-append _ name _ h.0.1 (refl, h.0.2)),
  line_text-Without lines h.1,
)
line_text-Without (other text ∷ lines) h = (h.0.0, line_text-Without lines h.1)

process_raw_text-join :
    (line : HeaderLine) (lines : List HeaderLine)
    → All IsHeaderLine (line ∷ lines)
    → process_raw_text (join (codes "\n") (map line_text (line ∷ lines)))
      ≡ some (header_names (line ∷ lines), header_ids (line ∷ lines))
unfolding process_raw_text
process_raw_text-join line lines h =
    ap names_and_ids
      (split-join b'\n' (line_text line) (map line_text lines) (line_text-Without (line ∷ lines) h))
    ∙ names_and_ids-line_text (line ∷ lines) h

write_rows_header :
    (row : Bytes → Bytes → Bytes) (lines : List HeaderLine) (file : Bytes)
    → write_rows row (header_names lines) (header_ids lines) file
      ≡ some (file ++ header_rows row lines)
unfolding write_rows
write_rows_header row [] file = ap some (sym (append-nil file))
write_rows_header row (other text ∷ lines) file = write_rows_header row lines file
write_rows_header row (number name id ∷ lines) file =
    ap (write_rows row (header_names lines) (header_ids lines))
      (flush-write_string (row name id) file)
    ∙ write_rows_header row lines (file ++ row name id)
    ∙ ap some (append_assoc file (row name id) (header_rows row lines))

-- Where the command prints a header whose lines are `#define __NR_`, a name, a space and an id, or
-- lines that do not begin with `#define __NR_`, the file gets a row of the first table and then one of
-- the reversed table for each of the former lines, in order, and for no other.
pub process_syscall_name_to_id_mapping_lem :
    (out file : Bytes) (line : HeaderLine) (lines : List HeaderLine)
    → trim_space out ≡ join (codes "\n") (map line_text (line ∷ lines))
    → All IsHeaderLine (line ∷ lines)
    → process_syscall_name_to_id_mapping (some out) file
      ≡ some ((file ++ header_rows id_row (line ∷ lines)) ++ header_rows name_row (line ∷ lines))
unfolding process_syscall_name_to_id_mapping
process_syscall_name_to_id_mapping_lem out file line lines printed h =
    rw
      (
        ap process_raw_text printed ∙ process_raw_text-join line lines h,
        process_syscall_name_to_id_mapping,
      )
      (rw (write_rows_header id_row (line ∷ lines) file, write_tables)
        (write_rows_header name_row (line ∷ lines) (file ++ header_rows id_row (line ∷ lines))))
