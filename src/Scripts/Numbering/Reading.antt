-- ===== src/Scripts/Numbering/Reading.antt =====
-- scripts/syscall_numbering.go: what a reader of outputSyscallNumber's file finds.
use mathlib.Core.List.{Perm, append_assoc}
use mathlib.Core.Option
use syscap.Base.{
  Without, split_first, split_piece, ℕ, ◌^◌, ◌<◌, String, Bool, true, false, not, all, ◌&&◌, List,
  [], ◌∷◌, ◌++◌, Option, none, some, map, if◌then◌else◌, eqb, ltb, ltb→lt, ◌==◌, bytes_has_eq,
  Bytes, codes, decimal, decimal-Digits, Digits, is_digit, split, ℤ, pos, All-append, none_is, ◌≡◌,
  refl, ap, ◌∙◌, inl, inr, arith, Bool-cases,
}
use syscap.Scripts.Numbering.Laws.{sum_of, sum_of-Perm}
use syscap.Scripts.Numbering.{upper, define_row, output_syscall_number}
use syscap.Scripts.Writer.Laws.{concat, flush-write_all}
use syscap.Startup.Container.Numbers.{atoi-decimal}
use syscap.Startup.Container.{atoi}
use syscap.Syscall.{syscall_table}

-- A name and a number behind `#define`.
abbrev defined_in : List Bytes → Option (Bytes × ℤ)
defined_in (word ∷ (name ∷ (number ∷ []))) =
    if word == codes "#define" then Option.map (λ n. (name, n)) (atoi number) else none
defined_in _ = none

-- A line of a header, in words between single spaces.
abbrev pub read_define : Bytes → Option (Bytes × ℤ)
read_define line = defined_in (split b' ' line)

-- What should be defined for an entry of SyscallTable.
abbrev pub definition_of : ℕ × String → Bytes × ℤ
definition_of (number, name) = (codes "__SYS_" ++ map upper (codes name), pos number)

-- Entries whose names are one word and whose numbers are ints.
abbrev is_plain : ℕ × String → Bool
is_plain (number, name) =
    all (λ c. not (eqb c b' ')) (map upper (codes name))
    && (all (λ c. not (eqb c b'\n')) (map upper (codes name)) && ltb number (2 ^ 63))

abbrev unreadable : ℕ × String → ℕ
unreadable e = if is_plain e then 0 else 1

table_readable : sum_of unreadable syscall_table ≡ 0
unfolding syscall_table sum_of
table_readable = refl

Digits-Without : (sep : ℕ) (s : Bytes) → is_digit sep ≡ false → Digits s → Without sep s
Digits-Without sep [] h d = tt
Digits-Without sep (c ∷ s) h d = (no_digit c sep d.0 h, Digits-Without sep s h d.1)
  where
    no_digit : (c sep : ℕ) → is_digit c ≡ true → is_digit sep ≡ false → eqb c sep ≡ false
    no_digit c sep d h = ground arith

-- One row, without its end of line.
abbrev line_of : ℕ × String → Bytes
line_of (number, name) =
    codes "#define"
    ++ (b' ' ∷ ((codes "__SYS_" ++ map upper (codes name)) ++ (b' ' ∷ decimal number)))

define_row-line_of : (e : ℕ × String) (s : Bytes) → define_row e ++ s ≡ line_of e ++ (b'\n' ∷ s)
unfolding define_row
define_row-line_of (number, name) s = simp (append_assoc)

read_define-line_of :
    (number : ℕ) (name : String)
    → Without b' ' (map upper (codes name))
    → number < 2 ^ 63
    → read_define (line_of (number, name)) ≡ some (definition_of (number, name))
read_define-line_of number name word small =
    let defined = codes "__SYS_" ++ map upper (codes name) in
    ap defined_in (
      split_first b' ' (codes "#define") (defined ++ (b' ' ∷ decimal number))
        (none_is (λ c. eqb c b' ') (codes "#define") refl)
      ∙ ap (λ l. codes "#define" ∷ l)
          (split_first b' ' defined (decimal number) (
              All-append _ (codes "__SYS_") (map upper (codes name))
                (none_is (λ c. eqb c b' ') (codes "__SYS_") refl) word)
            ∙ ap (λ l. defined ∷ l)
                (split_piece b' ' (decimal number)
                  (Digits-Without b' ' (decimal number) refl (decimal-Digits number)))))
    ∙ ap (Option.map (λ n. (defined, n))) (atoi-decimal number small)

both : (a b : Bool) → (a && b) ≡ true → (a ≡ true) × (b ≡ true)
both true b h = (refl, h)
both false b h = cc h

line_of-Without :
    (number : ℕ) (name : String)
    → Without b'\n' (map upper (codes name))
    → Without b'\n' (line_of (number, name))
line_of-Without number name whole =
    let no_end =
      λ (s : Bytes) (h : all (λ c. not (eqb c b'\n')) s ≡ true). none_is (λ c. eqb c b'\n') s h in
    let defined = codes "__SYS_" ++ map upper (codes name) in
    let last : Without b'\n' (b' ' ∷ decimal number) =
      (refl, Digits-Without b'\n' (decimal number) refl (decimal-Digits number)) in
    let behind : Without b'\n' (b' ' ∷ (defined ++ (b' ' ∷ decimal number))) = (
      refl,
      All-append _ defined (b' ' ∷ decimal number)
          (All-append _ (codes "__SYS_") (map upper (codes name)) (no_end (codes "__SYS_") refl)
            whole)
          last,
    ) in
    All-append _ (codes "#define") (b' ' ∷ (defined ++ (b' ' ∷ decimal number)))
      (no_end (codes "#define") refl) behind

read_row :
    (e : ℕ × String) (s : Bytes)
    → is_plain e ≡ true
    → map read_define (split b'\n' (define_row e ++ s))
      ≡ some (definition_of e) ∷ map read_define (split b'\n' s)
read_row (number, name) s plain =
    let upper_name = map upper (codes name) in
    let (word, others) =
      both (all (λ c. not (eqb c b' ')) upper_name)
        (all (λ c. not (eqb c b'\n')) upper_name && ltb number (2 ^ 63)) plain in
    let (whole, small) =
      both (all (λ c. not (eqb c b'\n')) upper_name) (ltb number (2 ^ 63)) others in
    ap (λ t. map read_define (split b'\n' t)) (define_row-line_of (number, name) s)
    ∙ ap (map read_define) (
        split_first b'\n' (line_of (number, name)) s
          (line_of-Without number name (none_is (λ c. eqb c b'\n') upper_name whole)))
    ∙ ap (λ d. d ∷ map read_define (split b'\n' s))
        (read_define-line_of number name (none_is (λ c. eqb c b' ') upper_name word)
          (ltb→lt number (2 ^ 63) small))

read_rows :
    (order : List (ℕ × String))
    → sum_of unreadable order ≡ 0
    → map read_define (split b'\n' (concat (map define_row order)))
      ≡ map (λ e. some (definition_of e)) order ++ (none ∷ [])
unfolding sum_of
read_rows [] h = unfold split in refl
read_rows (e ∷ order) h = elim (Bool-cases (is_plain e)) [
  | inl plain ↦
      read_row e (concat (map define_row order)) plain
      ∙ ap (λ l. some (definition_of e) ∷ l) (read_rows order (omega (arith, rw plain at h)))
  | inr odd ↦ absurd (omega (arith, rw odd at h))
]

-- In whatever order Go ranges over SyscallTable, outputSyscallNumber leaves a file in which a reader
-- of `#define` lines, which splits it at the ends of lines and these at spaces, and reads a number as
-- strconv.Atoi does, finds for each syscall of the table, in this order, the name `__SYS_` with the
-- syscall's in capitals, defined as its number, and nothing else behind them.
pub read_define-output_syscall_number :
    (order : List (ℕ × String))
    → Perm order syscall_table
    → (file : Bytes) × (output_syscall_number (some []) order ≡ some file)
      × (map read_define (split b'\n' file)
          ≡ map (λ e. some (definition_of e)) order ++ (none ∷ []))
unfolding output_syscall_number
read_define-output_syscall_number order p = (
  concat (map define_row order),
  ap some (flush-write_all (map define_row order) []),
  read_rows order (sum_of-Perm unreadable p ∙ table_readable),
)
