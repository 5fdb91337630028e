-- ===== src/Scripts/Numbering/Laws.antt =====
-- scripts/syscall_numbering.go: what stands in the three files, whatever the order of the range.
use mathlib.Core.List.{Permᴰ, Perm}
use mathlib.Core.Logic.{∥∥₁_elim}
use native.Mathlib.Nat.{ℕ_set}
use syscap.Base.{
  ℕ, ◌+◌, ◌≤◌, String, List, [], ◌∷◌, ◌++◌, some, map, if◌then◌else◌, leb, leb→le, Bytes, length,
  length-append, All, ◌≡◌, refl, ap, ◌∙◌, inl, inr, arith, Bool-cases,
}
use syscap.Scripts.Numbering.{go_row, fill_sys_ptr_arg_table_for_go}
use syscap.Scripts.Writer.Laws.{concat, length-write_all_file}
use syscap.Scripts.Writer.{new_writer, write_all, buffer_size}
use syscap.Syscall.{syscall_table}

unfoldable pub sum_of {ℓ} : {A : Type ℓ} → (A → ℕ) → List A → ℕ
sum_of f [] = 0
sum_of f (x ∷ xs) = f x + sum_of f xs

sum_of_step {ℓ} :
    {A : Type ℓ} (f : A → ℕ) {xs ys : List A} → Permᴰ xs ys → sum_of f xs ≡ sum_of f ys
unfolding sum_of
sum_of_step f Permᴰ.nil = refl
sum_of_step f (Permᴰ.cons same p) = omega (arith, ap f same, sum_of_step f p)
sum_of_step f (Permᴰ.swap same other) = omega (arith, ap f same, ap f other)
sum_of_step f (Permᴰ.trans p q) = sum_of_step f p ∙ sum_of_step f q

pub sum_of-Perm {ℓ} :
    {A : Type ℓ} (f : A → ℕ) {xs ys : List A} → Perm xs ys → sum_of f xs ≡ sum_of f ys
sum_of-Perm f {xs} {ys} p = ∥∥₁_elim p (ℕ_set (sum_of f xs) (sum_of f ys)) (sum_of_step f)

length-concat {ℓ} :
    {A : Type ℓ} (row : A → Bytes) (xs : List A)
    → length (concat (map row xs)) ≡ sum_of (λ x. length (row x)) xs
unfolding sum_of
length-concat row [] = refl
length-concat row (x ∷ xs) =
    omega (arith, length-append (row x) (concat (map row xs)), length-concat row xs)

-- How many rows have no room in an empty buffer.
abbrev too_long : ℕ × String → ℕ
too_long e = if leb (length (go_row e)) buffer_size then 0 else 1

rows_small :
    (order : List (ℕ × String))
    → sum_of too_long order ≡ 0
    → All (λ row. length row ≤ buffer_size) (map go_row order)
unfolding sum_of
rows_small [] h = tt
rows_small (e ∷ order) h = elim (Bool-cases (leb (length (go_row e)) buffer_size)) [
  | inl small ↦ (
    leb→le (length (go_row e)) buffer_size small,
    rows_small order (omega (arith, rw small at h)),
  )
  | inr large ↦ absurd (omega (arith, rw large at h))
]

table_size : sum_of (λ e. length (go_row e)) syscall_table ≡ 4556
unfolding syscall_table go_row sum_of
table_size = refl

table_small : sum_of too_long syscall_table ≡ 0
unfolding syscall_table go_row sum_of
table_small = refl

-- In whatever order Go ranges over SyscallTable, the file that fillSysPtrArgTableForGo leaves has
-- 4096 bytes, and the last 460 bytes of the rows are in no file: the writer is not flushed.
pub fill_sys_ptr_arg_table_for_go_lost :
    (order : List (ℕ × String))
    → Perm order syscall_table
    → (file : Bytes) × (lost : Bytes) × (fill_sys_ptr_arg_table_for_go (some []) order ≡ some file)
      × (file ++ lost ≡ concat (map go_row order))
      × (length file ≡ 4096)
      × (length lost ≡ 460)
unfolding fill_sys_ptr_arg_table_for_go
fill_sys_ptr_arg_table_for_go_lost order p =
    let file = (write_all (map go_row order) (new_writer [])).file in
    let (lost, whole, filled) =
      length-write_all_file (map go_row order)
        (rows_small order (sum_of-Perm too_long p ∙ table_small)) in
    let total : length (concat (map go_row order)) ≡ 4556 =
      length-concat go_row order ∙ sum_of-Perm (λ e. length (go_row e)) p ∙ table_size in
    let size : length file ≡ 4096 = omega (arith, filled, total) in
    (
      file,
      lost,
      refl,
      whole,
      size,
      omega (arith, length-append file lost, ap length whole, total, size),
    )
