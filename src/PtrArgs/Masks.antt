-- ===== src/PtrArgs/Masks.antt =====
-- ebpf.go: fillPtrArgs. scripts/syscall_numbering.go: the mask that the generator computes.
use Prim.Native.Nat.{max}
use syscap.Base.{
  ℕ, zero, suc, ◌%◌, ◌^◌, String, List, [], ◌∷◌, ◌++◌, bit_or, if◌then◌else◌, nat_eq, string_eq,
  lookup_or, has_byte, codes,
}
use syscap.PtrArgs.Rows.{ptr_rows_one, ptr_rows_two, ptr_rows_three}
use syscap.Syscall.{syscall_fields}

-- A Go slice literal with indices: as long as its largest index plus one, 0 where none is given.
unfoldable pub largest : List (ℕ × ℕ) → ℕ
largest [] = 0
largest ((i, v) ∷ rows) = max i (largest rows)

unfoldable pub slice_from : ℕ → ℕ → List (ℕ × ℕ) → List ℕ
slice_from zero i rows = []
slice_from (suc count) i rows = lookup_or 0 i rows ∷ slice_from count (suc i) rows

abbrev ptr_rows : List (ℕ × ℕ)
ptr_rows = ptr_rows_one ++ (ptr_rows_two ++ ptr_rows_three)

unfoldable pub fill_ptr_args : List ℕ
unfolding ptr_rows_one ptr_rows_two ptr_rows_three slice_from largest
fill_ptr_args = slice_from (suc (largest ptr_rows)) 0 ptr_rows

-- The generator's loop: `mask |= (1 << i)` on a uint8, for each argument with a `*`.
unfoldable pub mask_from : ℕ → ℕ → List String → ℕ
mask_from mask i [] = mask
mask_from mask i (arg ∷ args) =
    mask_from (if has_byte b'*' (codes arg) then bit_or mask (2 ^ i % 256) else mask) (suc i) args

unfoldable pub pointer_mask : String → ℕ
unfolding mask_from syscall_fields
pointer_mask name = mask_from 0 0 (lookup_or [] name syscall_fields)
