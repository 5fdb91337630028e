-- ===== src/Scripts/Numbering.antt =====
-- scripts/syscall_numbering.go: the three generators of the numbers and the pointer masks. Go ranges
-- over syscallTable in any order, so each takes the table in the order of the range; and the file
-- that os.OpenFile has opened and truncated, or `none`.
pub mod Laws
pub mod Reading
use mathlib.Core.Option
use syscap.Base.{
  ℕ, ◌-◌, String, ◌&&◌, List, [], ◌∷◌, ◌++◌, Option, map, if◌then◌else◌, leb, Bytes, codes, decimal,
}
use syscap.PtrArgs.Masks.{pointer_mask}
use syscap.Scripts.Writer.{new_writer, write_all, flush, Writer}

-- strings.ToUpper on ASCII.
abbrev pub upper : ℕ → ℕ
upper c = if leb b'a' c && leb c b'z' then c - 32 else c

unfoldable pub define_row : ℕ × String → Bytes
unfolding decimal
define_row (number, name) =
    codes "#define __SYS_"
    ++ (map upper (codes name) ++ (codes " " ++ (decimal number ++ codes "\n")))

unfoldable pub mask_row : ℕ × String → Bytes
unfolding decimal pointer_mask
mask_row (number, name) =
    codes "    [__SYS_"
    ++ (map upper (codes name) ++ (codes "] = " ++ (decimal (pointer_mask name) ++ codes ",\n")))

unfoldable pub go_row : ℕ × String → Bytes
unfolding decimal pointer_mask
go_row (number, name) =
    codes "    " ++ (decimal number ++ (codes ": " ++ (decimal (pointer_mask name) ++ codes ",\n")))

unfoldable pub output_syscall_number : Option Bytes → List (ℕ × String) → Option Bytes
unfolding define_row write_all flush
output_syscall_number opened order =
    Option.map (λ file. (flush (write_all (map define_row order) (new_writer file))).file) opened

unfoldable pub fill_sys_ptr_arg_table : Option Bytes → List (ℕ × String) → Option Bytes
unfolding mask_row write_all flush
fill_sys_ptr_arg_table opened order =
    Option.map (λ file. (flush (write_all (map mask_row order) (new_writer file))).file) opened

-- This one has no Flush.
unfoldable pub fill_sys_ptr_arg_table_for_go : Option Bytes → List (ℕ × String) → Option Bytes
unfolding go_row write_all
fill_sys_ptr_arg_table_for_go opened order =
    Option.map (λ file. (write_all (map go_row order) (new_writer file)).file) opened
