-- ===== src/PtrArgs/Examples.antt =====
-- ebpf.go: some masks.
use syscap.Base.{false, ◌≡◌, ◌↔◌, refl, get_or, length, contains, nat_eq}
use syscap.PtrArgs.Lost.{lost_syscalls, fill_ptr_args-eq-mask_iff}
use syscap.PtrArgs.Masks.{fill_ptr_args, pointer_mask}
use syscap.Syscall.{syscall_table}

length-fill_ptr_args : length fill_ptr_args ≡ 472
unfolding fill_ptr_args
length-fill_ptr_args = refl

fill_ptr_args-eq-mask_iff_example :
    (get_or fill_ptr_args 98 0 ≡ pointer_mask "getrusage") ↔ (contains 98 lost_syscalls ≡ false)
unfolding syscall_table
fill_ptr_args-eq-mask_iff_example = fill_ptr_args-eq-mask_iff 98 "getrusage" refl
