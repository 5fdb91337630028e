-- ===== src/PtrArgs.antt =====
-- ebpf.go and scripts/syscall_numbering.go: which arguments of a syscall are pointers, as a bit
-- mask for each syscall id.
pub mod Rows
pub mod Masks
pub mod Lost
pub mod Examples
