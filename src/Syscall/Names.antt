-- ===== src/Syscall/Names.antt =====
-- internal/syscalls.go: the rows of SyscallTable.
pub mod PartOne
pub mod PartTwo
pub mod PartThree
