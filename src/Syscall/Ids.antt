-- ===== src/Syscall/Ids.antt =====
-- internal/syscalls.go: the rows of ReversedSyscallTable.
pub mod PartOne
pub mod PartTwo
pub mod PartThree
