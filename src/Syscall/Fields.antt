-- ===== src/Syscall/Fields.antt =====
-- internal/syscalls.go: the rows of SyscallFields.
pub mod PartOne
pub mod PartTwo
pub mod PartThree
pub mod PartFour
pub mod PartFive
pub mod PartSix
pub mod PartSeven
pub mod PartEight
pub mod PartNine
pub mod PartTen
pub mod PartEleven
pub mod PartTwelve
pub mod PartThirteen
