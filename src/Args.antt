-- ===== src/Args.antt =====
-- parse_arg.go: the readable text of a syscall's raw arguments.
pub mod Tables
pub mod Decode
pub mod Scan
pub mod Flags
pub mod OpenFlags
pub mod Decl
pub mod Format
pub mod Total
pub mod Examples
