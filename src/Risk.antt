-- ===== src/Risk.antt =====
-- risk.go: the findings about a syscall.
pub mod Pattern
pub mod Rules
pub mod Tables
pub mod Level
pub mod Rate
pub mod Collect
pub mod Abnormal
pub mod Closed
pub mod Misanchored
pub mod Names
pub mod Findings
pub mod Telling
pub mod Overall
pub mod Examples
