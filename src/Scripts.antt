-- ===== src/Scripts.antt =====
-- scripts/: the generators of the tables. Their files and commands are read and written by the
-- standard library of Go.
pub mod Writer
pub mod Numbering
pub mod Fields
pub mod Mapping
pub mod Examples
