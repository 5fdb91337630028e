-- ===== src/Startup.antt =====
-- main.go: what `run` does before it attaches to the kernel.
pub mod Flags
pub mod Container
pub mod Run
pub mod Examples
