-- ===== src/Monitor.antt =====
-- main.go: the statistics and the records that the event loop keeps.
pub mod Statistics
pub mod Records
pub mod Log
pub mod Loop
pub mod Step
pub mod Tally
pub mod Seen
pub mod Logged
pub mod Total
pub mod Percentiles
pub mod Median
pub mod Examples
