-- ===== src/Writer.antt =====
-- src/writer: the attribution of writes to control groups.
pub mod Types
pub mod Marks
pub mod Deltas
pub mod Close
pub mod Collector
pub mod Paths
pub mod Names
pub mod IoStat
pub mod Boundary
pub mod Task
mod Tests
mod ParseTests
