-- ===== src/Database.antt =====
-- src/database: the batches that the monitors submit, and the writer that commits them.
pub mod Batch
pub mod Errors
pub mod Validate
pub mod Process
pub mod Identity
pub mod Recovery
pub mod Rows
pub mod Submit
mod Tests
mod IdentityTests
