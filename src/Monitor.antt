-- ===== src/Monitor.antt =====
-- src/monitor: the SMART write counters of each device, their schedule and their alerts.
pub mod Delta
pub mod Threshold
pub mod Schedule
pub mod Device
pub mod Task
pub mod Smart
mod Tests
