-- ===== src/Monitor.antt =====
-- The monitor, ayumos/monitor.
pub mod History
