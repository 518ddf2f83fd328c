-- ===== src/Collect.antt =====
-- internal/collect: scanning of log files.
pub mod State
pub mod Scan
