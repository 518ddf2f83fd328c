-- ===== src/Agent.antt =====
-- internal/agent: the device's side of the v2 protocol.
pub mod Outbox
pub mod Partition
pub mod Upload
pub mod Backoff
