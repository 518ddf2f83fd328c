-- ===== src/Model.antt =====
-- internal/model: the shared vocabulary of events, channels, envelopes and snapshots.
pub mod Event
pub mod Provider
pub mod Snapshot
pub mod Envelope
