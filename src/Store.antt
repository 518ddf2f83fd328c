-- ===== src/Store.antt =====
-- internal/store: the hub's SQLite tables as lists of rows, and the statements over them.
pub mod Events
pub mod Database
pub mod Quotas
pub mod Procs
pub mod Ingest
pub mod Merge
pub mod Blocks
pub mod Worktime
pub mod Registry
pub mod Capacity
