-- ===== src/Server.antt =====
-- internal/server: the hub's HTTP handlers.
pub mod Ingest
pub mod RespCache
