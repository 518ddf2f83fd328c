-- ===== src/Parser.antt =====
-- internal/parser: the log formats of the coding tools.
pub mod Codex
