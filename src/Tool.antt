-- ===== src/Tool.antt =====
-- The registry of tools and what wraps it: package `tool`, without the built-in tools.
pub mod Registry
pub mod Truncate
