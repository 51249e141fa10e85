-- ===== src/Service.antt =====
-- The HTTP service: package `service`.
pub mod Task
