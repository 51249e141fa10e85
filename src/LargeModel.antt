-- ===== src/LargeModel.antt =====
-- The middleware around the language model client: package `largemodel`.
pub mod Completer
pub mod CircuitBreaker
pub mod RateLimit
pub mod Cache
pub mod Retry
