-- ===== src/Worker.antt =====
-- The background workers of internal/worker.
pub mod Backoff
pub mod Resume
pub mod Retries
pub mod Expiration
pub mod Ensures
