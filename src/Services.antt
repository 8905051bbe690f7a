-- ===== src/Services.antt =====
-- internal/application/services: the orchestration of authorize, capture, void and refund.
pub mod Idempotency
pub mod Intent
pub mod Transactions
pub mod Authorize
pub mod Capture
pub mod Void
pub mod Refund
pub mod Once
pub mod History
pub mod Quiet
