-- ===== src/Postgres.antt =====
-- internal/infrastructure/persistence/postgres: the two repositories.
pub mod Payments
pub mod Querying
pub mod Keys
pub mod Ensures
pub mod Reading
