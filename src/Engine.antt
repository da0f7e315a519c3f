-- ===== src/Engine.antt =====
-- The durable task queue of the SQL engine, packages/engines/sql/src/store.ts.
pub mod Model
pub mod Store
pub mod Lease
pub mod Reap
pub mod Claim
pub mod Idempotency
mod Tests
mod LeaseTests
