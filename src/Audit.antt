-- ===== src/Audit.antt =====
-- The audit log: packages/foundation/core/src/audit.ts.
pub mod Chain
pub mod Gate
mod Tests
mod GateTests
