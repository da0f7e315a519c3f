-- ===== src/Governance.antt =====
-- The governed call: packages/foundation/core/src/governance.ts.
pub mod Boundary
pub mod Texts
pub mod Registry
pub mod Pipeline
mod Tests
