-- ===== src/Egress.antt =====
-- The network floor under outbound requests: packages/foundation/egress/src/index.ts.
pub mod Ip
pub mod Blocked
pub mod Assert
mod Tests
