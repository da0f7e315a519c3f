-- ===== src/Redaction.antt =====
-- The redactor's parts that decide what is kept, found and erased:
-- packages/foundation/core/src/redact.ts.
pub mod Mappings
pub mod Spans
pub mod Distance
pub mod Repair
pub mod Recover
pub mod Redact
mod Tests
mod RedactTests
mod RepairTests
