-- ===== src/Storage.antt =====
-- Rows behind the storage port: packages/storage/core/src/index.ts.
pub mod Table
