-- ===== src/Store.antt =====
-- packages/core/src/store/sqlite-store.ts: the tables of the runtime's store.
pub mod Table
pub mod Fields
pub mod Buckets
pub mod Owners
pub mod Rows
pub mod Reserved
pub mod Owned
mod Examples
