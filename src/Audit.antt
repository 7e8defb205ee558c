-- ===== src/Audit.antt =====
-- packages/audit: the hash chain of events, its store and the log that appends to it.
pub mod Chain
pub mod Log
mod Examples
