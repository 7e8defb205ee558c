-- ===== src/Protocol.antt =====
-- packages/protocol: the types, errors, risk levels and path helpers that the engines share.
pub mod Errors
pub mod Results
pub mod Risk
pub mod Value
pub mod Plan
pub mod Document
pub mod Paths
pub mod Hashes
pub mod Canonical
mod Examples
