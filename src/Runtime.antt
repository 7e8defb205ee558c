-- ===== src/Runtime.antt =====
-- packages/core/src/runtime.ts: the runtime.
pub mod State
pub mod Gates
pub mod Runs
pub mod Parts
pub mod Verify
pub mod Planning
pub mod Window
pub mod Apply
mod Samples
mod Examples
