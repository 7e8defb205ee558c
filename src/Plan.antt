-- ===== src/Plan.antt =====
-- packages/plan-engine/src: how a plan is scored, ordered and built.
pub mod Risk
pub mod Normalize
pub mod Ownership
pub mod Graph
pub mod Diff
pub mod Changes
pub mod Encode
pub mod Summary
pub mod Refinement
pub mod Build
mod Examples
