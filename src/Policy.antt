-- ===== src/Policy.antt =====
-- packages/policy-engine/src: which rules of a policy bundle fire on a plan.
pub mod Match
pub mod Evaluate
pub mod Verdict
mod Examples
