-- ===== src/Execution.antt =====
-- packages/execution-engine/src: the retry schedule and the execution of an immutable plan.
pub mod Identity
pub mod Completed
pub mod Effects
pub mod Retry
pub mod Records
pub mod RunChange
pub mod ExecutePlan
pub mod Attempts
pub mod Recorded
pub mod Rule
pub mod Justified
pub mod Outcome
pub mod Status
pub mod Dependencies
mod Examples
