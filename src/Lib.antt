-- ===== src/Lib.antt =====
-- The Desired State Protocol runtime: what it plans, allows and executes.
--
-- A client describes the state that a system should have. The runtime (packages/core) reads the
-- system's state through a provider, computes the changes, orders and scores them (packages/
-- plan-engine), evaluates policies over them (packages/policy-engine), and executes the plan that
-- results (packages/execution-engine), each step on the types of packages/protocol.
--
-- Which file models what:
--   Common: JavaScript's strings (lists of UTF-16 code units), Map, sort and array methods.
--   Protocol/Errors, Risk, Plan, Value: packages/protocol/src/types (errors.ts, common.ts, plan.ts,
--     operation.ts, policy.ts, resource.ts, verification.ts, contract.ts, ownership.ts).
--   Protocol/Document: packages/protocol/src/types/desired-state.ts and contract.ts. Protocol/Results:
--     chains of calls that may throw.
--   Protocol/Hashes: packages/protocol/src/hash.ts and ids.ts, the spelling of hashes and ids.
--   Protocol/Paths: packages/protocol/src/paths.ts, flattenValue and pathMatches; its child Patterns
--     has the theorems.
--   Plan/Risk: packages/plan-engine/src/risk.ts; its child Bounds has the theorems.
--   Plan/Ownership: packages/plan-engine/src/ownership.ts; its child Resolved has the theorems,
--     Snapshot says who holds a field by the claims, Classified and Members have lemmas.
--   Plan/Normalize: packages/plan-engine/src/normalize.ts. Plan/Diff and Plan/Changes:
--     packages/plan-engine/src/diff.ts, fieldDiffs and computeChanges; Diff/Leaves, Changes/Allowed
--     and Changes/Complete have the theorems.
--   Plan/Build, Plan/Summary, Plan/Refinement: packages/plan-engine/src/build-plan.ts, and
--     desiredStateHash of normalize.ts; Plan/Encode is the JSON of what a plan's hash covers;
--     Build/Sealed and Build/Refined have the theorems.
--   Plan/Graph: packages/plan-engine/src/graph.ts, topologicalOrder; its child Rounds has the theorem.
--   Policy/Match, Policy/Evaluate: packages/policy-engine/src/match.ts and evaluate.ts; Policy/Verdict
--     has the theorems.
--   Execution: packages/execution-engine/src. Effects is the world that a run meets, Retry is
--     retry.ts, Records, RunChange and ExecutePlan are execute.ts; Attempts and Rule are proof rules,
--     Recorded, Justified, Outcome, Status, Dependencies and Identity have the theorems, and Completed a
--     lemma for the runtime.
--   Protocol/Canonical: packages/protocol/src/canonical.ts and hashCanonical of hash.ts; its children
--     Order and Writable have the theorems.
--   Verification: packages/verification-engine/src/verify.ts; its child Verdict has the theorems.
--   Audit/Chain: packages/audit/src/chain.ts and packages/protocol/src/types/audit.ts; Linked has the
--     theorem. Audit/Log: packages/audit/src/store.ts and audit-log.ts; Appends and Pages have the
--     theorems.
--   Store/Rows, Store/Fields: packages/core/src/store/sqlite-store.ts and types.ts; Store/Table is
--     what the statements do to a table; Reserved and Owned have the theorems, Buckets and Owners what
--     ownershipFor answers.
--   Runtime/State: what packages/core/src/runtime.ts and config.ts are made of. Runtime/Gates has the
--     checks of apply, Parts what the calls make of plans and operations, Verify the verification and
--     the cancellation, Apply the approval and the application, Planning the making of plans; Runs has
--     the rules of its proofs; Planning/Filed, Apply/Idempotent, Apply/Admitted, Apply/Owned and
--     Apply/Completed have the theorems, Window and Apply/Checks, Preserved, Found, Demands, Taken and
--     Verified their lemmas. Samples has what the examples share.
--   The modules named Examples hold tests and the theorems at concrete inputs.
--
-- Correspondence. A struct is a record, a union of literals a data type, `undefined` and an absent
-- property are `none`. A Map is a list of entries in insertion order. Code that mutates passes its
-- state on. executePlan runs over a trace of events, its history: the provider's answer, the store's,
-- the clock's and the timer's are functions of that history, so that they are arbitrary; a rejected
-- promise is the result `throw`, a promise that never settles one of its own, `unsettled`, which no
-- catch sees. The provider's promise is awaited without regard to the timeout, as the code does: it may
-- go unanswered. createContext and applyChange, which stand in one try, are one
-- answer. Numbers are natural numbers: scores, delays, counts and limits; a timestamp is its
-- milliseconds. A value of type unknown is a Value, whose numbers are the bits of their doubles.
--
-- Bounds. The retry loop recurs on the attempts that are left before maxAttempts, of which it is
-- given exactly that number; every other loop recurs on a list or a value. The exponent of a
-- double is found in 53 halvings, which natural numbers below 2^53 do not exceed: the sequences of
-- events are such. topologicalOrder is given a round for each node that is ready and each id that
-- waits: a round takes one ready node, and whoever it makes ready waits no longer.
--
-- The runtime is a chain of steps over its state: the store, the events that were handed to the
-- audit log and a count of the questions to the outside (clock, provider, ids), whose answers are
-- functions of that count. A step that throws leaves what was written before it. What executePlan
-- saves is written to the store when it ends.
--
-- Not modelled: findCycle; of the runtime, validate, inspect, the check of a document before it is
-- planned and the redaction of the plan that is shown (both are arguments), the contexts and secrets
-- that it hands to providers, a store or an audit log that fails, and calls that run while another
-- does; contracts (a predicate's verdict is a function of its inputs), validation and redaction, the
-- metadata of the runtime's audit events, the providers, the server and the
-- command line. Error messages are modelled where they are stored in records; the details of
-- errors and the log output are not. The digest of node:crypto and ECMAScript's printing of
-- doubles are parameters, and so is the redaction of an event's metadata. A log's appends run one
-- after another, so that concurrent calls are a sequence.
pub mod Common
pub mod Protocol
pub mod Execution
pub mod Plan
pub mod Policy
pub mod Audit
pub mod Verification
pub mod Store
pub mod Runtime
