-- ===== src/Runtime/Apply/Completed.antt =====
-- packages/core/src/runtime.ts: what an operation that apply completes has passed.
use desired_state_protocol.Common.{none, some, ◌≡◌, All}
use desired_state_protocol.Protocol.Plan.{OperationRecord, VerificationResult, VerificationStatus}
use desired_state_protocol.Execution.Status.{IsClean}
use desired_state_protocol.Store.Rows.{PlanRecord, Store}
use desired_state_protocol.Runtime.State.{Runtime, Provider}
use desired_state_protocol.Runtime.Apply.Verified.{IsMet, IsCompared}

module _ (runtime : Runtime) where
  -- An operation that is completed has clean records, a satisfied verification that is founded, and
  -- its contract is met.
  abbrev pub IsProven : PlanRecord → Provider → OperationRecord → Type 0
  IsProven stored provider op =
      All IsClean op.changes
      × ((v : VerificationResult) × (op.verification ≡ some v)
          × (v.status ≡ VerificationStatus.satisfied)
          × IsMet v.contract
          × (provider.verify ≡ none → IsCompared runtime stored provider v))
