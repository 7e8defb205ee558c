-- ===== src/Runtime/Apply/Admitted.antt =====
-- packages/core/src/runtime.ts: what a plan that is carried out has passed.
use desired_state_protocol.Common.{ℕ, JsString, ◌≡◌, some}
use desired_state_protocol.Protocol.Errors.{return}
use desired_state_protocol.Store.Rows.{Store, PlanRecord}
use desired_state_protocol.Runtime.State.{Runtime, Provider, CurrentState}
use desired_state_protocol.Runtime.Parts.{ApplyInput}
use desired_state_protocol.Runtime.Apply.Demands.{IsIntact, IsAllowed, IsApproved}

module _ (runtime : Runtime) where
  -- A plan that may be applied, of the store and at the time
  abbrev pub IsAdmitted : PlanRecord → Store → ℕ → Type 0
  IsAdmitted stored store time =
      IsIntact runtime stored.plan time × IsAllowed runtime stored × IsApproved stored.plan store

  -- The provider was asked, and its revision is the plan's and the one that the caller expects
  abbrev pub IsUndrifted : ApplyInput → PlanRecord → Provider → Type 0
  IsUndrifted input stored provider =
      (tick : ℕ) × (observed : CurrentState) × (provider.inspect tick stored.desired_state
        ≡ return observed)
      × (stored.plan.metadata.current_revision ≡ observed.revision)
      × ((wanted actual : JsString)
          → input.if_match ≡ some wanted
          → observed.revision ≡ some actual
          → wanted ≡ actual)
