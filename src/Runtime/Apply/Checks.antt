-- ===== src/Runtime/Apply/Checks.antt =====
-- packages/core/src/runtime.ts: the checks of a plan leave the store as it is.
use desired_state_protocol.Common.{Bool, true, false, Option, none, some, JsString}
use desired_state_protocol.Protocol.Plan.{DspPlan, PlanOwnership}
use desired_state_protocol.Store.Rows.{Store, PlanRecord}
use desired_state_protocol.Runtime.State.{Runtime}
use desired_state_protocol.Runtime.Runs.{
  Preserves, bind-Preserves, call-Preserves, read_store-Preserves, pure-Preserves, ask-Preserves,
  audit-Preserves,
}
use desired_state_protocol.Runtime.Gates.{
  read_now, approved_if, assert_approved, still_held_within, still_held,
  assert_ownership_still_held, unless_denied, deny_policy, assert_policy_still_allows,
  assert_plan_integrity,
}
use desired_state_protocol.Runtime.Apply.{admit}

module _ (Inv : Store → Type 0) (runtime : Runtime) where
  pub now-Preserves : Preserves Inv (read_now runtime)
  unfolding read_now
  now-Preserves = ask-Preserves _

  pub integrity-Preserves : (plan : DspPlan) → Preserves Inv (assert_plan_integrity runtime plan)
  unfolding assert_plan_integrity
  integrity-Preserves plan = bind-Preserves (call-Preserves _) λ recomputed.
      bind-Preserves (call-Preserves _) λ _.
        bind-Preserves now-Preserves λ time. bind-Preserves (call-Preserves _) λ _. call-Preserves _

  unless_denied-Preserves :
      (allowed : Bool) (plan : DspPlan) → Preserves Inv (unless_denied runtime allowed plan)
  unfolding unless_denied deny_policy
  unless_denied-Preserves true plan = pure-Preserves tt
  unless_denied-Preserves false plan = bind-Preserves (audit-Preserves _) λ _. call-Preserves _

  pub policy-Preserves :
      (plan : DspPlan) (stored : PlanRecord)
      → Preserves Inv (assert_policy_still_allows runtime plan stored)
  unfolding assert_policy_still_allows
  policy-Preserves plan stored =
      bind-Preserves (call-Preserves _) λ _. unless_denied-Preserves _ plan

  within-Preserves :
      (ownership : PlanOwnership) (scope : Option JsString)
      → Preserves Inv (still_held_within runtime ownership scope)
  unfolding still_held_within
  within-Preserves ownership none = pure-Preserves tt
  within-Preserves ownership (some scope) =
      bind-Preserves (read_store-Preserves _) λ claims. call-Preserves _

  pub held-Preserves : (o : Option PlanOwnership) → Preserves Inv (still_held runtime o)
  unfolding still_held
  held-Preserves none = pure-Preserves tt
  held-Preserves (some ownership) = within-Preserves ownership _

  approved-Preserves :
      (required : Bool) (plan : DspPlan) → Preserves Inv (approved_if required plan)
  unfolding approved_if
  approved-Preserves true plan =
      bind-Preserves (read_store-Preserves _) λ approvals. call-Preserves _
  approved-Preserves false plan = pure-Preserves tt

  pub admit-Preserves : (stored : PlanRecord) → Preserves Inv (admit runtime stored)
  unfolding admit assert_ownership_still_held assert_approved
  admit-Preserves stored = bind-Preserves (integrity-Preserves stored.plan) λ _.
      bind-Preserves (policy-Preserves stored.plan stored) λ _.
        bind-Preserves (held-Preserves stored.plan.ownership)
          λ _. approved-Preserves stored.plan.approvals.required stored.plan
