-- ===== src/Runtime/Apply/Demands.antt =====
-- packages/core/src/runtime.ts: what a plan has to meet before it is carried out, said without the
-- code that checks it.
use desired_state_protocol.Common.{
  Bool, true, false, not, ℕ, true, false, length, JsString, js, ◌≡◌, refl, ap, arith, List, [], ◌∷◌,
  Option, none, some, str_eq_sound, ◌<◌, ◌≤◌, ◌⊎◌, ◌&&◌, leb, leb→le, get_or, All, All-filter,
  IsPart, filter-IsPart,
}
use desired_state_protocol.Protocol.Errors.{DspErrorCode, return}
use desired_state_protocol.Protocol.Plan.{DspPlan, ApprovalRequirement, ApprovalRecord}
use desired_state_protocol.Protocol.Hashes.{hash_equals, hash_equals_iff}
use desired_state_protocol.Plan.Build.{compute_plan_hash, is_plan_expired}
use desired_state_protocol.Policy.Evaluate.{evaluate_policies, EvaluateInput}
use desired_state_protocol.Store.Rows.{Store, PlanRecord, list_approvals}
use desired_state_protocol.Runtime.State.{Runtime, RuntimeState, call}
use desired_state_protocol.Runtime.Runs.{Gives}
use desired_state_protocol.Runtime.Gates.{check, counted, lacks, same_revision, unmatched}

pub unexpired :
    (plan : DspPlan) (time : ℕ)
    → is_plan_expired plan time ≡ false
    → time < plan.metadata.expires_at
unfolding is_plan_expired
unexpired plan time h = ground arith

pub lacks-All :
    (n : ℕ) (requirements : List ApprovalRequirement)
    → lacks n requirements ≡ false
    → All (λ r. r.min_approvals ≤ n) requirements
unfolding lacks
lacks-All n [] h = tt
lacks-All n (r ∷ requirements) h = (ground arith, lacks-All n requirements (ground arith))

pub same_revision-eq : (a b : Option JsString) → same_revision a b ≡ true → a ≡ b
unfolding same_revision
same_revision-eq none none h = refl
same_revision-eq (some a) (some b) h = ap some (str_eq_sound a b h)
same_revision-eq none (some b) h = cc
same_revision-eq (some a) none h = cc

pub unmatched-eq :
    (wanted actual : JsString) → unmatched (some wanted) (some actual) ≡ false → wanted ≡ actual
unfolding unmatched
unmatched-eq wanted actual h = str_eq_sound wanted actual (ground arith)

pub check-true :
    (b : Bool) (code : DspErrorCode) (message : JsString) {u : Unit {0}}
    → check b code message ≡ return u
    → b ≡ true
check-true true code message e = refl
check-true false code message e = cc

pub not-true : (b : Bool) → not b ≡ true → b ≡ false
not-true b h = ground arith

pub check-Gives :
    (b : Bool) (code : DspErrorCode) (message : JsString) (s : RuntimeState)
    → Gives (λ _ _. b ≡ true) (call (check b code message)) s
unfolding call
check-Gives true code message s = record { given = refl }
check-Gives false code message s = record { given = tt }

-- Some of the approvals are of the hash of the plan, from when it was made on, and as many as each
-- requirement asks for
abbrev pub IsEnough : DspPlan → List ApprovalRecord → Type 0
IsEnough plan approvals =
    (part : List ApprovalRecord) × IsPart part approvals
    × All
        (λ a. (a.plan_hash ≡ plan.metadata.plan_hash) × (plan.metadata.created_at ≤ a.approved_at))
        part
    × All (λ r. r.min_approvals ≤ length part) plan.approvals.requirements

-- No approval is required, or enough are stored
abbrev pub IsApproved : DspPlan → Store → Type 0
IsApproved plan store =
    (plan.approvals.required ≡ false) ⊎ IsEnough plan (list_approvals plan.metadata.id store)

-- The approvals that the gate counts are enough of them.
pub counted-IsEnough :
    (plan : DspPlan) (approvals : List ApprovalRecord)
    → lacks (length (counted plan approvals)) plan.approvals.requirements ≡ false
    → IsEnough plan approvals
unfolding counted
counted-IsEnough plan approvals h = (
  counted plan approvals,
  filter-IsPart _ approvals,
  All-filter
      (λ a. (a.plan_hash ≡ plan.metadata.plan_hash) × (plan.metadata.created_at ≤ a.approved_at))
      (λ a.
        hash_equals a.plan_hash plan.metadata.plan_hash
        && leb plan.metadata.created_at a.approved_at)
      approvals
      (λ a e. (
        (hash_equals_iff a.plan_hash plan.metadata.plan_hash).0 (ground arith),
        leb→le plan.metadata.created_at a.approved_at (ground arith),
      )),
  lacks-All (length (counted plan approvals)) plan.approvals.requirements h,
)

module _ (runtime : Runtime) where
  -- The plan is the one that was hashed, is not expired at the time and was found executable
  abbrev pub IsIntact : DspPlan → ℕ → Type 0
  IsIntact plan time =
      (compute_plan_hash runtime.number_text runtime.sha256_hex plan
        ≡ return plan.metadata.plan_hash)
      × (time < plan.metadata.expires_at)
      × (plan.executable ≡ true)

  -- What the policies are asked of a stored plan
  abbrev asked : PlanRecord → EvaluateInput
  asked stored = record {
    changes = stored.plan.changes;
    risk = record { score = stored.plan.summary.risk_score; level = stored.plan.summary.risk };
    context = record {
      environment = runtime.config.environment;
      kind = stored.desired_state.kind;
      namespace = get_or stored.desired_state.metadata.namespace (js "default");
      resource_name = stored.desired_state.metadata.name;
    };
  }

  -- The policies are those of the plan, and still allow it
  abbrev pub IsAllowed : PlanRecord → Type 0
  IsAllowed stored =
      (runtime.policy_bundle_hash ≡ stored.plan.metadata.policy_bundle_hash)
      × ((evaluate_policies runtime.sha256_hex runtime.policy_bundle (asked stored)).allowed ≡ true)
