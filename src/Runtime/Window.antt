-- ===== src/Runtime/Window.antt =====
-- packages/core/src/runtime.ts: the validity window that a plan is given when it is made again.
use desired_state_protocol.Common.{
  ℕ, Bool, true, false, Option, none, some, JsString, ◌≡◌, refl, arith, if◌then◌else◌,
}
use desired_state_protocol.Protocol.Plan.{DspPlan}
use desired_state_protocol.Plan.Build.{compute_plan_hash, hash_input_of, is_plan_expired}
use desired_state_protocol.Store.Rows.{PlanRecord}
use desired_state_protocol.Runtime.Parts.{preserve_validity_window}

keep_hash :
    (number_text : ℕ → JsString) (sha256_hex : JsString → JsString) (expired : Bool)
    (plan : DspPlan) (created_at expires_at : ℕ)
    → compute_plan_hash number_text sha256_hex (
        if expired then plan else record plan {
          metadata = record (plan.metadata) { created_at = created_at; expires_at = expires_at };
        })
      ≡ compute_plan_hash number_text sha256_hex plan
unfolding compute_plan_hash hash_input_of
keep_hash number_text sha256_hex true plan created_at expires_at = refl
keep_hash number_text sha256_hex false plan created_at expires_at = refl

-- The window that a plan is given has no part in its hash: what is stored of a plan has the hash of
-- the plan that was made, whatever was stored before.
pub preserve_validity_window-hash :
    (number_text : ℕ → JsString) (sha256_hex : JsString → JsString) (plan : DspPlan)
    (found : Option PlanRecord) (time : ℕ)
    → (compute_plan_hash number_text sha256_hex (preserve_validity_window plan found time)
        ≡ compute_plan_hash number_text sha256_hex plan)
      × ((preserve_validity_window plan found time).metadata.plan_hash ≡ plan.metadata.plan_hash)
unfolding preserve_validity_window
preserve_validity_window-hash number_text sha256_hex plan none time = (refl, refl)
preserve_validity_window-hash number_text sha256_hex plan (some stored) time = (
  keep_hash number_text sha256_hex (is_plan_expired stored.plan time) plan
      stored.plan.metadata.created_at stored.plan.metadata.expires_at,
  ground arith,
)
