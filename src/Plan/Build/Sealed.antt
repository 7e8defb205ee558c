-- ===== src/Plan/Build/Sealed.antt =====
-- packages/plan-engine/src/build-plan.ts: a built plan and its hash.
use desired_state_protocol.Common.{ℕ, JsString, ◌≡◌, refl}
use desired_state_protocol.Protocol.Errors.{Result, return}
use desired_state_protocol.Protocol.Results.{◌>>=◌, Ensures, bind-Ensures, Ensures-returned}
use desired_state_protocol.Protocol.Plan.{DspPlan}
use desired_state_protocol.Protocol.Hashes.{plan_id_from_hash}
use desired_state_protocol.Protocol.Canonical.{hash_canonical}
use desired_state_protocol.Plan.Encode.{PlanHashInput, hash_input_value}
use desired_state_protocol.Plan.Build.{
  BuildPlanInput, hash_input_of, seal, draft, build_plan, compute_plan_hash,
}

module _ (number_text : ℕ → JsString) (sha256_hex : JsString → JsString) where
  abbrev IsSealed : DspPlan → Type 0
  IsSealed plan =
      (compute_plan_hash number_text sha256_hex plan ≡ return plan.metadata.plan_hash)
      × (plan.metadata.id ≡ plan_id_from_hash plan.metadata.plan_hash)

  build_plan-Ensures :
      (input : BuildPlanInput) → Ensures IsSealed (build_plan number_text sha256_hex input)
  unfolding build_plan compute_plan_hash hash_input_of seal
  build_plan-Ensures input =
      let sealed : PlanHashInput → Result DspPlan = λ hashed.
        hash_canonical number_text sha256_hex (hash_input_value hashed) >>= λ plan_hash.
        return (seal input hashed plan_hash) in
      bind-Ensures IsSealed (draft number_text sha256_hex input) sealed λ hashed _.
        bind-Ensures IsSealed (hash_canonical number_text sha256_hex (hash_input_value hashed))
          (λ plan_hash. return (seal input hashed plan_hash)) λ plan_hash at. (at, refl)

  -- A plan that is built has the hash that is computed of it, so that the check of its integrity
  -- finds it intact, and its id is derived from that hash.
  pub build_plan-hash :
      (input : BuildPlanInput) (plan : DspPlan)
      → build_plan number_text sha256_hex input ≡ return plan
      → (compute_plan_hash number_text sha256_hex plan ≡ return plan.metadata.plan_hash)
        × (plan.metadata.id ≡ plan_id_from_hash plan.metadata.plan_hash)
  build_plan-hash input plan built =
      Ensures-returned IsSealed (build_plan number_text sha256_hex input) (build_plan-Ensures input)
        built
