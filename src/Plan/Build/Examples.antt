-- ===== src/Plan/Build/Examples.antt =====
-- A plan that creates one resource, and the theorems there. Numbers print as their bits and the
-- digest is the text itself.
use desired_state_protocol.Common.{
  true, false, [], ◌∷◌, none, some, JsString, js, decimal, compare_units, str_eq, lookup, ◌≡◌, refl,
  length, map,
}
use desired_state_protocol.Protocol.Errors.{Result, return, throw}
use desired_state_protocol.Protocol.Value.{null, entry, end, text}
use desired_state_protocol.Protocol.Hashes.{plan_id_from_hash}
use desired_state_protocol.Protocol.Risk.{low}
use desired_state_protocol.Protocol.Plan.{DspPlan, PlanChange}
use desired_state_protocol.Plan.Risk.{
  risk_level_from_score, score_change, environment_weight, blast_radius_weight,
}
use desired_state_protocol.Plan.Diff.{default_diff_options}
use desired_state_protocol.Plan.Build.{BuildPlanInput, build_plan, compute_plan_hash}
use desired_state_protocol.Plan.Refinement.{assert_refinement}
use desired_state_protocol.Plan.Build.Sealed.{build_plan-hash}
use desired_state_protocol.Plan.Build.Refined.{AllAdvice, assert_refinement-AllAdvice}

abbrev input : BuildPlanInput
input = record {
  desired = record {
    api_version = js "v1";
    kind = js "K";
    metadata = record {
      name = js "n";
      namespace = none;
      labels = none;
      annotations = none;
      request_id = none;
    };
    contract = none;
    spec = null;
  };
  desired_projection =
      record {
        resource_type = js "t";
        key = js "k";
        attributes = some (entry (js "o") (text (js "x")) end);
        depends_on = none;
        external_id = none;
      }
      ∷ [];
  current_projection = [];
  current_revision = none;
  resource_types = [];
  provider = js "mock";
  environment = js "local";
  policy_bundle_hash = js "b";
  evaluate_policies =
      λ changes risk. record { allowed = true; decisions = []; required_approvals = [] };
  contract = none;
  ownership = none;
  refine_changes = none;
  limits = record {
    max_document_bytes = 1000;
    max_document_depth = 8;
    max_resources = 8;
    max_changes = 8;
    plan_ttl_seconds = 9;
    provider_call_timeout_ms = 9;
  };
  now = 5;
  options = default_diff_options;
}

abbrev identity : JsString → JsString
identity s = s

abbrev plan_of : Result DspPlan → DspPlan
plan_of (return plan) = plan
plan_of (throw e) = record {
  metadata = record {
    id = [];
    created_at = 0;
    expires_at = 0;
    desired_state_hash = [];
    current_state_hash = [];
    policy_bundle_hash = [];
    plan_hash = [];
    kind = [];
    namespace = [];
    resource_name = [];
    provider = [];
    current_revision = none;
  };
  summary = record {
    create = 0;
    update = 0;
    delete = 0;
    replace = 0;
    noop = 0;
    blocked = 0;
    risk = low;
    risk_score = 0;
  };
  changes = [];
  approvals = record { required = false; requirements = [] };
  policy_evaluation = record { allowed = false; decisions = []; required_approvals = [] };
  contract = none;
  ownership = none;
  executable = false;
}

abbrev plan : DspPlan
plan = plan_of (build_plan decimal identity input)

built :
    (build_plan decimal identity input ≡ return plan)
    × (length plan.changes ≡ 1)
    × (plan.executable ≡ true)
    × (plan.metadata.expires_at ≡ 9005)
unfolding build_plan compare_units str_eq lookup risk_level_from_score score_change
    environment_weight blast_radius_weight
built = (refl, refl, refl, refl)

build_plan-hash_example :
    (compute_plan_hash decimal identity plan ≡ return plan.metadata.plan_hash)
    × (plan.metadata.id ≡ plan_id_from_hash plan.metadata.plan_hash)
build_plan-hash_example = build_plan-hash decimal identity input plan built.0

-- A refinement that says why
abbrev advised : PlanChange → PlanChange
advised change = record change { reason = js "cheap" }

accepted :
    assert_refinement decimal plan.changes (map advised plan.changes)
    ≡ return (map advised plan.changes)
unfolding assert_refinement build_plan compare_units str_eq lookup risk_level_from_score
    score_change environment_weight blast_radius_weight
accepted = refl

assert_refinement-AllAdvice_example :
    (map advised plan.changes ≡ map advised plan.changes)
    × AllAdvice decimal plan.changes (map advised plan.changes)
assert_refinement-AllAdvice_example =
    assert_refinement-AllAdvice decimal plan.changes (map advised plan.changes)
      (map advised plan.changes) accepted
