-- ===== src/Policy/Examples.antt =====
-- A bundle that denies deletions in production, on a plan with one, and the theorems there.
use mathlib.Core.List.{Memᴰ}
use desired_state_protocol.Common.{
  ◌≡◌, refl, true, false, js, JsString, List, [], ◌∷◌, none, some, String, str_eq, map, starts_with,
}
use desired_state_protocol.Protocol.Risk.{low}
use desired_state_protocol.Protocol.Plan.{ChangeAction, PlanChange, action_eq, PolicyDecision, deny}
use desired_state_protocol.Policy.Match.{one, many, PolicyRule, PolicyDocument, effective_changes}
use desired_state_protocol.Policy.Evaluate.{EvaluateInput, evaluate_policies}
use desired_state_protocol.Policy.Verdict.{FiresIn, evaluate_policies_verdict}

abbrev removal : PlanChange
removal = record {
  id = js "chg_1";
  resource_type = js "mock.table";
  resource_key = js "t";
  action = ChangeAction.delete;
  path = none;
  before = none;
  after = none;
  fields = [];
  reason = js "gone";
  reversible = false;
  destructive = true;
  dependencies = [];
  estimated_risk = low;
  blocked_by = none;
}

abbrev no_deletions : PolicyRule
no_deletions = record {
  id = js "no-delete";
  when = some (record {
    action = some (one ChangeAction.delete);
    resource_type = some (many (js "mock.*" ∷ []));
    kind = none;
    risk_in = none;
    destructive = some true;
    environment = some (one (js "production"));
    path_prefix = none;
  });
  constraints = none;
  effect = deny;
  message = none;
  min_approvals = none;
}

abbrev bundle : List PolicyDocument
bundle = record { name = js "guardrails"; rules = no_deletions ∷ [] } ∷ []

abbrev input_in : String → EvaluateInput
input_in environment = record {
  changes = removal ∷ [];
  risk = record { score = 55; level = low };
  context = record {
    environment = js environment;
    kind = js "MockWorkspace";
    namespace = js "default";
    resource_name = js "demo";
  };
}

abbrev digest : JsString → JsString
digest s = s

verdicts :
    ((evaluate_policies digest bundle (input_in "production")).allowed ≡ false)
    × ((evaluate_policies digest bundle (input_in "staging")).allowed ≡ true)
    × (map (λ d. d.message) (evaluate_policies digest bundle (input_in "production")).decisions
        ≡ js "Rule \"no-delete\" denies 1 change(s)" ∷ [])
unfolding evaluate_policies str_eq action_eq starts_with
verdicts = (refl, refl, refl)

evaluate_policies_verdict_example :
    let result = evaluate_policies digest bundle (input_in "production") in
    let Fires =
      FiresIn (effective_changes (input_in "production").changes) (input_in "production") bundle in
    ((d : PolicyDecision)
      → (Memᴰ d result.decisions → Fires d) × (Fires d → Memᴰ d result.decisions))
    × (result.allowed ≡ false → (d : PolicyDecision) × Fires d × (d.effect ≡ deny))
    × ((d : PolicyDecision) → Fires d → d.effect ≡ deny → result.allowed ≡ false)
evaluate_policies_verdict_example = evaluate_policies_verdict digest bundle (input_in "production")
