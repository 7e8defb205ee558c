-- ===== src/Plan/Examples.antt =====
-- The risk of two deletions, and the theorems there.
use mathlib.Core.List.{Memᴰ}
use desired_state_protocol.Common.{
  ◌≤◌, ◌≡◌, refl, true, false, String, js, List, [], ◌∷◌, none, lookup, includes, str_eq,
}
use desired_state_protocol.Protocol.Risk.{low, high, critical, risk_index}
use desired_state_protocol.Protocol.Plan.{ChangeAction, PlanChange, action_eq}
use desired_state_protocol.Plan.Risk.{
  RiskContext, blast_radius_weight, environment_weight, risk_level_from_score, score_change,
  score_plan,
}
use desired_state_protocol.Plan.Risk.Bounds.{score_plan_bounds, score_change-delete}

abbrev removal : String → PlanChange
removal id = record {
  id = js id;
  resource_type = js "mock.table";
  resource_key = js id;
  action = ChangeAction.delete;
  path = none;
  before = none;
  after = none;
  fields = [];
  reason = js "gone";
  reversible = false;
  destructive = true;
  dependencies = [];
  estimated_risk = low;
  blocked_by = none;
}

abbrev context : RiskContext
context = record { environment = js " Production "; resource_types = [] }

abbrev removals : List PlanChange
removals = removal "a" ∷ removal "b" ∷ []

scores :
    (score_plan removals context ≡ record { score = 81; level = critical })
    × (environment_weight (js "Stage") ≡ 8)
    × (environment_weight (js "development") ≡ 0)
unfolding score_plan risk_level_from_score environment_weight includes str_eq lookup action_eq
    score_change blast_radius_weight
scores = (refl, refl, refl)

score_plan_bounds_example :
    let risk = score_plan removals context in
    (risk.score ≤ 100)
    × (risk.level ≡ risk_level_from_score risk.score)
    × (score_change (removal "b") context ≤ risk.score)
    × (risk_index (risk_level_from_score (score_change (removal "b") context))
        ≤ risk_index risk.level)
score_plan_bounds_example =
    score_plan_bounds removals context (removal "b") (Memᴰ.tail (Memᴰ.head refl))

score_change-delete_example :
    risk_index high ≤ risk_index (risk_level_from_score (score_change (removal "a") context))
score_change-delete_example = score_change-delete (removal "a") context refl refl
