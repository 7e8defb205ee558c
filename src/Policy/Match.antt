-- ===== src/Policy/Match.antt =====
-- packages/policy-engine/src/match.ts, over the types of packages/protocol/src/types/policy.ts.
use desired_state_protocol.Common.{
  ℕ, Bool, true, false, ◌&&◌, not, List, [], ◌∷◌, any, filter, ◌==◌, Option, none, some, JsString,
  str_eq, starts_with, includes, map, if◌then◌else◌,
}
use desired_state_protocol.Protocol.Risk.{RiskLevel, risk_index}
use desired_state_protocol.Protocol.Plan.{ChangeAction, PlanChange, PolicyEffect, action_eq}
use desired_state_protocol.Protocol.Paths.{path_matches_any, ends_with_star, drop_last}
use desired_state_protocol.Plan.Risk.{is_effective}

-- `T | T[]`
pub data OneOrMany (A : Type 0) : Type 0 where
  one : A → OneOrMany A
  many : List A → OneOrMany A

pub record PolicyRuleCondition : Type 0 where
  pub action : Option (OneOrMany ChangeAction)
  pub resource_type : Option (OneOrMany JsString)
  pub kind : Option (OneOrMany JsString)
  pub risk_in : Option (List RiskLevel)
  pub destructive : Option Bool
  pub environment : Option (OneOrMany JsString)
  pub path_prefix : Option (List JsString)

pub record PolicyRuleConstraints : Type 0 where
  pub max_changes : Option ℕ
  pub max_total_changes : Option ℕ

pub record PolicyRule : Type 0 where
  pub id : JsString
  pub when : Option PolicyRuleCondition
  pub constraints : Option PolicyRuleConstraints
  pub effect : PolicyEffect
  pub message : Option JsString
  pub min_approvals : Option ℕ

-- Of the metadata, the name; of the spec, the rules.
pub record PolicyDocument : Type 0 where
  pub name : JsString
  pub rules : List PolicyRule

pub record PolicyEvaluationContext : Type 0 where
  pub environment : JsString
  pub kind : JsString
  pub namespace : JsString
  pub resource_name : JsString

unfoldable pub to_array : {A : Type 0} → OneOrMany A → List A
to_array (one a) = a ∷ []
to_array (many as_list) = as_list

unfoldable pub resource_type_matches : JsString → JsString → Bool
unfolding ends_with_star drop_last starts_with str_eq
resource_type_matches resource_type pattern =
    if ends_with_star pattern
    then starts_with resource_type (drop_last pattern)
    else str_eq resource_type pattern

-- `values === undefined || test(values)`
abbrev pub unless_given : {A : Type 0} → Option A → (A → Bool) → Bool
unless_given none test = true
unless_given (some a) test = test a

unfoldable pub condition_matches_context :
    Option PolicyRuleCondition → PolicyEvaluationContext → Bool
unfolding to_array includes
condition_matches_context none context = true
condition_matches_context (some condition) context =
    unless_given condition.environment (λ e. includes (to_array e) context.environment)
    && unless_given condition.kind (λ k. includes (to_array k) context.kind)

-- `a === b`, on risk levels
unfoldable pub risk_eq : RiskLevel → RiskLevel → Bool
unfolding risk_index
risk_eq a b = risk_index a == risk_index b

unfoldable pub same_flag : Bool → Bool → Bool
same_flag true b = b
same_flag false b = not b

-- `touched.length > 0 ? touched : ['']`
unfoldable pub touched_paths : PlanChange → List JsString
touched_paths change = elim change.fields [ [] ↦ [] ∷ [] | f ∷ fs ↦ map (λ d. d.path) (f ∷ fs) ]

unfoldable pub condition_matches_change : Option PolicyRuleCondition → PlanChange → Bool
unfolding to_array resource_type_matches risk_eq same_flag touched_paths
condition_matches_change none change = true
condition_matches_change (some condition) change =
    unless_given condition.action (λ a. any (λ x. action_eq x change.action) (to_array a))
    && unless_given condition.resource_type
        (λ t. any (λ p. resource_type_matches change.resource_type p) (to_array t))
    && unless_given condition.risk_in (λ l. any (λ x. risk_eq x change.estimated_risk) l)
    && unless_given condition.destructive (λ d. same_flag d change.destructive)
    && unless_given condition.path_prefix
        (λ prefixes. any (λ path. path_matches_any path prefixes) (touched_paths change))

unfoldable pub effective_changes : List PlanChange → List PlanChange
unfolding is_effective
effective_changes changes = filter is_effective changes
