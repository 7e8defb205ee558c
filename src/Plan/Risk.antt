-- ===== src/Plan/Risk.antt =====
-- packages/plan-engine/src/risk.ts. Scores are natural numbers, so that `Math.round` and the lower
-- bound of `clamp` change nothing. `toLowerCase` is modelled on ASCII: no other character has an
-- ASCII lower case that stands in the names of the environments.
pub mod Bounds
use desired_state_protocol.Common.{
  ℕ, ◌+◌, Bool, true, false, ◌&&◌, ◌||◌, not, List, [], ◌∷◌, map, reverse, any, filter, length, leb,
  ltb, ◌==◌, max, min, Option, none, some, JsString, js, StringMap, lookup, includes, if◌then◌else◌,
}
use desired_state_protocol.Protocol.Risk.{RiskLevel, low, medium, high, critical}
use desired_state_protocol.Protocol.Plan.{
  ChangeAction, FieldDiff, PlanChange, ResourceTypeDefinition, RiskFactors, action_eq,
}
use desired_state_protocol.Protocol.Paths.{path_matches_any}

-- `RISK_WEIGHTS`
abbrev pub destructive_delete : ℕ
destructive_delete = 45

abbrev pub destructive_replace : ℕ
destructive_replace = 35

abbrev pub irreversible : ℕ
irreversible = 10

abbrev pub environment_production : ℕ
environment_production = 20

abbrev pub environment_staging : ℕ
environment_staging = 8

abbrev pub sensitive_field : ℕ
sensitive_field = 15

abbrev pub financial : ℕ
financial = 15

abbrev pub permission_scope : ℕ
permission_scope = 15

abbrev pub externally_visible : ℕ
externally_visible = 5

abbrev production_environments : List JsString
production_environments = js "production" ∷ js "prod" ∷ js "live" ∷ []

abbrev staging_environments : List JsString
staging_environments = js "staging" ∷ js "stage" ∷ js "preprod" ∷ js "pre-production" ∷ []

-- The white space and line ends that `trim` removes
unfoldable pub is_space : ℕ → Bool
is_space c =
    (leb 9 c && leb c 13)
    || c == 32
    || c == 160
    || c == 5760
    || (leb 8192 c && leb c 8202)
    || c == 8232
    || c == 8233
    || c == 8239
    || c == 8287
    || c == 12288
    || c == 65279

unfoldable pub trim_start : JsString → JsString
unfolding is_space
trim_start [] = []
trim_start (c ∷ s) = let rest = trim_start s in if is_space c then rest else c ∷ s

unfoldable pub trim : JsString → JsString
unfolding trim_start
trim s = reverse (trim_start (reverse (trim_start s)))

unfoldable pub to_lower_case : JsString → JsString
to_lower_case s = map (λ c. if leb b'A' c && leb c b'Z' then c + 32 else c) s

unfoldable pub environment_weight : JsString → ℕ
unfolding trim to_lower_case includes
environment_weight environment =
    let normalized = to_lower_case (trim environment) in
    if includes production_environments normalized
    then environment_production
    else if includes staging_environments normalized
    then environment_staging
    else 0

-- Blast radius: how many effective changes a plan has
unfoldable pub blast_radius_weight : ℕ → ℕ
blast_radius_weight effective =
    if leb effective 1
    then 0
    else if leb effective 5
    then 6
    else if leb effective 20
    then 12
    else 20

unfoldable pub risk_level_from_score : ℕ → RiskLevel
risk_level_from_score score =
    if leb 80 score
    then critical
    else if leb 50 score
    then high
    else if leb 20 score
    then medium
    else low

pub record RiskContext : Type 0 where
  pub environment : JsString
  pub resource_types : StringMap ResourceTypeDefinition

unfoldable pub clamp : ℕ → ℕ
clamp score = max 0 (min 100 score)

-- `definition?.riskFactors ?? {}`, with an absent factor as false
unfoldable pub factors_of : Option ResourceTypeDefinition → RiskFactors
factors_of none = record {
  financial = false;
  externally_visible = false;
  permission_scope = false;
  sensitive = false;
}
factors_of (some d) = elim d.risk_factors [
  | none ↦ record {
    financial = false;
    externally_visible = false;
    permission_scope = false;
    sensitive = false;
  }
  | some f ↦ f
]

-- `definition?.sensitiveFields ?? []`
unfoldable pub sensitive_fields_of : Option ResourceTypeDefinition → List JsString
sensitive_fields_of none = []
sensitive_fields_of (some d) = d.sensitive_fields

unfoldable pub touches_sensitive : PlanChange → Option ResourceTypeDefinition → Bool
unfolding factors_of sensitive_fields_of
touches_sensitive change definition =
    let factors = factors_of definition in
    factors.sensitive
    || any (λ f. path_matches_any f.path (sensitive_fields_of definition)) change.fields

-- `if (test) score += weight`
abbrev pub add_if : Bool → ℕ → ℕ
add_if test weight = if test then weight else 0

-- A change that reaches the external system
unfoldable pub is_effective : PlanChange → Bool
is_effective change =
    not (action_eq change.action ChangeAction.noop || action_eq change.action ChangeAction.blocked)

-- The sum of the weights
unfoldable pub raw_score : PlanChange → RiskContext → ℕ
unfolding touches_sensitive factors_of
raw_score change context =
    let definition = lookup change.resource_type context.resource_types in
    let factors = factors_of definition in
    add_if (action_eq change.action ChangeAction.delete) destructive_delete
    + add_if (action_eq change.action ChangeAction.replace) destructive_replace
    + add_if (not change.reversible) irreversible
    + environment_weight context.environment
    + add_if (touches_sensitive change definition) sensitive_field
    + add_if factors.financial financial
    + add_if factors.permission_scope permission_scope
    + add_if factors.externally_visible externally_visible

unfoldable pub score_change : PlanChange → RiskContext → ℕ
unfolding is_effective raw_score clamp
score_change change context = if is_effective change then clamp (raw_score change context) else 0

pub record PlanRisk : Type 0 where
  pub score : ℕ
  pub level : RiskLevel

-- The `reduce` of `scorePlan`, from `acc`
unfoldable pub max_score : ℕ → List PlanChange → RiskContext → ℕ
max_score acc [] context = acc
max_score acc (change ∷ changes) context =
    max_score (max acc (score_change change context)) changes context

unfoldable pub score_plan : List PlanChange → RiskContext → PlanRisk
unfolding is_effective max_score clamp
score_plan changes context =
    let effective = filter is_effective changes in
    let score = clamp (max_score 0 effective context + blast_radius_weight (length effective)) in
    record { score = score; level = risk_level_from_score score }

unfoldable pub estimate : RiskContext → PlanChange → PlanChange
estimate context change = record change {
  estimated_risk = risk_level_from_score (score_change change context);
}

unfoldable pub with_change_risk : List PlanChange → RiskContext → List PlanChange
unfolding estimate
with_change_risk changes context = map (estimate context) changes
