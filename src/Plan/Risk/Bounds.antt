-- ===== src/Plan/Risk/Bounds.antt =====
-- Bounds and monotonicity of the risk score.
use mathlib.Core.List.{Memᴰ}
use desired_state_protocol.Common.{
  ℕ, ◌≤◌, Bool, true, false, List, [], ◌∷◌, ◌≡◌, refl, arith, filter, max, Bool-cases, inl, inr,
}
use desired_state_protocol.Protocol.Risk.{high, risk_index}
use desired_state_protocol.Protocol.Plan.{ChangeAction, PlanChange, action_eq_iff}
use desired_state_protocol.Plan.Risk.{
  risk_level_from_score, RiskContext, clamp, is_effective, raw_score, score_change, max_score,
  score_plan,
}

-- A higher score never has a lower level.
risk_level_mono :
    (a b : ℕ) → a ≤ b → risk_index (risk_level_from_score a) ≤ risk_index (risk_level_from_score b)
unfolding risk_level_from_score risk_index
risk_level_mono a b h = ground arith

max_score-le :
    (acc : ℕ) (changes : List PlanChange) (context : RiskContext)
    → acc ≤ max_score acc changes context
unfolding max_score
max_score-le acc [] context = omega arith
max_score-le acc (c ∷ cs) context =
    omega (arith, max_score-le (max acc (score_change c context)) cs context)

score-le-max_score :
    (acc : ℕ) (changes : List PlanChange) (context : RiskContext) {c : PlanChange}
    → Memᴰ c changes
    → score_change c context ≤ max_score acc changes context
unfolding max_score
score-le-max_score acc (d ∷ ds) context {c} (Memᴰ.head e) =
    let first : score_change c context ≡ score_change d context = rw e in
    omega (arith, max_score-le (max acc (score_change d context)) ds context)
score-le-max_score acc (d ∷ ds) context (Memᴰ.tail m) =
    score-le-max_score (max acc (score_change d context)) ds context m
score-le-max_score acc [] context m = elim m [ ]

mem-filter :
    (p : PlanChange → Bool) (xs : List PlanChange) {c : PlanChange}
    → Memᴰ c xs
    → p c ≡ true
    → Memᴰ c (filter p xs)
mem-filter p [] m h = elim m [ ]
mem-filter p (x ∷ xs) {c} (Memᴰ.head e) h = let t : p x ≡ true = rw (← e) h in rw t (Memᴰ.head e)
mem-filter p (x ∷ xs) {c} (Memᴰ.tail m) h = elim (Bool-cases (p x)) [
  | inl kept ↦ rw kept (Memᴰ.tail (mem-filter p xs m h))
  | inr dropped ↦ rw dropped (mem-filter p xs m h)
]

score_change-le : (c : PlanChange) (context : RiskContext) → score_change c context ≤ 100
unfolding score_change clamp
score_change-le c context = ground arith

score-le-score_plan :
    (changes : List PlanChange) (context : RiskContext) {c : PlanChange}
    → Memᴰ c changes
    → score_change c context ≤ (score_plan changes context).score
unfolding score_plan clamp score_change
score-le-score_plan changes context {c} m = elim (Bool-cases (is_effective c)) [
  | inl effective ↦ omega (
    arith,
    score-le-max_score 0 (filter is_effective changes) context
        (mem-filter is_effective changes m effective),
    score_change-le c context,
  )
  | inr idle ↦ let nothing : score_change c context ≡ 0 = rw (idle, score_change) in omega arith
]

-- The score of a plan is at most 100, its level is that of its score, and no change of the plan
-- scores higher or has a higher level than the plan.
pub score_plan_bounds :
    (changes : List PlanChange) (context : RiskContext) (c : PlanChange)
    → Memᴰ c changes
    → let risk = score_plan changes context in
      (risk.score ≤ 100)
      × (risk.level ≡ risk_level_from_score risk.score)
      × (score_change c context ≤ risk.score)
      × (risk_index (risk_level_from_score (score_change c context)) ≤ risk_index risk.level)
unfolding score_plan clamp score_change
score_plan_bounds changes context c m =
    let le = score-le-score_plan changes context m in
    (omega arith, refl, le, risk_level_mono (score_change c context) _ le)

-- An irreversible deletion is of high risk at least, in every environment, whatever the provider
-- declares of the resource type.
pub score_change-delete :
    (c : PlanChange) (context : RiskContext)
    → c.action ≡ ChangeAction.delete
    → c.reversible ≡ false
    → risk_index high ≤ risk_index (risk_level_from_score (score_change c context))
unfolding score_change raw_score is_effective clamp risk_index risk_level_from_score
score_change-delete c context e irr = ground (
  arith,
  action_eq_iff c.action ChangeAction.delete,
  action_eq_iff c.action ChangeAction.noop,
  action_eq_iff c.action ChangeAction.blocked,
)
