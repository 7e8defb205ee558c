-- ===== src/Protocol/Risk.antt =====
-- packages/protocol/src/types/common.ts: risk levels, their order and maximum, and actors.
use desired_state_protocol.Common.{ℕ, Bool, List, [], ◌∷◌, ltb, if◌then◌else◌, JsString}

pub data RiskLevel : Type 0 where
  low medium high critical : RiskLevel

pub data ActorType : Type 0 where
  human agent system : ActorType

pub record Actor : Type 0 where
  pub type : ActorType
  pub id : JsString

-- `RISK_LEVELS.indexOf(level)`
unfoldable pub risk_index : RiskLevel → ℕ
risk_index low = 0
risk_index medium = 1
risk_index high = 2
risk_index critical = 3

-- `compareRisk(a, b) > 0`
unfoldable pub riskier : RiskLevel → RiskLevel → Bool
unfolding risk_index
riskier a b = ltb (risk_index b) (risk_index a)

max_risk_from : RiskLevel → List RiskLevel → RiskLevel
max_risk_from acc [] = acc
max_risk_from acc (level ∷ levels) = max_risk_from (if riskier level acc then level else acc) levels

unfoldable pub max_risk : List RiskLevel → RiskLevel
unfolding max_risk_from riskier
max_risk levels = max_risk_from low levels
