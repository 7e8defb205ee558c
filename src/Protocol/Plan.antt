-- ===== src/Protocol/Plan.antt =====
-- packages/protocol/src/types: plan.ts, operation.ts, policy.ts, resource.ts, ownership.ts,
-- contract.ts. Timestamps are milliseconds since the epoch, whose order is that of the ISO texts.
use desired_state_protocol.Common.{
  ℕ, Bool, List, Option, JsString, ◌==◌, ◌≡◌, ◌↔◌, true, false, arith, [], ◌∷◌, ◌++◌, ◌&&◌, none,
  some, js, get_or,
}
use desired_state_protocol.Protocol.Errors.{ErrorPayload}
use desired_state_protocol.Protocol.Risk.{RiskLevel, Actor}
use desired_state_protocol.Protocol.Value.{Value}

pub data ChangeAction : Type 0 where
  create update delete replace noop blocked : ChangeAction

-- The place of an action in `CHANGE_ACTIONS`, by which two are compared.
unfoldable pub action_index : ChangeAction → ℕ
action_index create = 0
action_index update = 1
action_index delete = 2
action_index replace = 3
action_index noop = 4
action_index blocked = 5

-- `a === b`
unfoldable pub action_eq : ChangeAction → ChangeAction → Bool
unfolding action_index
action_eq a b = action_index a == action_index b

pub record FieldDiff : Type 0 where
  pub path : JsString
  pub before : Value
  pub after : Value
  pub immutable : Bool

pub record PlanChange : Type 0 where
  pub id : JsString
  pub resource_type : JsString
  pub resource_key : JsString
  pub action : ChangeAction
  pub path : Option JsString
  pub before : Option Value
  pub after : Option Value
  pub fields : List FieldDiff
  pub reason : JsString
  pub reversible : Bool
  pub destructive : Bool
  pub dependencies : List JsString
  pub estimated_risk : RiskLevel
  pub blocked_by : Option JsString

pub data PolicyEffect : Type 0 where
  allow deny warn require_approval : PolicyEffect

pub record ApprovalRequirement : Type 0 where
  pub id : JsString
  pub reason : JsString
  pub policy_id : Option JsString
  pub rule_id : Option JsString
  pub min_approvals : ℕ
  pub risk : RiskLevel

pub record PolicyDecision : Type 0 where
  pub policy_id : JsString
  pub rule_id : JsString
  pub effect : PolicyEffect
  pub change_ids : List JsString
  pub message : JsString

pub record PolicyEvaluationResult : Type 0 where
  pub allowed : Bool
  pub decisions : List PolicyDecision
  pub required_approvals : List ApprovalRequirement

pub data ChangeStatus : Type 0 where
  pending running succeeded failed skipped blocked compensated : ChangeStatus

unfoldable pub status_index : ChangeStatus → ℕ
status_index pending = 0
status_index running = 1
status_index succeeded = 2
status_index failed = 3
status_index skipped = 4
status_index blocked = 5
status_index compensated = 6

-- `a === b`
unfoldable pub status_eq : ChangeStatus → ChangeStatus → Bool
unfolding status_index
status_eq a b = status_index a == status_index b

pub data OperationStatus : Type 0 where
  created running partially_completed completed failed : OperationStatus
  verification_failed goal_not_satisfied cancelled : OperationStatus

pub record ChangeExecutionRecord : Type 0 where
  pub change_id : JsString
  pub resource_type : JsString
  pub resource_key : JsString
  pub action : ChangeAction
  pub status : ChangeStatus
  pub attempts : ℕ
  pub started_at : Option ℕ
  pub finished_at : Option ℕ
  pub external_id : Option JsString
  pub provider_request_id : Option JsString
  pub error : Option ErrorPayload

pub data VerificationStatus : Type 0 where
  satisfied partially_satisfied not_satisfied verification_failed : VerificationStatus

-- A predicate's result; the evaluation of its CEL expression is a library's.
pub record PredicateResult : Type 0 where
  pub id : JsString
  pub expression : JsString
  pub satisfied : Bool
  pub message : Option JsString
  pub error : Option JsString

pub record ContractCheck : Type 0 where
  pub goal : Option JsString
  pub predicates : List PredicateResult
  pub satisfied : Bool

pub record VerificationMismatch : Type 0 where
  pub path : JsString
  pub reason : JsString
  pub expected : Option Value
  pub actual : Option Value

-- `satisfaction` in ten thousandths, the precision that the source rounds it to.
pub record VerificationResult : Type 0 where
  pub operation_id : JsString
  pub status : VerificationStatus
  pub satisfaction : ℕ
  pub verified_at : ℕ
  pub matched : List JsString
  pub unmatched : List VerificationMismatch
  pub contract : Option ContractCheck

pub record OperationRecord : Type 0 where
  pub id : JsString
  pub tenant : JsString
  pub plan_id : JsString
  pub plan_hash : JsString
  pub idempotency_key : JsString
  pub status : OperationStatus
  pub actor : Actor
  pub created_at : ℕ
  pub updated_at : ℕ
  pub changes : List ChangeExecutionRecord
  pub verification : Option VerificationResult
  pub cancellation_requested : Bool
  pub error : Option ErrorPayload

pub record OwnershipClaim : Type 0 where
  pub scope : JsString
  pub resource_key : JsString
  pub paths : List JsString
  pub owner : JsString

pub record FieldConflict : Type 0 where
  pub path : JsString
  pub owner : JsString

pub record ResourceConflict : Type 0 where
  pub scope : JsString
  pub resource_key : JsString
  pub conflicts : List FieldConflict

pub record PlanOwnership : Type 0 where
  pub owner : JsString
  pub claims : List OwnershipClaim
  pub releases : List OwnershipClaim
  pub conflicts : List ResourceConflict

abbrev pub empty_plan_ownership : PlanOwnership
empty_plan_ownership = record { owner = []; claims = []; releases = []; conflicts = [] }

abbrev no_elements : {A : Type 0} → List A → Bool
no_elements [] = true
no_elements (x ∷ xs) = false

unfoldable pub ownership_is_empty : Option PlanOwnership → Bool
ownership_is_empty none = true
ownership_is_empty (some ownership) =
    no_elements ownership.claims
    && no_elements ownership.releases
    && no_elements ownership.conflicts

unfoldable pub ownership_scope : (provider : JsString) → (resource_id : Option JsString) → JsString
ownership_scope provider resource_id = provider ++ js "/" ++ get_or resource_id []

unfoldable pub field_owner_for : (kind namespace name : JsString) → JsString
field_owner_for kind namespace name = kind ++ js "/" ++ namespace ++ js "/" ++ name

pub record PlanSummary : Type 0 where
  pub create : ℕ
  pub update : ℕ
  pub delete : ℕ
  pub replace : ℕ
  pub noop : ℕ
  pub blocked : ℕ
  pub risk : RiskLevel
  pub risk_score : ℕ

pub record PlanMetadata : Type 0 where
  pub id : JsString
  pub created_at : ℕ
  pub expires_at : ℕ
  pub desired_state_hash : JsString
  pub current_state_hash : JsString
  pub policy_bundle_hash : JsString
  pub plan_hash : JsString
  pub kind : JsString
  pub namespace : JsString
  pub resource_name : JsString
  pub provider : JsString
  pub current_revision : Option JsString

pub record PlanApprovals : Type 0 where
  pub required : Bool
  pub requirements : List ApprovalRequirement

pub record DspPlan : Type 0 where
  pub metadata : PlanMetadata
  pub summary : PlanSummary
  pub changes : List PlanChange
  pub approvals : PlanApprovals
  pub policy_evaluation : PolicyEvaluationResult
  pub contract : Option ContractCheck
  pub ownership : Option PlanOwnership
  pub executable : Bool

pub record ApprovalRecord : Type 0 where
  pub plan_id : JsString
  pub plan_hash : JsString
  pub approved_by : JsString
  pub approved_at : ℕ
  pub reason : JsString
  pub requirement_ids : List JsString

pub record RiskFactors : Type 0 where
  pub financial : Bool
  pub externally_visible : Bool
  pub permission_scope : Bool
  pub sensitive : Bool

-- `ResourceCapabilities`
pub record Capabilities : Type 0 where
  pub inspect : Bool
  pub plan : Bool
  pub apply : Bool
  pub verify : Bool
  pub delete : Bool

-- The attribute schema, which is handed to a JSON Schema validator, is left out.
pub record ResourceTypeDefinition : Type 0 where
  pub name : JsString
  pub provider : JsString
  pub capabilities : Capabilities
  pub identity_fields : List JsString
  pub immutable_fields : List JsString
  pub sensitive_fields : List JsString
  pub risk_factors : Option RiskFactors

pub status_eq_iff : (a b : ChangeStatus) → (status_eq a b ≡ true) ↔ (a ≡ b)
unfolding status_eq
status_eq_iff a b = ground arith

pub action_eq_iff : (a b : ChangeAction) → (action_eq a b ≡ true) ↔ (a ≡ b)
unfolding action_eq
action_eq_iff a b = ground arith
