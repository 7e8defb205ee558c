-- ===== src/Runtime/State.antt =====
-- packages/core/src/runtime.ts and config.ts: what a runtime is made of, its state, and chains of
-- steps that may throw. The answers of the clock, of the source of operation ids and of a provider
-- depend on the tick, which counts the questions. Of an audit event, the metadata is left out.
use desired_state_protocol.Common.{
  ℕ, suc, ◌*◌, Bool, false, List, [], ◌∷◌, ◌++◌, Option, none, some, JsString, js, StringMap,
  lookup, get_or, Ordering,
}
use desired_state_protocol.Protocol.Errors.{Result, return, throw, dsp, dsp_error, DspErrorCode}
use desired_state_protocol.Protocol.Risk.{Actor}
use desired_state_protocol.Protocol.Value.{Value}
use desired_state_protocol.Protocol.Document.{DesiredStateDocument, ContractPredicate}
use desired_state_protocol.Protocol.Plan.{
  PlanChange, OperationRecord, VerificationResult, ContractCheck, ResourceTypeDefinition,
}
use desired_state_protocol.Audit.Chain.{AuditAction, AuditOutcome}
use desired_state_protocol.Execution.Retry.{RetryOptions, default_retry}
use desired_state_protocol.Plan.Normalize.{ResourceInstance}
use desired_state_protocol.Plan.Build.{ProtocolLimits}
use desired_state_protocol.Policy.Match.{PolicyDocument}
use desired_state_protocol.Store.Rows.{Store}

pub record ServerInfo : Type 0 where
  pub name : JsString
  pub version : JsString

pub record RuntimeConfig : Type 0 where
  pub environment : JsString
  pub tenant : JsString
  pub limits : ProtocolLimits
  pub retry : RetryOptions
  pub server : ServerInfo
  pub allow_destructive : Bool

-- `Partial<RuntimeConfig>`
pub record ConfigOverrides : Type 0 where
  pub environment : Option JsString
  pub tenant : Option JsString
  pub limits : Option ProtocolLimits
  pub retry : Option RetryOptions
  pub server : Option ServerInfo
  pub allow_destructive : Option Bool

abbrev pub default_limits : ProtocolLimits
default_limits = record {
  max_document_bytes = 512 * 1024;
  max_document_depth = 32;
  max_resources = 500;
  max_changes = 1000;
  plan_ttl_seconds = 15 * 60;
  provider_call_timeout_ms = 30000;
}

-- The version of the server is read from package.json.
unfoldable pub create_runtime_config : ServerInfo → ConfigOverrides → RuntimeConfig
create_runtime_config default_server overrides = record {
  environment = get_or overrides.environment (js "local");
  tenant = get_or overrides.tenant (js "local");
  limits = get_or overrides.limits default_limits;
  retry = get_or overrides.retry default_retry;
  server = get_or overrides.server default_server;
  allow_destructive = get_or overrides.allow_destructive false;
}

pub record CurrentState : Type 0 where
  pub resource_type : JsString
  pub resource_id : Option JsString
  pub observed_at : ℕ
  pub revision : Option JsString
  pub state : Value

-- What the runtime asks of a provider apart from the changes that it applies
pub record Provider : Type 0 where
  pub name : JsString
  pub inspect : ℕ → DesiredStateDocument → Result CurrentState
  pub normalize_desired : DesiredStateDocument → Result (List ResourceInstance)
  pub normalize_current : CurrentState → Result (List ResourceInstance)
  pub refine :
      Option (DesiredStateDocument → CurrentState → List PlanChange → Result (List PlanChange))
  pub verify : Option (ℕ → DesiredStateDocument → OperationRecord → Result VerificationResult)

pub record Runtime : Type 0 where
  pub config : RuntimeConfig
  pub policy_bundle : List PolicyDocument
  pub policy_bundle_hash : JsString
  pub provider_by_kind : StringMap Provider
  pub resource_types : StringMap ResourceTypeDefinition
  pub clock : ℕ → ℕ
  pub new_operation_id : ℕ → JsString
  pub collate : JsString → JsString → Ordering
  pub number_text : ℕ → JsString
  pub sha256_hex : JsString → JsString
  pub evaluate_predicates :
      Option JsString
      → Option (List ContractPredicate)
      → List ResourceInstance
      → Result ContractCheck

-- An event that is handed to the audit log
pub record Recorded : Type 0 where
  pub actor : Actor
  pub action : AuditAction
  pub outcome : AuditOutcome
  pub resource_type : Option JsString
  pub resource_key : Option JsString
  pub plan_id : Option JsString
  pub operation_id : Option JsString
  pub request_id : Option JsString

pub record RuntimeState : Type 0 where
  pub store : Store
  pub recorded : List Recorded
  pub tick : ℕ

-- What is written before a throw stays written.
abbrev pub Run : Type 0 → Type 0
Run A = RuntimeState → Result A × RuntimeState

unfoldable pub pure : {A : Type 0} → A → Run A
pure a s = (return a, s)

unfoldable pub and_then : {A B : Type 0} → Result A → (A → Run B) → Run B
and_then (return a) f s = f a s
and_then (throw e) f s = (throw e, s)

infixl 5 ◌>>=◌ ◌>>◌
unfoldable pub ◌>>=◌ : {A B : Type 0} → Run A → (A → Run B) → Run B
◌>>=◌ m f s = and_then (m s).0 f (m s).1

abbrev pub ◌>>◌ : {B : Type 0} → Run (Unit {0}) → Run B → Run B
m >> k = m >>= λ _. k

-- A call that does not touch the state
unfoldable pub call : {A : Type 0} → Result A → Run A
call r s = (r, s)

unfoldable pub read_store : {A : Type 0} → (Store → A) → Run A
read_store f s = (return (f s.store), s)

unfoldable pub write_store : (Store → Store) → Run (Unit {0})
write_store f s = (return tt, record s { store = f s.store })

unfoldable pub audit : Recorded → Run (Unit {0})
audit event s = (return tt, record s { recorded = s.recorded ++ event ∷ [] })

-- A question to the outside
unfoldable pub ask : {A : Type 0} → (ℕ → Result A) → Run A
ask question s = (question s.tick, record s { tick = suc s.tick })

abbrev pub fail : {A : Type 0} → DspErrorCode → JsString → Result A
fail code message = throw (dsp (dsp_error code message))

unfoldable pub provider_for_kind : Runtime → JsString → Result Provider
unfolding lookup
provider_for_kind runtime kind = elim (lookup kind runtime.provider_by_kind) [
  | none ↦
      fail DspErrorCode.provider_not_found (js "No provider serves kind \"" ++ (kind ++ js "\""))
  | some provider ↦ return provider
]
