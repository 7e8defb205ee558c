-- ===== src/Runtime/Samples.antt =====
-- A runtime with one provider, a plan without changes and a store that holds it. Numbers print as
-- their bits and the digest is constant.
use desired_state_protocol.Common.{
  true, false, [], ◌∷◌, none, some, JsString, js, decimal, compare_units,
}
use desired_state_protocol.Protocol.Errors.{Result, return, throw}
use desired_state_protocol.Protocol.Risk.{low, human}
use desired_state_protocol.Protocol.Value.{null}
use desired_state_protocol.Protocol.Document.{DesiredStateDocument}
use desired_state_protocol.Protocol.Plan.{
  DspPlan, OperationRecord, OperationStatus, VerificationResult, VerificationStatus,
}
use desired_state_protocol.Execution.Effects.{World, applied}
use desired_state_protocol.Store.Rows.{Store, PlanRecord}
use desired_state_protocol.Runtime.State.{
  Runtime, RuntimeState, Provider, CurrentState, create_runtime_config,
}
use desired_state_protocol.Runtime.Parts.{ApplyInput}

abbrev pub document : DesiredStateDocument
document = record {
  api_version = js "v1";
  kind = js "K";
  metadata = record {
    name = js "n";
    namespace = none;
    labels = none;
    annotations = none;
    request_id = none;
  };
  contract = none;
  spec = null;
}

abbrev pub plan_of : JsString → DspPlan
plan_of plan_hash = record {
  metadata = record {
    id = js "p";
    created_at = 0;
    expires_at = 100;
    desired_state_hash = js "d";
    current_state_hash = js "c";
    policy_bundle_hash = js "b";
    plan_hash = plan_hash;
    kind = js "K";
    namespace = js "default";
    resource_name = js "n";
    provider = js "mock";
    current_revision = none;
  };
  summary = record {
    create = 0;
    update = 0;
    delete = 0;
    replace = 0;
    noop = 0;
    blocked = 0;
    risk = low;
    risk_score = 0;
  };
  changes = [];
  approvals = record { required = false; requirements = [] };
  policy_evaluation = record { allowed = true; decisions = []; required_approvals = [] };
  contract = none;
  ownership = none;
  executable = true;
}

abbrev pub digest : JsString → JsString
digest text = js "0"

abbrev pub plan : DspPlan
plan = plan_of (js "sha256:0")

abbrev pub stored : PlanRecord
stored = record {
  plan = plan;
  desired_state = document;
  options = record { allow_delete = none; allow_replace = none; refresh_current_state = none };
  environment = js "local";
}

abbrev pub observed : CurrentState
observed = record {
  resource_type = js "K";
  resource_id = none;
  observed_at = 0;
  revision = none;
  state = null;
}

abbrev pub verification : VerificationResult
verification = record {
  operation_id = js "op";
  status = VerificationStatus.satisfied;
  satisfaction = 10000;
  verified_at = 7;
  matched = [];
  unmatched = [];
  contract = none;
}

abbrev pub provider : Provider
provider = record {
  name = js "mock";
  inspect = λ tick asked. return observed;
  normalize_desired = λ asked. return [];
  normalize_current = λ current. return [];
  refine = none;
  verify = some (λ tick asked op. return verification);
}

abbrev pub runtime : Runtime
runtime = record {
  config =
      create_runtime_config (record { name = js "s"; version = js "1" })
        (record {
          environment = none;
          tenant = none;
          limits = none;
          retry = none;
          server = none;
          allow_destructive = none;
        });
  policy_bundle = [];
  policy_bundle_hash = js "b";
  provider_by_kind = (js "K", provider) ∷ [];
  resource_types = [];
  clock = λ tick. tick;
  new_operation_id = λ tick. js "op";
  collate = compare_units;
  number_text = decimal;
  sha256_hex = digest;
  evaluate_predicates = λ goal predicates resources.
      return (record { goal = none; predicates = []; satisfied = true });
}

abbrev pub world_of : Store → World
world_of store = record {
  apply_change = λ trace change attempt. applied none none;
  on_progress = λ trace op. return tt;
  is_cancellation_requested = λ trace. return false;
  now = λ trace. 6;
  sleep = λ trace ms. return tt;
}

abbrev pub input : ApplyInput
input = record {
  actor = record { type = human; id = js "a" };
  request_id = none;
  plan_id = js "p";
  idempotency_key = js "k";
  if_match = none;
}

abbrev pub state : RuntimeState
state = record {
  store = record {
    plans = (js "p", stored) ∷ [];
    approvals = [];
    operations = [];
    idempotency = [];
    field_ownership = [];
  };
  recorded = [];
  tick = 0;
}

abbrev pub operation_of : Result OperationRecord × RuntimeState → OperationRecord
operation_of (return op, s) = op
operation_of (throw e, s) = record {
  id = [];
  tenant = [];
  plan_id = [];
  plan_hash = [];
  idempotency_key = [];
  status = OperationStatus.failed;
  actor = input.actor;
  created_at = 0;
  updated_at = 0;
  changes = [];
  verification = none;
  cancellation_requested = false;
  error = none;
}
