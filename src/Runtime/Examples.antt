-- ===== src/Runtime/Examples.antt =====
-- The calls of a runtime, and the theorems there.
use desired_state_protocol.Common.{
  All, arith, [], ◌∷◌, none, some, js, decimal, compare_units, str_eq, lookup, ◌≡◌, refl, ap, sym,
}
use desired_state_protocol.Protocol.Errors.{Result, return, throw}
use desired_state_protocol.Protocol.Value.{entry, end, text}
use desired_state_protocol.Protocol.Document.{DesiredStateDocument}
use desired_state_protocol.Protocol.Plan.{
  DspPlan, PlanOwnership, OwnershipClaim, OperationRecord, OperationStatus,
}
use desired_state_protocol.Plan.Build.{compute_plan_hash}
use desired_state_protocol.Execution.ExecutePlan.{execute_plan}
use desired_state_protocol.Store.Rows.{empty_store, PlanRecord, get_plan}
use desired_state_protocol.Runtime.State.{
  Run, RuntimeState, Provider, create_runtime_config, ◌>>=◌, and_then, pure, call, read_store,
  write_store, ask, audit,
}
use desired_state_protocol.Runtime.Apply.{apply, apply_fresh, carry_out}
use desired_state_protocol.Plan.Normalize.{ResourceInstance}
use desired_state_protocol.Runtime.Apply.Idempotent.{apply-idempotent}
use desired_state_protocol.Runtime.Apply.Owned.{apply_fresh-owner}
use mathlib.Core.List.{Memᴰ}
use desired_state_protocol.Store.Table.{select, IsKeyed}
use desired_state_protocol.Store.Fields.{triple_eq}
use desired_state_protocol.Store.Buckets.{IsPlain}
use desired_state_protocol.Plan.Ownership.Snapshot.{IsFreeOf}
use desired_state_protocol.Plan.Risk.{
  risk_level_from_score, score_change, environment_weight, blast_radius_weight,
}
use desired_state_protocol.Runtime.Planning.{PlanInput, plan_document}
use desired_state_protocol.Runtime.Planning.Filed.{IsFiled, plan_document-IsFiled}
use desired_state_protocol.Runtime.Samples.{
  document, digest, plan, stored, provider, runtime, world_of, input, state, operation_of,
}

hashed : compute_plan_hash decimal digest plan ≡ return (js "sha256:0")
unfolding compute_plan_hash compare_units str_eq
hashed = refl

abbrev run : Result OperationRecord × RuntimeState
run = apply runtime world_of input state

abbrev result : OperationRecord
result = operation_of run

-- The operation is completed, six questions were asked, and three events were recorded.
applied_once :
    (run ≡ (return result, run.1)) × (result.status ≡ OperationStatus.completed) × (run.1.tick ≡ 7)
unfolding apply ◌>>=◌ and_then pure call read_store write_store ask audit compare_units str_eq
    lookup execute_plan
applied_once = (refl, refl, refl)

filed :
    (kept : PlanRecord) → get_plan (js "p") state.store ≡ some kept → kept.plan.metadata.id ≡ js "p"
unfolding get_plan str_eq
filed kept e = ap (λ o. elim o [ none ↦ js "p" | some r ↦ r.plan.metadata.id ]) (sym e)

apply-idempotent_example : apply runtime world_of input run.1 ≡ (return result, run.1)
apply-idempotent_example =
    apply-idempotent runtime world_of input state run.1 result filed applied_once.0

abbrev fresh : Result OperationRecord × RuntimeState
fresh = apply_fresh runtime world_of input stored provider state

-- The same plan with a claim of a field that its document holds already
abbrev field_claim : OwnershipClaim
field_claim = record {
  scope = js "s";
  resource_key = js "r";
  paths = js "x" ∷ [];
  owner = js "doc";
}

abbrev ownership : PlanOwnership
ownership = record { owner = js "doc"; claims = field_claim ∷ []; releases = []; conflicts = [] }

abbrev claiming : PlanRecord
claiming = record stored { plan = record plan { ownership = some ownership } }

abbrev held_state : RuntimeState
held_state = record state {
  store = record (state.store) {
    field_ownership =
        ((js "s", js "r", js "x"), js "doc") ∷ ((js "s", js "r", js "y"), js "b") ∷ [];
  };
}

abbrev claimed : Result OperationRecord × RuntimeState
claimed = apply_fresh runtime world_of input claiming provider held_state

claimed_returns : claimed ≡ (return (operation_of claimed), claimed.1)
unfolding apply_fresh ◌>>=◌ and_then pure call read_store write_store ask audit compare_units str_eq
    lookup execute_plan
claimed_returns = refl

keyed : IsKeyed triple_eq held_state.store.field_ownership
unfolding IsKeyed select str_eq
keyed = (refl, (refl, tt))

plain : All (λ row. IsPlain row.0.1) held_state.store.field_ownership
unfolding IsFreeOf
plain = omega arith

holds : select triple_eq (js "s", js "r", js "x") held_state.store.field_ownership ≡ some (js "doc")
unfolding select str_eq
holds = refl

apply_fresh-owner_example : js "doc" ≡ ownership.owner
apply_fresh-owner_example =
    apply_fresh-owner runtime world_of input claiming provider held_state claimed.1
      (operation_of claimed) ownership field_claim field_claim [] (js "x") (js "doc") keyed plain
      claimed_returns refl refl (Memᴰ.head refl) (Memᴰ.head refl) holds

-- The planning of the document in an empty store, where nothing is to change
abbrev prepared : Run (DesiredStateDocument × Provider)
prepared s = (return (document, provider), s)

abbrev request : PlanInput
request = record { actor = input.actor; request_id = none; options = stored.options }

abbrev start_state : RuntimeState
start_state = record { store = empty_store; recorded = []; tick = 0 }

abbrev planning : Result DspPlan × RuntimeState
planning = plan_document runtime prepared (λ p. p) request start_state

abbrev shown_of : Result DspPlan → DspPlan
shown_of (return made) = made
shown_of (throw e) = plan

planned : planning ≡ (return (shown_of planning.0), planning.1)
unfolding plan_document ◌>>=◌ and_then pure call read_store write_store ask audit compare_units
    str_eq lookup risk_level_from_score score_change environment_weight blast_radius_weight
    create_runtime_config
planned = refl

plan_document-IsFiled_example :
    (kept : PlanRecord) × (shown_of planning.0 ≡ kept.plan) × IsFiled runtime kept planning.1
plan_document-IsFiled_example =
    plan_document-IsFiled runtime prepared (λ p. p) request start_state planning.1
      (shown_of planning.0) planned

-- The runtime verifies a table that the provider reports as it is declared.
abbrev declared : ResourceInstance
declared = record {
  resource_type = js "t";
  key = js "users";
  attributes = some (entry (js "owner") (text (js "ann")) end);
  depends_on = none;
  external_id = none;
}

abbrev comparing : Provider
comparing = record provider {
  normalize_desired = λ asked. return (declared ∷ []);
  normalize_current = λ current. return (declared ∷ []);
  verify = none;
}

abbrev carried : Result OperationRecord × RuntimeState
carried = carry_out runtime world_of input stored comparing (js "op") state
