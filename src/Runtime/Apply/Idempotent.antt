-- ===== src/Runtime/Apply/Idempotent.antt =====
-- packages/core/src/runtime.ts: an application that is repeated is answered from the store.
use desired_state_protocol.Common.{
  Bool, true, false, not, Option, none, some, JsString, ◌≡◌, refl, ap, ◌∙◌, subst,
}
use desired_state_protocol.Protocol.Errors.{return, DspErrorCode}
use desired_state_protocol.Protocol.Results.{return_injective}
use desired_state_protocol.Protocol.Plan.{DspPlan, OperationRecord}
use desired_state_protocol.Execution.Effects.{World}
use desired_state_protocol.Store.Table.{select}
use desired_state_protocol.Store.Fields.{triple_eq}
use desired_state_protocol.Store.Rows.{
  Store, PlanRecord, IdempotencyKey, IdempotencyReservation, get_plan, save_operation,
  record_ownership, reserve_idempotency, reserve_row, find_operation_by_idempotency,
}
use desired_state_protocol.Runtime.State.{
  Runtime, RuntimeState, Run, Provider, provider_for_kind, ◌>>=◌, and_then, pure, call, read_store,
}
use desired_state_protocol.Runtime.Runs.{
  Given, Gives, step-Gives, both-Gives, weaken-Gives, bind-Preserves, call-Preserves, ask-Preserves,
  pure-Preserves, Preserves,
}
use desired_state_protocol.Runtime.Gates.{check, require_plan, found_plan}
use desired_state_protocol.Runtime.Parts.{ApplyInput, is_blank}
use desired_state_protocol.Runtime.Apply.{reserve, winner, unless_found, apply_fresh, apply}
use desired_state_protocol.Runtime.Apply.Preserved.{carry_out-Preserves}
use desired_state_protocol.Runtime.Apply.Checks.{admit-Preserves}
use desired_state_protocol.Runtime.Apply.Found.{key_of, IsFound, fresh-IsFound}

module _ (runtime : Runtime) (world_of : Store → World) where
  abbrev KeepsPlan : JsString → PlanRecord → Store → Type 0
  KeepsPlan plan_id stored store = get_plan plan_id store ≡ some stored

  reserve-KeepsPlan :
      (plan_id : JsString) (kept : PlanRecord) (input : ApplyInput) (plan : DspPlan) (id : JsString)
      → Preserves (KeepsPlan plan_id kept) (reserve runtime input plan id)
  unfolding reserve reserve_idempotency get_plan
  reserve-KeepsPlan plan_id kept input plan id = record {
    keeps = λ s h.
        let key = key_of runtime world_of plan.metadata.id input in
        row_keeps (select triple_eq key s.store.idempotency) key id s.store ∙ h;
  }
    where
      row_keeps :
          (o : Option JsString) (key : IdempotencyKey) (id : JsString) (store : Store)
          → get_plan plan_id (reserve_row o key id store).1 ≡ get_plan plan_id store
      row_keeps none key id store = unfold reserve_row get_plan in refl
      row_keeps (some held) key id store = unfold reserve_row get_plan in refl

  found_or-KeepsPlan :
      (plan_id : JsString) (kept : PlanRecord) (existing : Option OperationRecord)
      (rest : Run OperationRecord)
      → Preserves (KeepsPlan plan_id kept) rest
      → Preserves (KeepsPlan plan_id kept) (unless_found runtime existing rest)
  unfolding unless_found
  found_or-KeepsPlan plan_id kept none rest h = h
  found_or-KeepsPlan plan_id kept (some op) rest h = pure-Preserves op

  winner-KeepsPlan :
      (plan_id : JsString) (kept : PlanRecord) (reservation : IdempotencyReservation)
      → Preserves (KeepsPlan plan_id kept) (winner runtime reservation)
  unfolding winner
  winner-KeepsPlan plan_id kept reservation = record { keeps = λ s h. h }

  fresh-KeepsPlan :
      (plan_id : JsString) (kept : PlanRecord) (input : ApplyInput) (stored : PlanRecord)
      (provider : Provider)
      → Preserves (KeepsPlan plan_id kept) (apply_fresh runtime world_of input stored provider)
  unfolding apply_fresh get_plan save_operation record_ownership
  fresh-KeepsPlan plan_id kept input stored provider =
      bind-Preserves (admit-Preserves (KeepsPlan plan_id kept) runtime stored) λ _.
        bind-Preserves (ask-Preserves _) λ observed. bind-Preserves (call-Preserves _) λ _.
          bind-Preserves (ask-Preserves _) λ id.
            bind-Preserves (reserve-KeepsPlan plan_id kept input stored.plan id) λ reservation.
              bind-Preserves (winner-KeepsPlan plan_id kept reservation) λ existing.
                found_or-KeepsPlan plan_id kept existing _ (
                  carry_out-Preserves (KeepsPlan plan_id kept) (λ op store h. h)
                    (λ claims releases store h. h) runtime world_of input stored provider
                    reservation.operation_id)

  -- What makes a call be answered with a stored operation
  abbrev IsAnswered : ApplyInput → OperationRecord → RuntimeState → Type 0
  IsAnswered input op s =
      (stored : PlanRecord) × (provider : Provider) × (is_blank input.idempotency_key ≡ false)
      × (get_plan input.plan_id s.store ≡ some stored)
      × (provider_for_kind runtime stored.desired_state.kind ≡ return provider)
      × IsFound runtime world_of (key_of runtime world_of input.plan_id input) op s

  answered-apply :
      (input : ApplyInput) (op : OperationRecord) (s : RuntimeState)
      → IsAnswered input op s
      → apply runtime world_of input s ≡ (return op, s)
  unfolding apply ◌>>=◌ and_then call read_store pure require_plan found_plan unless_found
  answered-apply input op s (stored, provider, blank, plan, served, found) =
      rw (blank, plan, served, found) refl

  checked :
      (b : Bool) (code : DspErrorCode) (message : JsString) {u : Unit {0}}
      → check (not b) code message ≡ return u
      → b ≡ false
  checked true code message e = cc
  checked false code message e = refl

  found_plan-eq-return :
      (plan_id : JsString) (o : Option PlanRecord) (s : RuntimeState) {stored : PlanRecord}
      → (found_plan plan_id o s).0 ≡ return stored
      → (o ≡ some stored) × ((found_plan plan_id o s).1 ≡ s)
  unfolding found_plan pure call
  found_plan-eq-return plan_id none s e = cc
  found_plan-eq-return plan_id (some kept) s e = (ap some (return_injective e), refl)

  -- The part of `apply` behind the look-up of the key
  found_or-IsAnswered :
      (input : ApplyInput) (stored : PlanRecord) (provider : Provider)
      (replayed : Option OperationRecord) (s : RuntimeState)
      → (get_plan input.plan_id s.store ≡ some stored → stored.plan.metadata.id ≡ input.plan_id)
      → is_blank input.idempotency_key ≡ false
      → get_plan input.plan_id s.store ≡ some stored
      → provider_for_kind runtime stored.desired_state.kind ≡ return provider
      → find_operation_by_idempotency (key_of runtime world_of input.plan_id input) s.store
        ≡ replayed
      → Gives
          (IsAnswered input)
          (unless_found runtime replayed (apply_fresh runtime world_of input stored provider))
          s
  unfolding unless_found pure
  found_or-IsAnswered input stored provider (some op) s filed blank plan served found = record {
    given = (stored, provider, blank, plan, served, found);
  }
  found_or-IsAnswered input stored provider none s filed blank plan served found =
      let same = filed plan in
      weaken-Gives
        (both-Gives (fresh-KeepsPlan input.plan_id stored input stored provider) plan
          (fresh-IsFound runtime world_of input stored provider s))
        (λ op s' h. (
          stored,
          provider,
          blank,
          h.1,
          served,
          subst (λ id. IsFound runtime world_of (key_of runtime world_of id input) op s') same h.0,
        ))

  require_plan-eq-return :
      (plan_id : JsString) (s : RuntimeState) {stored : PlanRecord}
      → (require_plan plan_id s).0 ≡ return stored
      → (get_plan plan_id s.store ≡ some stored) × ((require_plan plan_id s).1 ≡ s)
  unfolding require_plan ◌>>=◌ and_then read_store
  require_plan-eq-return plan_id s e = found_plan-eq-return plan_id (get_plan plan_id s.store) s e

  apply-IsAnswered :
      (input : ApplyInput) (s : RuntimeState)
      → ((stored : PlanRecord)
          → get_plan input.plan_id s.store ≡ some stored
          → stored.plan.metadata.id ≡ input.plan_id)
      → Gives (IsAnswered input) (apply runtime world_of input) s
  unfolding apply call read_store
  apply-IsAnswered input s filed = step-Gives _ λ _ passed. step-Gives _ λ stored fetched.
      let (plan, same) = require_plan-eq-return input.plan_id s fetched in
      rw same (
        step-Gives _ λ provider served. step-Gives _ λ replayed found.
          found_or-IsAnswered input stored provider replayed s (filed stored)
            (checked (is_blank input.idempotency_key) _ _ passed) plan served
            (return_injective found))

  -- An application that is repeated with its key is answered with the operation that the first came
  -- to, and changes nothing: neither the store nor the audit log, and the provider is not asked. It
  -- is for a store that files the plan under its own id.
  pub apply-idempotent :
      (input : ApplyInput) (s s' : RuntimeState) (op : OperationRecord)
      → ((stored : PlanRecord)
          → get_plan input.plan_id s.store ≡ some stored
          → stored.plan.metadata.id ≡ input.plan_id)
      → apply runtime world_of input s ≡ (return op, s')
      → apply runtime world_of input s' ≡ (return op, s')
  apply-idempotent input s s' op filed applied =
      answered-apply input op s' (
        subst (λ r. Given (IsAnswered input) r.0 r.1) applied
          (apply-IsAnswered input s filed).given)
