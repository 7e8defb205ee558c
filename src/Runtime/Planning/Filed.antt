-- ===== src/Runtime/Planning/Filed.antt =====
-- packages/core/src/runtime.ts: what a planning leaves in the store.
use desired_state_protocol.Common.{
  ℕ, Bool, true, false, Option, none, some, ◌≡◌, refl, ap, sym, ◌∙◌, str_eq, str_eq_iff,
  str_eq_refl, if◌then◌else◌, subst,
}
use desired_state_protocol.Protocol.Errors.{Result, return, throw}
use desired_state_protocol.Protocol.Document.{DesiredStateDocument}
use desired_state_protocol.Protocol.Plan.{DspPlan}
use desired_state_protocol.Protocol.Hashes.{plan_id_from_hash}
use desired_state_protocol.Plan.Build.{
  BuildPlanInput, build_plan, compute_plan_hash, is_plan_expired,
}
use desired_state_protocol.Plan.Build.Sealed.{build_plan-hash}
use desired_state_protocol.Store.Table.{select, upsert, select-upsert, merged}
use desired_state_protocol.Store.Rows.{Store, PlanRecord, get_plan, save_plan}
use desired_state_protocol.Runtime.State.{
  Runtime, RuntimeState, Run, Recorded, Provider, ◌>>=◌, ◌>>◌, and_then, pure, call, write_store,
  audit,
}
use desired_state_protocol.Runtime.Runs.{Given, Gives, bind-Gives, after-Gives}
use desired_state_protocol.Runtime.Parts.{preserve_validity_window}
use desired_state_protocol.Runtime.Window.{preserve_validity_window-hash}
use desired_state_protocol.Runtime.Planning.{
  PlanInput, plan_event, build_input, make_plan, settle_window, file_plan, plan_document,
}

merged_new : {V : Type 0} (v : V) (o : Option V) → merged (λ _. v) v o ≡ v
merged_new v none = refl
merged_new v (some w) = refl

-- A plan that is saved is found under its id.
get-save_plan :
    (kept : PlanRecord) (store : Store)
    → get_plan kept.plan.metadata.id (save_plan kept store) ≡ some kept
unfolding get_plan save_plan
get-save_plan kept store =
    let id = kept.plan.metadata.id in
    let at = select-upsert str_eq str_eq_iff (λ _. kept) id kept store.plans id in
    let found : select str_eq id (upsert str_eq (λ _. kept) id kept store.plans)
        ≡ some (merged (λ _. kept) kept (select str_eq id store.plans)) =
      rw (str_eq_refl id) at at in
    found ∙ ap some (merged_new kept (select str_eq id store.plans))

module _ (runtime : Runtime) where
  -- The plan has its own hash, and an id derived from it
  abbrev pub HasItsHash : DspPlan → Type 0
  HasItsHash plan =
      (compute_plan_hash runtime.number_text runtime.sha256_hex plan
        ≡ return plan.metadata.plan_hash)
      × (plan.metadata.id ≡ plan_id_from_hash plan.metadata.plan_hash)

  abbrev pub IsFiled : PlanRecord → RuntimeState → Type 0
  IsFiled kept s = (get_plan kept.plan.metadata.id s.store ≡ some kept) × HasItsHash kept.plan

  Given-result :
      (r : Result DspPlan) (s : RuntimeState)
      → ((plan : DspPlan) → r ≡ return plan → HasItsHash plan)
      → Given (λ plan _. HasItsHash plan) r s
  Given-result (return plan) s h = h plan refl
  Given-result (throw e) s h = tt

  built-Gives :
      (input : BuildPlanInput) (s : RuntimeState)
      → Gives
          (λ plan _. HasItsHash plan)
          (call (build_plan runtime.number_text runtime.sha256_hex input))
          s
  unfolding call
  built-Gives input s = record {
    given =
        Given-result (build_plan runtime.number_text runtime.sha256_hex input) s
          (build_plan-hash runtime.number_text runtime.sha256_hex input);
  }

  make_plan-Gives :
      (input : PlanInput) (document : DesiredStateDocument) (provider : Provider) (s : RuntimeState)
      → Gives (λ plan _. HasItsHash plan) (make_plan runtime input document provider) s
  unfolding make_plan
  make_plan-Gives input document provider s = bind-Gives _ λ current.
      bind-Gives _ λ desired_projection. bind-Gives _ λ current_projection. bind-Gives _ λ _.
        bind-Gives _ λ desired. bind-Gives _ λ found. bind-Gives _ λ snapshot.
          bind-Gives _ λ contract. bind-Gives _ λ time.
            built-Gives
              (build_input runtime input document provider current desired_projection
                current_projection desired.resources snapshot contract time)
              _

  keep_id :
      (expired : Bool) (plan : DspPlan) (created_at expires_at : ℕ)
      → (if expired then plan else record plan {
        metadata = record (plan.metadata) { created_at = created_at; expires_at = expires_at };
      }).metadata.id
        ≡ plan.metadata.id
  keep_id true plan created_at expires_at = refl
  keep_id false plan created_at expires_at = refl

  settled-HasItsHash :
      (plan : DspPlan) (found : Option PlanRecord) (time : ℕ)
      → HasItsHash plan
      → HasItsHash (preserve_validity_window plan found time)
  unfolding preserve_validity_window
  settled-HasItsHash plan none time h = h
  settled-HasItsHash plan (some stored) time (hashed, named) =
      let (same, kept) =
        preserve_validity_window-hash runtime.number_text runtime.sha256_hex plan (some stored)
          time in
      (
        same ∙ hashed ∙ ap return (sym kept),
        keep_id (is_plan_expired stored.plan time) plan stored.plan.metadata.created_at
              stored.plan.metadata.expires_at
            ∙ named
            ∙ ap plan_id_from_hash (sym kept),
      )

  settle-Gives :
      (found : Option PlanRecord) (plan : DspPlan) (s : RuntimeState)
      → HasItsHash plan
      → Gives (λ settled _. HasItsHash settled) (settle_window runtime found plan) s
  unfolding settle_window pure
  settle-Gives none plan s h = record { given = settled-HasItsHash plan none 0 h }
  settle-Gives (some stored) plan s h =
      bind-Gives _ λ time. record { given = settled-HasItsHash plan (some stored) time h }

  keep-Gives :
      (kept : PlanRecord) (event : Recorded) {s : RuntimeState}
      → HasItsHash kept.plan
      → Gives IsFiled (write_store (save_plan kept) >> (audit event >> pure kept)) s
  unfolding ◌>>=◌ and_then write_store audit pure
  keep-Gives kept event {s} hashed = record { given = (get-save_plan kept s.store, hashed) }

  file_plan-Gives :
      (input : PlanInput) (document : DesiredStateDocument) (plan : DspPlan) (s : RuntimeState)
      → HasItsHash plan
      → Gives IsFiled (file_plan runtime input document plan) s
  unfolding file_plan
  file_plan-Gives input document plan s h = bind-Gives _ λ stored.
      after-Gives (settle-Gives stored plan _ h) λ settled hashed.
        keep-Gives
          (record {
            plan = settled;
            desired_state = document;
            options = input.options;
            environment = runtime.config.environment;
          })
          (plan_event input document plan) hashed

  abbrev pub IsShown : (DspPlan → DspPlan) → DspPlan → RuntimeState → Type 0
  IsShown redact shown s = (kept : PlanRecord) × (shown ≡ redact kept.plan) × IsFiled kept s

  plan_document-Gives :
      (prepare : Run (DesiredStateDocument × Provider)) (redact : DspPlan → DspPlan)
      (input : PlanInput) (s : RuntimeState)
      → Gives (IsShown redact) (plan_document runtime prepare redact input) s
  unfolding plan_document pure
  plan_document-Gives prepare redact input s = bind-Gives _ λ _. bind-Gives _ λ prepared.
      after-Gives (make_plan-Gives input prepared.0 prepared.1 _) λ plan hashed.
        after-Gives (file_plan-Gives input prepared.0 plan _ hashed)
          λ kept filed. record { given = (kept, refl, filed) }

  -- What a planning returns is the redacted form of a plan that the store has under that plan's own
  -- id, and the stored plan has the hash of its contents and an id derived from it, whatever plan was
  -- stored before and however the provider and the document check answer.
  pub plan_document-IsFiled :
      (prepare : Run (DesiredStateDocument × Provider)) (redact : DspPlan → DspPlan)
      (input : PlanInput) (s s' : RuntimeState) (shown : DspPlan)
      → plan_document runtime prepare redact input s ≡ (return shown, s')
      → (kept : PlanRecord) × (shown ≡ redact kept.plan) × IsFiled kept s'
  plan_document-IsFiled prepare redact input s s' shown planned =
      subst (λ r. Given (IsShown redact) r.0 r.1) planned
        (plan_document-Gives prepare redact input s).given
