-- ===== src/Execution/Dependencies.antt =====
-- Order of execution: a change succeeds only behind its dependencies.
use mathlib.Core.List.{Memᴰ}
use desired_state_protocol.Common.{
  ℕ, Bool, true, false, not, List, [], ◌∷◌, ◌≡◌, refl, arith, JsString, All, none, some, filter,
  lookup, insert, lookup-insert, lookup-insert_ne, lookup-mem, mem-insert, values, str_eq,
  str_eq_sound, Bool-cases, Option-cases, inl, inr, mem_of_sort_by, mem-sort_by, All-map_pred,
  subst, sym,
}
use desired_state_protocol.Protocol.Plan.{
  PlanChange, ChangeStatus, ChangeExecutionRecord, OperationRecord, OperationStatus,
}
use desired_state_protocol.Execution.Effects.{
  World, saved, read_clock, Trace, Result, return, throw,
}
use desired_state_protocol.Execution.Retry.{RetryOptions}
use desired_state_protocol.Execution.Records.{
  Records, dependency_satisfied, commit, committed_changes, reorder,
}
use desired_state_protocol.Execution.RunChange.{unmet_dependencies, run_change}
use desired_state_protocol.Execution.Attempts.{Ensures}
use desired_state_protocol.Execution.Recorded.{RunPost, run_change-RunPost, IsRecorded}
use desired_state_protocol.Execution.ExecutePlan.{initial_records, execute_plan, already_succeeded}
use desired_state_protocol.Execution.Rule.{Rule, execute_plan-Ensures}

-- All dependencies of a change are satisfied in the records.
abbrev HasDependencies : Records → PlanChange → Type 0
HasDependencies records c = All (λ d. dependency_satisfied (lookup d records) ≡ true) c.dependencies

-- The ids of the changes differ.
abbrev pub HasDistinctIds : List PlanChange → Type 0
HasDistinctIds [] = Unit
HasDistinctIds (c ∷ cs) = All (λ d. str_eq c.id d.id ≡ false) cs × HasDistinctIds cs

satisfied_of_no_unmet :
    (records : Records) (ds : List JsString)
    → filter (λ d. not (dependency_satisfied (lookup d records))) ds ≡ []
    → All (λ d. dependency_satisfied (lookup d records) ≡ true) ds
satisfied_of_no_unmet records [] h = tt
satisfied_of_no_unmet records (d ∷ ds) h =
    elim (Bool-cases (dependency_satisfied (lookup d records))) [
      | inl yes_it_is ↦ (yes_it_is, satisfied_of_no_unmet records ds (ground arith))
      | inr unmet ↦ absurd (ground arith)
    ]

satisfied-insert :
    (records : Records) (k : JsString) (r : ChangeExecutionRecord) (d : JsString)
    → lookup k records ≡ none
    → dependency_satisfied (lookup d records) ≡ true
    → dependency_satisfied (lookup d (insert k r records)) ≡ true
unfolding dependency_satisfied
satisfied-insert records k r d fresh h = elim (Bool-cases (str_eq k d)) [
  | inl same ↦ let e = str_eq_sound k d same in absurd (ground arith)
  | inr other_key ↦ rw (lookup-insert_ne k d r records other_key) h
]

-- Some record is that of change `d`, and satisfies those that depend on it.
abbrev pub IsMet : List ChangeExecutionRecord → JsString → Type 0
IsMet rs d =
    (r : ChangeExecutionRecord) × Memᴰ r rs
    × (r.change_id ≡ d)
    × (dependency_satisfied (some r) ≡ true)

-- A record of a success is that of a change of the plan whose dependencies are all met.
abbrev pub IsBacked : List PlanChange → List ChangeExecutionRecord → ChangeExecutionRecord → Type 0
IsBacked plan rs r =
    r.status ≡ ChangeStatus.succeeded
    → (c : PlanChange) × Memᴰ c plan × (c.id ≡ r.change_id) × All (IsMet rs) c.dependencies

-- The same over the map of records
abbrev Backed : List PlanChange → Records → ChangeExecutionRecord → Type 0
Backed plan records r =
    r.status ≡ ChangeStatus.succeeded
    → (c : PlanChange) × Memᴰ c plan × (c.id ≡ r.change_id) × HasDependencies records c

abbrev pub AllBacked : List PlanChange → Result OperationRecord → Trace → Type 0
AllBacked plan (return op) tr =
    (r : ChangeExecutionRecord) → Memᴰ r op.changes → IsBacked plan op.changes r
AllBacked plan (throw e) tr = Unit

module _ (plan : List PlanChange) where
  record Inv (rest : List PlanChange) (op : OperationRecord) (records : Records) (tr : Trace)
      : Type 0 where
    listed : (c : PlanChange) → Memᴰ c rest → Memᴰ c plan
    distinct : HasDistinctIds rest
    unseen : All (λ c. lookup c.id records ≡ none) rest
    keyed : (k : JsString) (r : ChangeExecutionRecord) → lookup k records ≡ some r → r.change_id ≡ k
    backed : (r : ChangeExecutionRecord) → Memᴰ r (values records) → Backed plan records r

  HasDependencies-insert :
      (records : Records) (k : JsString) (r : ChangeExecutionRecord) (ds : List JsString)
      → lookup k records ≡ none
      → All (λ d. dependency_satisfied (lookup d records) ≡ true) ds
      → All (λ d. dependency_satisfied (lookup d (insert k r records)) ≡ true) ds
  HasDependencies-insert records k r ds fresh h =
      All-map_pred (λ d. dependency_satisfied (lookup d records) ≡ true)
        (λ d. dependency_satisfied (lookup d (insert k r records)) ≡ true) ds
        (λ d m. satisfied-insert records k r d fresh m) h

  Backed-insert :
      (records : Records) (c : PlanChange) (r : ChangeExecutionRecord)
      → Memᴰ c plan
      → lookup c.id records ≡ none
      → r.change_id ≡ c.id
      → (r.status ≡ ChangeStatus.succeeded → unmet_dependencies c records ≡ [])
      → ((x : ChangeExecutionRecord) → Memᴰ x (values records) → Backed plan records x)
      → (x : ChangeExecutionRecord) → Memᴰ x (values (insert c.id r records))
      → Backed plan (insert c.id r records) x
  unfolding unmet_dependencies
  Backed-insert records c r listed fresh same met old x m s = elim (mem-insert c.id r records m) [
    | inl e ↦
        let done : r.status ≡ ChangeStatus.succeeded = rw (← e) s in
        (
          c,
          listed,
          rw e (sym same),
          HasDependencies-insert records c.id r c.dependencies fresh
              (satisfied_of_no_unmet records c.dependencies (met done)),
        )
    | inr before ↦
        let (d, in_plan, named, deps) = old x before s in
        (d, in_plan, named, HasDependencies-insert records c.id r d.dependencies fresh deps)
  ]

  unseen-insert :
      (records : Records) (c : PlanChange) (r : ChangeExecutionRecord) (rest : List PlanChange)
      → All (λ d. str_eq c.id d.id ≡ false) rest
      → All (λ d. lookup d.id records ≡ none) rest
      → All (λ d. lookup d.id (insert c.id r records) ≡ none) rest
  unseen-insert records c r [] h u = tt
  unseen-insert records c r (d ∷ rest) (h, hs) (u, us) =
      (rw (lookup-insert_ne c.id d.id r records h) u, unseen-insert records c r rest hs us)

  keyed-insert :
      (records : Records) (c : PlanChange) (r : ChangeExecutionRecord)
      → r.change_id ≡ c.id
      → ((k : JsString) (x : ChangeExecutionRecord) → lookup k records ≡ some x → x.change_id ≡ k)
      → (k : JsString) (x : ChangeExecutionRecord) → lookup k (insert c.id r records) ≡ some x
      → x.change_id ≡ k
  keyed-insert records c r same keyed k x e = elim (Bool-cases (str_eq c.id k)) [
    | inl here ↦
        let at_key = str_eq_sound c.id k here in
        let found : some r ≡ some x = rw (lookup-insert c.id k r records, here) at e in cc
    | inr elsewhere ↦ keyed k x (rw (lookup-insert_ne c.id k r records elsewhere) at e)
  ]

  IsMet-of_satisfied :
      (records : Records) (d : JsString)
      → ((k : JsString) (x : ChangeExecutionRecord) → lookup k records ≡ some x → x.change_id ≡ k)
      → dependency_satisfied (lookup d records) ≡ true
      → IsMet (values records) d
  unfolding dependency_satisfied
  IsMet-of_satisfied records d keyed h = elim (Option-cases (lookup d records)) [
    | inl missing ↦ absurd (ground arith)
    | inr (r, found) ↦ (r, lookup-mem d records found, keyed d r found, rw found at h)
  ]

  AllBacked-values :
      (records : Records)
      → ((k : JsString) (x : ChangeExecutionRecord) → lookup k records ≡ some x → x.change_id ≡ k)
      → ((x : ChangeExecutionRecord) → Memᴰ x (values records) → Backed plan records x)
      → (r : ChangeExecutionRecord) → Memᴰ r (values records)
      → IsBacked plan (values records) r
  AllBacked-values records keyed backed r m s =
      let (c, in_plan, named, deps) = backed r m s in
      (
        c,
        in_plan,
        named,
        All-map_pred (λ d. dependency_satisfied (lookup d records) ≡ true) (IsMet (values records))
            c.dependencies (λ d h. IsMet-of_satisfied records d keyed h) deps,
      )

  AllBacked-transfer :
      (rs us : List ChangeExecutionRecord)
      → ((x : ChangeExecutionRecord) → Memᴰ x us → Memᴰ x rs)
      → ((x : ChangeExecutionRecord) → Memᴰ x rs → Memᴰ x us)
      → ((r : ChangeExecutionRecord) → Memᴰ r rs → IsBacked plan rs r)
      → (r : ChangeExecutionRecord) → Memᴰ r us
      → IsBacked plan us r
  AllBacked-transfer rs us back forth backed r m s =
      let (c, in_plan, named, deps) = backed r (back r m) s in
      (
        c,
        in_plan,
        named,
        All-map_pred (IsMet rs) (IsMet us) c.dependencies
            (λ d (x, at, same, sat). (x, forth x at, same, sat)) deps,
      )

  AllBacked-committed :
      (recorded : List ChangeExecutionRecord) (op : OperationRecord)
      (rs : List ChangeExecutionRecord)
      → ((r : ChangeExecutionRecord) → Memᴰ r rs → IsBacked plan rs r)
      → (r : ChangeExecutionRecord) → Memᴰ r (committed_changes recorded op rs)
      → IsBacked plan (committed_changes recorded op rs) r
  unfolding committed_changes
  AllBacked-committed [] op rs backed = backed
  AllBacked-committed (_ ∷ _) op rs backed =
      AllBacked-transfer rs (reorder op rs) (λ x m. mem_of_sort_by _ rs m)
        (λ x m. mem-sort_by _ rs m) backed

  AllBacked-commit :
      (op : OperationRecord) (records : Records) (time : ℕ) (cancelled : Bool) (tr : Trace)
      → ((r : ChangeExecutionRecord) → Memᴰ r (values records) → IsBacked plan (values records) r)
      → AllBacked plan (return (commit op records time cancelled)) tr
  unfolding commit
  AllBacked-commit op records time cancelled tr backed =
      AllBacked-committed op.changes op (values records) backed

module _ (world : World) (retry : RetryOptions) (timeout_ms : ℕ) (plan : List PlanChange) where
  runs :
      (c : PlanChange) (rest : List PlanChange) (op op' : OperationRecord) (records : Records)
      (tr tr' : Trace) (r : ChangeExecutionRecord)
      → Inv plan (c ∷ rest) op records tr
      → (run_change world retry timeout_ms c records tr).0 ≡ return r
      → Inv plan rest op' (insert c.id r records) tr'
  runs c rest op op' records tr tr' r inv q =
      let run = run_change world retry timeout_ms c records tr in
      let done : IsRecorded retry.max_attempts c records tr r run.1 =
        subst (λ x. RunPost retry.max_attempts c records tr x run.1) q
          (run_change-RunPost world retry timeout_ms c records tr) in
      record {
        listed = λ d m. inv.listed d (Memᴰ.tail m);
        distinct = inv.distinct.1;
        unseen = unseen-insert plan records c r rest inv.distinct.0 inv.unseen.1;
        keyed = keyed-insert plan records c r done.same_id inv.keyed;
        backed =
            Backed-insert plan records c r (inv.listed c (Memᴰ.head refl)) inv.unseen.0 done.same_id
              (λ s. (done.earned s).0.no_unmet) inv.backed;
      }

  again :
      (c : PlanChange) (rest : List PlanChange) (op : OperationRecord) (records : Records)
      (tr : Trace)
      → Inv plan (c ∷ rest) op records tr
      → already_succeeded (lookup c.id records) ≡ true
      → Inv plan rest op records tr
  unfolding already_succeeded
  again c rest op records tr inv old = let new = inv.unseen.0 in absurd (ground arith)

  rule : Rule world retry timeout_ms plan (Inv plan) (AllBacked plan)
  rule = record {
    ends = λ rest op records tr time cancelled inv _.
        AllBacked-commit plan op records time cancelled []
          (AllBacked-values plan records inv.keyed inv.backed);
    ends_throwing = λ rest op op' records tr e _ _. tt;
    asks = λ rest op records tr inv. record {
      listed = inv.listed;
      distinct = inv.distinct;
      unseen = inv.unseen;
      keyed = inv.keyed;
      backed = inv.backed;
    };
    ask_throws = λ rest op records tr e _ _. tt;
    skips = λ c rest op records tr old inv. again c rest op records tr inv old;
    runs = λ c rest op records tr r time fresh inv q. runs c rest op _ records tr _ r inv q;
    report_throws = λ c rest op records tr op' e fresh _ _. tt;
    run_throws = λ c rest op records tr e fresh _ _. tt;
  }

All-unseen :
    (plan : List PlanChange) → All (λ c. lookup {V = ChangeExecutionRecord} c.id [] ≡ none) plan
unfolding lookup
All-unseen [] = tt
All-unseen (c ∷ cs) = (refl, All-unseen cs)

start :
    (plan : List PlanChange) (op : OperationRecord) (tr : Trace)
    → HasDistinctIds plan
    → Inv plan plan op [] tr
unfolding lookup
start plan op tr distinct = record {
  listed = λ c m. m;
  distinct = distinct;
  unseen = All-unseen plan;
  keyed = λ k r e. cc;
  backed = λ r m. elim m [ ];
}

-- In a run of a plan whose change ids differ, from an operation with no records: in the operation
-- that is returned, a record of a success is that of a change of the plan, and each dependency of
-- that change has a record which succeeded or is a skipped noop.
pub execute_plan-AllBacked :
    (world : World) (retry : RetryOptions) (timeout_ms : ℕ) (plan : List PlanChange)
    (operation : OperationRecord) (tr : Trace)
    → HasDistinctIds plan
    → operation.changes ≡ []
    → Ensures (AllBacked plan) (execute_plan world retry timeout_ms plan operation tr)
unfolding initial_records
execute_plan-AllBacked world retry timeout_ms plan operation tr distinct fresh =
    let none_yet : initial_records operation ≡ [] = rw (fresh, initial_records) in
    let running = record operation {
      status = OperationStatus.running;
      updated_at = world.now tr;
    } in
    let tr' : Trace = saved running ∷ read_clock ∷ tr in
    execute_plan-Ensures (rule world retry timeout_ms plan) operation tr
      (subst (λ m. Inv plan plan running m tr') (sym none_yet) (start plan running tr' distinct))
      (λ e _. tt)
