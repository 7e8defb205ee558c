-- ===== src/Runtime/Apply/Owned.antt =====
-- packages/core/src/runtime.ts: whom the fields of a plan belong to when it is carried out.
use mathlib.Core.List.{Memᴰ}
use desired_state_protocol.Common.{
  false, List, [], ◌∷◌, Option, none, some, JsString, lookup, All, ◌≡◌, refl, sym, ap, ◌∙◌, subst,
  get_or,
}
use desired_state_protocol.Protocol.Errors.{return}
use desired_state_protocol.Protocol.Results.{return_injective}
use desired_state_protocol.Protocol.Plan.{OperationRecord, PlanOwnership, OwnershipClaim}
use desired_state_protocol.Execution.Effects.{World}
use desired_state_protocol.Store.Table.{select, IsKeyed}
use desired_state_protocol.Store.Fields.{triple_eq}
use desired_state_protocol.Store.Buckets.{IsPlain}
use desired_state_protocol.Store.Owners.{ownership_for-holder, some-eq, row-IsPlain}
use desired_state_protocol.Store.Rows.{Store, PlanRecord, ownership_for}
use desired_state_protocol.Runtime.State.{Runtime, RuntimeState, Provider, read_store, pure}
use desired_state_protocol.Runtime.Runs.{
  Given, Gives, step-Gives, after-Gives, weaken-Gives, kept-Gives, known-Gives,
}
use desired_state_protocol.Runtime.Gates.{
  hold_claims, taken_claims, first_scope, owned_keys, still_held_within, still_held,
  assert_ownership_still_held,
}
use desired_state_protocol.Runtime.Parts.{ApplyInput}
use desired_state_protocol.Runtime.Apply.{admit, apply_fresh}
use desired_state_protocol.Runtime.Apply.Taken.{lookup-hold_claims, untaken, owned_keys-mem}
use desired_state_protocol.Runtime.Apply.Demands.{not-true, check-Gives}
use desired_state_protocol.Runtime.Apply.Checks.{integrity-Preserves, policy-Preserves}

module _ (runtime : Runtime) where
  -- No path of the claims is another document's, by what the store answers
  abbrev NoneTaken : PlanOwnership → JsString → Store → Type 0
  NoneTaken ownership scope store =
      taken_claims
        (hold_claims (ownership_for runtime.collate scope (owned_keys ownership) store) [])
        ownership.owner ownership.claims
      ≡ false

  within-Gives :
      (ownership : PlanOwnership) (scope : Option JsString) (s : RuntimeState)
      → Gives
          (λ _ _. (sc : JsString) → scope ≡ some sc → NoneTaken ownership sc s.store)
          (still_held_within runtime ownership scope)
          s
  unfolding still_held_within read_store pure
  within-Gives ownership none s = record { given = λ sc e. cc }
  within-Gives ownership (some scope) s = step-Gives _ λ claims listed.
      weaken-Gives (check-Gives _ _ _ _) λ _ s' untouched sc e.
        let free = not-true _ untouched in
        subst (λ t. NoneTaken ownership t s.store) (some-eq e)
          (subst (λ cs. taken_claims (hold_claims cs []) ownership.owner ownership.claims ≡ false)
            (sym (return_injective listed)) free)

  held-Gives :
      (o : Option PlanOwnership) (s : RuntimeState)
      → Gives
          (λ _ _.
            (own : PlanOwnership) (scope : JsString)
            → o ≡ some own
            → first_scope own ≡ some scope
            → NoneTaken own scope s.store)
          (still_held runtime o)
          s
  unfolding still_held pure
  held-Gives none s = record { given = λ own scope e e'. cc }
  held-Gives (some ownership) s =
      weaken-Gives (within-Gives ownership (first_scope ownership) s) λ _ s' free own scope e e'.
        let same : ownership ≡ own = ap (λ o. get_or o ownership) e in
        subst (λ t. NoneTaken t scope s.store) same
          (free scope (subst (λ t. first_scope t ≡ some scope) (sym same) e'))

  -- The claims of a stored plan are free, in a store
  abbrev IsFree : PlanRecord → Store → Type 0
  IsFree stored store =
      (own : PlanOwnership) (scope : JsString)
      → stored.plan.ownership ≡ some own
      → first_scope own ≡ some scope
      → NoneTaken own scope store

  admit-IsFree :
      (stored : PlanRecord) (s : RuntimeState)
      → Gives (λ _ _. IsFree stored s.store) (admit runtime stored) s
  unfolding admit assert_ownership_still_held
  admit-IsFree stored s =
      let Same : Store → Type 0 = λ store. store ≡ s.store in
      after-Gives (kept-Gives (integrity-Preserves Same runtime stored.plan) refl) λ _ intact.
        after-Gives (kept-Gives (policy-Preserves Same runtime stored.plan stored) intact.1)
          λ _ allowed.
            after-Gives (held-Gives stored.plan.ownership _)
              λ _ free. known-Gives (subst (IsFree stored) allowed.1 free)

  fresh-IsFree :
      (world_of : Store → World) (input : ApplyInput) (stored : PlanRecord) (provider : Provider)
      (s : RuntimeState)
      → Gives (λ _ _. IsFree stored s.store) (apply_fresh runtime world_of input stored provider) s
  unfolding apply_fresh
  fresh-IsFree world_of input stored provider s =
      after-Gives (admit-IsFree stored s) λ _ free. known-Gives free

  -- When a plan is carried out or answered behind the look-up of a key, a field that it claims and
  -- that has an owner in the scope of its first claim has the document of the plan as its owner. No
  -- field has two owners in the table, and the resource keys there have neither U+0000 nor a space.
  pub apply_fresh-owner :
      (world_of : Store → World) (input : ApplyInput) (stored : PlanRecord) (provider : Provider)
      (s s' : RuntimeState) (op : OperationRecord) (own : PlanOwnership)
      (first claim : OwnershipClaim) (rest : List OwnershipClaim) (path held : JsString)
      → IsKeyed triple_eq s.store.field_ownership
      → All (λ row. IsPlain row.0.1) s.store.field_ownership
      → apply_fresh runtime world_of input stored provider s ≡ (return op, s')
      → stored.plan.ownership ≡ some own
      → own.claims ≡ first ∷ rest
      → Memᴰ claim own.claims
      → Memᴰ path claim.paths
      → select triple_eq (first.scope, claim.resource_key, path) s.store.field_ownership ≡ some held
      → held ≡ own.owner
  unfolding first_scope lookup
  apply_fresh-owner world_of input stored provider s s' op own first claim rest path held keyed
        plain applied owned starts at_claim at_path found =
      let free : IsFree stored s.store =
        subst (λ r. Given (λ _ _. IsFree stored s.store) r.0 r.1) applied
          (fresh-IsFree world_of input stored provider s).given in
      let scoped : first_scope own ≡ some first.scope =
        subst
          (λ cs.
            (elim cs [
              | c ∷ _ ↦ some c.scope
              | [] ↦ elim own.conflicts [ [] ↦ none | c ∷ _ ↦ some c.scope ]
            ])
            ≡ some first.scope)
          (sym starts) refl in
      let key = claim.resource_key in
      let claims = ownership_for runtime.collate first.scope (owned_keys own) s.store in
      let (all_plain, holds) =
        ownership_for-holder runtime.collate first.scope (owned_keys own) s.store key path held
          keyed plain (owned_keys-mem own claim at_claim) found in
      let key_plain = row-IsPlain (first.scope, key, path) s.store.field_ownership plain found in
      untaken (hold_claims claims []) own.owner own.claims claim path held
        (free own first.scope owned scoped) at_claim at_path
        (lookup-hold_claims key path claims [] key_plain.1 all_plain ∙ holds)
