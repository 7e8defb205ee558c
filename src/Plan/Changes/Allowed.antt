-- ===== src/Plan/Changes/Allowed.antt =====
-- packages/plan-engine/src/diff.ts: what a destructive change needs.
use mathlib.Core.List.{Memᴰ}
use desired_state_protocol.Common.{
  ℕ, true, List, [], ◌∷◌, map, Option, JsString, StringMap, ◌≡◌, ◌⊎◌, refl, sym, ap, ◌∙◌, arith,
  mem_of_sort_by,
}
use desired_state_protocol.Protocol.Errors.{return}
use desired_state_protocol.Protocol.Results.{return_injective, >>=-eq-return}
use desired_state_protocol.Protocol.Plan.{
  ChangeAction, create, update, delete, replace, noop, blocked, PlanChange, ResourceTypeDefinition,
}
use desired_state_protocol.Plan.Diff.{DiffInput, DiffOptions, DraftChange}
use desired_state_protocol.Plan.Changes.{
  action_of, block_reason, is_destructive, to_plan_change, to_changes, drafts_of, compute_changes,
  change_order,
}

mem_of_map {ℓ κ} :
    {A : Type ℓ} {B : Type κ} (f : A → B) (xs : List A) {y : B}
    → Memᴰ y (map f xs)
    → (x : A) × Memᴰ x xs × (f x ≡ y)
mem_of_map f [] m = elim m [ ]
mem_of_map f (x ∷ xs) (Memᴰ.head e) = (x, Memᴰ.head refl, sym e)
mem_of_map f (x ∷ xs) (Memᴰ.tail m) = let (z, at_z, e) = mem_of_map f xs m in (z, Memᴰ.tail at_z, e)

-- What a change that destroys comes to: it is blocked, or the options allow it
unfoldable pub IsAllowed : DiffOptions → ChangeAction → Type 0
IsAllowed options action =
    (action ≡ blocked)
    ⊎ ((action ≡ delete) × (options.allow_delete ≡ true))
    ⊎ ((action ≡ replace) × (options.allow_replace ≡ true))

action_of-IsAllowed :
    (intent : ChangeAction) (resource_type : JsString) (definition : Option ResourceTypeDefinition)
    (options : DiffOptions)
    → is_destructive intent ≡ true
    → IsAllowed options (action_of intent (block_reason intent resource_type definition options))
unfolding IsAllowed action_of block_reason is_destructive
action_of-IsAllowed create resource_type definition options h = cc
action_of-IsAllowed update resource_type definition options h = cc
action_of-IsAllowed delete resource_type definition options h = ground arith
action_of-IsAllowed replace resource_type definition options h = ground arith
action_of-IsAllowed noop resource_type definition options h = cc
action_of-IsAllowed blocked resource_type definition options h = cc

module _ (number_text : ℕ → JsString) (sha256_hex : JsString → JsString) where
  mem_of_to_changes :
      (input : DiffInput) (drafts : List DraftChange) {change : PlanChange}
      → Memᴰ change (to_changes sha256_hex input drafts)
      → (draft : DraftChange) × (ids : StringMap JsString) × (to_plan_change sha256_hex input ids
            drafts draft
          ≡ change)
  unfolding to_changes
  mem_of_to_changes input drafts m =
      let (draft, at_draft, e) = mem_of_map _ drafts (mem_of_sort_by change_order _ m) in
      (draft, _, e)

  plan_change-IsAllowed :
      (input : DiffInput) (drafts : List DraftChange) (ids : StringMap JsString)
      (draft : DraftChange)
      → (to_plan_change sha256_hex input ids drafts draft).destructive ≡ true
      → IsAllowed input.options (to_plan_change sha256_hex input ids drafts draft).action
  unfolding to_plan_change
  plan_change-IsAllowed input drafts ids draft h =
      action_of-IsAllowed draft.intent draft.resource.resource_type _ input.options h

  -- A destructive change of a diff is blocked, or it is a deletion or a replacement that the options
  -- allow.
  pub compute_changes-IsAllowed :
      (input : DiffInput) (changes : List PlanChange) (change : PlanChange)
      → compute_changes number_text sha256_hex input ≡ return changes
      → Memᴰ change changes
      → change.destructive ≡ true
      → IsAllowed input.options change.action
  unfolding compute_changes
  compute_changes-IsAllowed input changes change computed m destructive =
      let (drafts, drafted, e) = >>=-eq-return (drafts_of number_text input) _ computed in
      let (draft, ids, same) =
        mem_of_to_changes input drafts {change = change} (rw (return_injective e) m) in
      rw (← same)
        (plan_change-IsAllowed input drafts ids draft (ap (λ c. c.destructive) same ∙ destructive))
