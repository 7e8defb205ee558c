-- ===== src/Plan/Ownership/Resolved.antt =====
-- packages/plan-engine/src/ownership.ts: what resolveOwnership reports of a field that is declared.
use mathlib.Core.List.{Memᴰ}
use desired_state_protocol.Common.{
  false, [], Option, none, some, JsString, lookup, str_eq, str_eq_iff, ◌≡◌, ◌≢◌, arith, mem-sort_by,
  mem_of_sort_by, All, All-mem, sym, ◌∙◌,
}
use desired_state_protocol.Protocol.Plan.{OwnershipClaim, FieldConflict, ResourceConflict}
use desired_state_protocol.Plan.Normalize.{NormalizedResource}
use desired_state_protocol.Plan.Ownership.{
  ResolveOwnershipInput, held_key, hold_all, leaf_paths, found_of, claims_of, conflicts_of,
  claim_order, conflict_order, resolve_ownership,
}
use desired_state_protocol.Plan.Ownership.Classified.{
  mem-taken, taken-mem, mem-clashing, clashing-mem, clash,
}
use desired_state_protocol.Plan.Ownership.Snapshot.{IsFreeOf, last_holder, lookup-hold_all}
use desired_state_protocol.Plan.Ownership.Members.{
  Claims, Conflicts, mem-claims_of, mem-conflicts_of, claims_of-own, conflicts_of-own,
}

-- Who holds a path of a resource by the claims of the snapshot of the input
unfoldable pub holder : ResolveOwnershipInput → NormalizedResource → JsString → Option JsString
holder input resource path = last_holder input.snapshot resource.key path

-- No key has U+0000, which separates a key from a path
pub record IsSeparable (input : ResolveOwnershipInput) : Type 0 where
  pub claimed : All (λ claim. IsFreeOf 0 claim.resource_key) input.snapshot
  pub declared : All (λ resource. IsFreeOf 0 resource.key) input.desired

-- A path of a claim of the document: one of a declared resource, that nobody holds
unfoldable pub IsFree : ResolveOwnershipInput → OwnershipClaim → JsString → Type 0
unfolding holder
IsFree input claim path =
    (claim.owner ≡ input.owner)
    × ((resource : NormalizedResource) × Memᴰ resource input.desired
        × (claim.resource_key ≡ resource.key)
        × Memᴰ path (leaf_paths resource)
        × (holder input resource path ≡ none))

-- A field of a conflict: one of a declared resource, that the named other owner holds
unfoldable pub IsHeld : ResolveOwnershipInput → ResourceConflict → FieldConflict → Type 0
unfolding holder
IsHeld input conflict field =
    (resource : NormalizedResource) × Memᴰ resource input.desired
    × (conflict.resource_key ≡ resource.key)
    × Memᴰ field.path (leaf_paths resource)
    × (holder input resource field.path ≡ some field.owner)
    × (field.owner ≢ input.owner)

lookup-holder :
    (input : ResolveOwnershipInput) (resource : NormalizedResource) (path : JsString)
    → IsSeparable input
    → Memᴰ resource input.desired
    → lookup (held_key resource.key path) (hold_all input.snapshot []) ≡ holder input resource path
unfolding holder lookup
lookup-holder input resource path separable at_r =
    lookup-hold_all resource.key path input.snapshot []
      (All-mem (λ r. IsFreeOf 0 r.key) input.desired separable.declared at_r) separable.claimed

differ : (a b : JsString) → str_eq a b ≡ false → a ≢ b
differ a b h = ground (arith, str_eq_iff a b)

differ_back : (a b : JsString) → a ≢ b → str_eq a b ≡ false
differ_back a b h = ground (arith, str_eq_iff a b)

-- With no U+0000 in the keys, each path of a claim that is reported is a declared path of its
-- resource that no claim of the snapshot covers, and the claim is the document's.
pub resolve_ownership-IsFree :
    (input : ResolveOwnershipInput) (claim : OwnershipClaim) (path : JsString)
    → IsSeparable input
    → Memᴰ claim (resolve_ownership input).claims
    → Memᴰ path claim.paths
    → IsFree input claim path
unfolding resolve_ownership IsFree found_of
resolve_ownership-IsFree input claim path separable m at_path =
    let held = hold_all input.snapshot [] in
    let claims = claims_of held input.owner input.scope input.desired in
    let (own, (r, at_r, key, paths)) =
      mem-claims_of held input.owner input.scope input.desired
        (mem_of_sort_by claim_order claims m) in
    let (at_p, free) = mem-taken held input.owner r.key (leaf_paths r) (rw paths at at_path) in
    (own, (r, at_r, key, at_p, sym (lookup-holder input r path separable at_r) ∙ free))

-- With no U+0000 in the keys, a declared path that no claim of the snapshot covers is in a claim of
-- its resource.
pub resolve_ownership-Claims :
    (input : ResolveOwnershipInput) (resource : NormalizedResource) (path : JsString)
    → IsSeparable input
    → Memᴰ resource input.desired
    → Memᴰ path (leaf_paths resource)
    → holder input resource path ≡ none
    → Claims resource path (resolve_ownership input).claims
unfolding resolve_ownership found_of holder
resolve_ownership-Claims input resource path separable at_r at_path free =
    let held = hold_all input.snapshot [] in
    let claims = claims_of held input.owner input.scope input.desired in
    let taken =
      taken-mem held input.owner resource.key (leaf_paths resource) at_path
        (lookup-holder input resource path separable at_r ∙ free) in
    let (c, at_c, key, at_p) =
      claims_of-own held input.owner input.scope input.desired at_r taken in
    (c, mem-sort_by claim_order claims at_c, key, at_p)

-- With no U+0000 in the keys, each field of a conflict that is reported is a declared path of its
-- resource, whose last claim in the snapshot is the named owner's, who is not the document.
pub resolve_ownership-IsHeld :
    (input : ResolveOwnershipInput) (conflict : ResourceConflict) (field : FieldConflict)
    → IsSeparable input
    → Memᴰ conflict (resolve_ownership input).conflicts
    → Memᴰ field conflict.conflicts
    → IsHeld input conflict field
unfolding resolve_ownership IsHeld found_of
resolve_ownership-IsHeld input conflict field separable m at_field =
    let held = hold_all input.snapshot [] in
    let conflicts = conflicts_of held input.owner input.scope input.desired in
    let (r, at_r, key, fields) =
      mem-conflicts_of held input.owner input.scope input.desired
        (mem_of_sort_by conflict_order conflicts m) in
    let (at_path, holds, differs) =
      mem-clashing held input.owner r.key (leaf_paths r) (rw fields at at_field) in
    (
      r,
      at_r,
      key,
      at_path,
      sym (lookup-holder input r field.path separable at_r) ∙ holds,
      differ field.owner input.owner differs,
    )

-- With no U+0000 in the keys, a declared path whose last claim in the snapshot is another owner's is
-- in a conflict of its resource, with that owner.
pub resolve_ownership-Conflicts :
    (input : ResolveOwnershipInput) (resource : NormalizedResource) (path other : JsString)
    → IsSeparable input
    → Memᴰ resource input.desired
    → Memᴰ path (leaf_paths resource)
    → holder input resource path ≡ some other
    → other ≢ input.owner
    → Conflicts resource (clash path other) (resolve_ownership input).conflicts
unfolding resolve_ownership found_of holder
resolve_ownership-Conflicts input resource path other separable at_r at_path holds differs =
    let held = hold_all input.snapshot [] in
    let conflicts = conflicts_of held input.owner input.scope input.desired in
    let clashing =
      clashing-mem held input.owner resource.key (leaf_paths resource) at_path
        (lookup-holder input resource path separable at_r ∙ holds)
        (differ_back other input.owner differs) in
    let (c, at_c, key, at_f) =
      conflicts_of-own held input.owner input.scope input.desired at_r clashing in
    (c, mem-sort_by conflict_order conflicts at_c, key, at_f)
