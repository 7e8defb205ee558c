-- ===== src/Runtime/Apply/Taken.antt =====
-- packages/core/src/runtime.ts: the check of the owners of a plan's fields, against the claims that it reads.
use mathlib.Core.List.{Memᴰ}
use mathlib.Core.List.Memᴰ
use desired_state_protocol.Common.{
  Bool, true, false, not, ◌&&◌, List, [], ◌∷◌, ◌++◌, any, map, includes, none, some, JsString,
  StringMap, mem_of_includes, mem-map_of, lookup, insert, str_eq, str_eq_sound, lookup-insert,
  if◌then◌else◌, All, ◌≡◌, ◌⊎◌, refl, sym, ap, ◌∙◌, arith, Bool-cases, inl, inr, subst, unique,
  unique_from,
}
use desired_state_protocol.Protocol.Plan.{PlanOwnership, OwnershipClaim}
use desired_state_protocol.Plan.Ownership.Snapshot.{IsFreeOf, str_eq-joined, holder_from}
use desired_state_protocol.Store.Buckets.{IsPlain}
use desired_state_protocol.Runtime.Gates.{
  field_name, hold_claim, hold_claims, taken_path, taken_claims, owned_keys,
}

lookup-hold_claim :
    (key path resource_key owner : JsString) (paths : List JsString) (held : StringMap JsString)
    → IsFreeOf 32 key
    → IsFreeOf 32 resource_key
    → lookup (field_name key path) (hold_claim resource_key owner paths held) ≡ (
        if (str_eq resource_key key && includes paths path)
        then some owner
        else lookup (field_name key path) held)
unfolding hold_claim field_name includes
lookup-hold_claim key path resource_key owner [] held free_k free_r = ground arith
lookup-hold_claim key path resource_key owner (p ∷ paths) held free_k free_r =
    let later =
      lookup-hold_claim key path resource_key owner paths
        (insert (field_name resource_key p) owner held) free_k free_r in
    let here = lookup-insert (field_name resource_key p) (field_name key path) owner held in
    let same = str_eq-joined 32 resource_key key p path free_r free_k in ground arith

pub lookup-hold_claims :
    (key path : JsString) (claims : List OwnershipClaim) (held : StringMap JsString)
    → IsFreeOf 32 key
    → All (λ c. IsPlain c.resource_key) claims
    → lookup (field_name key path) (hold_claims claims held)
      ≡ holder_from (lookup (field_name key path) held) claims key path
unfolding hold_claims holder_from
lookup-hold_claims key path [] held free_k free = refl
lookup-hold_claims key path (claim ∷ claims) held free_k (free_c, free) =
    lookup-hold_claims key path claims (hold_claim claim.resource_key claim.owner claim.paths held)
      free_k free
    ∙ ap (λ before. holder_from before claims key path)
        (lookup-hold_claim key path claim.resource_key claim.owner claim.paths held free_k free_c.1)

-- The paths of the claims of which none is taken
any-none :
    {A : Type 0} (p : A → Bool) (xs : List A) {x : A} → any p xs ≡ false → Memᴰ x xs → p x ≡ false
any-none p [] h m = elim m [ ]
any-none p (y ∷ xs) {x} h (Memᴰ.head e) = let here : p y ≡ false = ground arith in ap p e ∙ here
any-none p (y ∷ xs) h (Memᴰ.tail m) = any-none p xs (ground arith) m

pub untaken :
    (held : StringMap JsString) (owner : JsString) (claims : List OwnershipClaim)
    (claim : OwnershipClaim) (path holder : JsString)
    → taken_claims held owner claims ≡ false
    → Memᴰ claim claims
    → Memᴰ path claim.paths
    → lookup (field_name claim.resource_key path) held ≡ some holder
    → holder ≡ owner
unfolding taken_claims taken_path
untaken held owner claims claim path holder h at_claim at_path found =
    let none_of =
      any-none (λ c. any (λ p. taken_path held owner c.resource_key p) c.paths) claims h at_claim in
    let free =
      any-none (λ p. taken_path held owner claim.resource_key p) claim.paths none_of at_path in
    let e : not (str_eq holder owner) ≡ false =
      subst (λ o. (elim o [ none ↦ false | some h ↦ not (str_eq h owner) ]) ≡ false) found free in
    str_eq_sound holder owner (ground arith)

-- What is listed is among the first of each, or was seen.
unique_from-mem :
    (seen xs : List JsString) (x : JsString)
    → Memᴰ x xs
    → Memᴰ x (unique_from str_eq seen xs) ⊎ Memᴰ x seen
unfolding unique_from includes
unique_from-mem seen [] x m = elim m [ ]
unique_from-mem seen (y ∷ xs) x m = elim (Bool-cases (any (λ z. str_eq z y) seen)) [
  | inl skipped ↦ rw skipped (elim m [
    | Memᴰ.head e ↦ inr (subst (λ z. Memᴰ z seen) (sym e) (seen_before skipped))
    | Memᴰ.tail n ↦ unique_from-mem seen xs x n
  ])
  | inr first ↦ rw first (elim m [
    | Memᴰ.head e ↦ inl (Memᴰ.head e)
    | Memᴰ.tail n ↦ later (unique_from-mem (y ∷ seen) xs x n)
  ])
]
  where
    seen_before : any (λ z. str_eq z y) seen ≡ true → Memᴰ y seen
    seen_before h = mem_of_includes seen y h

    later :
        Memᴰ x (unique_from str_eq (y ∷ seen) xs) ⊎ Memᴰ x (y ∷ seen)
        → Memᴰ x (y ∷ unique_from str_eq (y ∷ seen) xs) ⊎ Memᴰ x seen
    later (inl q) = inl (Memᴰ.tail q)
    later (inr (Memᴰ.head e)) = inl (Memᴰ.head e)
    later (inr (Memᴰ.tail n)) = inr n

pub owned_keys-mem :
    (ownership : PlanOwnership) (claim : OwnershipClaim)
    → Memᴰ claim ownership.claims
    → Memᴰ claim.resource_key (owned_keys ownership)
unfolding owned_keys unique
owned_keys-mem ownership claim m =
    let keys = map (λ c. c.resource_key) ownership.claims in
    let more = map (λ c. c.resource_key) ownership.conflicts in
    elim (unique_from-mem [] (keys ++ more) claim.resource_key
      (Memᴰ.append_left more (mem-map_of (λ c. c.resource_key) ownership.claims m))) [
        | inl listed ↦ listed
        | inr absent ↦ elim absent [ ]
      ]
