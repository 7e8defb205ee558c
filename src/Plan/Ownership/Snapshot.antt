-- ===== src/Plan/Ownership/Snapshot.antt =====
-- Who holds a field by the claims of a snapshot, read off the claims themselves, and the map of
-- packages/plan-engine/src/ownership.ts that agrees with it.
use mathlib.Core.List.{Memᴰ}
use desired_state_protocol.Common.{
  sym, true, false, inl, inr, ◌⊎◌, Bool-cases, ℕ, Bool, List, [], ◌∷◌, ◌++◌, Option, none, some,
  JsString, StringMap, lookup, insert, includes, str_eq, ◌&&◌, ◌||◌, if◌then◌else◌, lookup-insert,
  All, ◌≡◌, ◌≢◌, refl, ap, ◌∙◌, arith,
}
use desired_state_protocol.Protocol.Plan.{OwnershipClaim}
use desired_state_protocol.Plan.Ownership.{held_key, hold_paths, hold_all}

-- A claim names the resource and has the path among its paths
abbrev pub has_field : OwnershipClaim → JsString → JsString → Bool
has_field claim key path = str_eq claim.resource_key key && includes claim.paths path

-- The owner of the last claim that covers a field, or the one that held it before
unfoldable pub holder_from :
    Option JsString → List OwnershipClaim → JsString → JsString → Option JsString
holder_from before [] key path = before
holder_from before (claim ∷ claims) key path =
    holder_from (if has_field claim key path then some claim.owner else before) claims key path

-- Who holds a path of a resource by the claims
abbrev pub last_holder : List OwnershipClaim → JsString → JsString → Option JsString
last_holder claims key path = holder_from none claims key path

-- When a claim covers a field, or its owner held it before, and all that cover it are his, he holds it.
pub holder_from-agreed :
    (before : Option JsString) (claims : List OwnershipClaim) (key path held : JsString)
    → All (λ c. has_field c key path ≡ true → c.owner ≡ held) claims
    → (before ≡ some held) ⊎ ((c : OwnershipClaim) × Memᴰ c claims × (has_field c key path ≡ true))
    → holder_from before claims key path ≡ some held
unfolding holder_from
holder_from-agreed before [] key path held agree (inl h) = h
holder_from-agreed before [] key path held agree (inr (c, m, _)) = elim m [ ]
holder_from-agreed before (c ∷ claims) key path held (own, agree) h =
    holder_from-agreed (if has_field c key path then some c.owner else before) claims key path held
      agree (now (Bool-cases (has_field c key path)) h)
  where
    now :
        (has_field c key path ≡ true) ⊎ (has_field c key path ≡ false)
        → (before ≡ some held)
          ⊎ ((d : OwnershipClaim) × Memᴰ d (c ∷ claims) × (has_field d key path ≡ true))
        → ((if has_field c key path then some c.owner else before) ≡ some held)
          ⊎ ((d : OwnershipClaim) × Memᴰ d claims × (has_field d key path ≡ true))
    now (inl covered) h = inl (rw covered (ap some (own covered)))
    now (inr other) (inl old) = inl (rw other old)
    now (inr other) (inr (d, Memᴰ.head e, at_d)) =
        let clash : has_field c key path ≡ true = ap (λ x. has_field x key path) (sym e) ∙ at_d in
        absurd (cc)
    now (inr other) (inr (d, Memᴰ.tail m, at_d)) = inr (d, m, at_d)

-- A key has no unit that separates it from a path
unfoldable pub IsFreeOf : ℕ → JsString → Type 0
IsFreeOf separator key = All (λ unit. unit ≢ separator) key

-- A resource key and a path in one key
abbrev pub joined : ℕ → JsString → JsString → JsString
joined separator key path = key ++ separator ∷ path

-- The joined key is that of one resource and one path.
pub str_eq-joined :
    (separator : ℕ) (j k p q : JsString)
    → IsFreeOf separator j
    → IsFreeOf separator k
    → str_eq (joined separator j p) (joined separator k q) ≡ (str_eq j k && str_eq p q)
unfolding str_eq IsFreeOf
str_eq-joined separator [] [] p q free_j free_k = ground arith
str_eq-joined separator [] (b ∷ k) p q free_j free_k = let differs = free_k.0 in ground arith
str_eq-joined separator (a ∷ j) [] p q free_j free_k = let differs = free_j.0 in ground arith
str_eq-joined separator (a ∷ j) (b ∷ k) p q free_j free_k =
    let rest = str_eq-joined separator j k p q free_j.1 free_k.1 in ground arith

-- A write of one path, and of the paths behind it
pub write_path :
    (same here later : Bool) (owner : JsString) (before : Option JsString)
    → (if (same && later) then some owner else if (same && here) then some owner else before)
      ≡ (if (same && (here || later)) then some owner else before)
write_path same here later owner before = ground arith

lookup-hold_paths :
    (key path resource_key owner : JsString) (paths : List JsString) (held : StringMap JsString)
    → IsFreeOf 0 key
    → IsFreeOf 0 resource_key
    → lookup (held_key key path) (hold_paths resource_key owner paths held) ≡ (
        if (str_eq resource_key key && includes paths path)
        then some owner
        else lookup (held_key key path) held)
unfolding hold_paths held_key includes
lookup-hold_paths key path resource_key owner [] held free_k free_r = ground arith
lookup-hold_paths key path resource_key owner (p ∷ paths) held free_k free_r =
    let later =
      lookup-hold_paths key path resource_key owner paths
        (insert (held_key resource_key p) owner held) free_k free_r in
    let here = lookup-insert (held_key resource_key p) (held_key key path) owner held in
    let same = str_eq-joined 0 resource_key key p path free_r free_k in ground arith

-- The map of a snapshot holds, behind what it held before, the last claim of each field.
pub lookup-hold_all :
    (key path : JsString) (claims : List OwnershipClaim) (held : StringMap JsString)
    → IsFreeOf 0 key
    → All (λ c. IsFreeOf 0 c.resource_key) claims
    → lookup (held_key key path) (hold_all claims held)
      ≡ holder_from (lookup (held_key key path) held) claims key path
unfolding hold_all holder_from
lookup-hold_all key path [] held free_k free = refl
lookup-hold_all key path (claim ∷ claims) held free_k (free_c, free) =
    lookup-hold_all key path claims (hold_paths claim.resource_key claim.owner claim.paths held)
      free_k free
    ∙ ap (λ before. holder_from before claims key path)
        (lookup-hold_paths key path claim.resource_key claim.owner claim.paths held free_k free_c)
