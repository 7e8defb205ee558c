-- ===== src/Plan/Ownership/Members.antt =====
-- packages/plan-engine/src/ownership.ts: the claims and conflicts over a list of resources.
use mathlib.Core.List.{Memᴰ}
use desired_state_protocol.Common.{List, [], ◌∷◌, JsString, StringMap, ◌≡◌, ◌⊎◌, inl, inr, refl, ap}
use desired_state_protocol.Protocol.Plan.{OwnershipClaim, FieldConflict, ResourceConflict}
use desired_state_protocol.Plan.Normalize.{NormalizedResource}
use desired_state_protocol.Plan.Ownership.{
  add_claim, add_conflict, found_of, claims_of, conflicts_of,
}

mem-add_claim :
    (scope key owner : JsString) (taken : List JsString) (claims : List OwnershipClaim)
    {c : OwnershipClaim}
    → Memᴰ c (add_claim scope key owner taken claims)
    → ((c.owner ≡ owner) × (c.resource_key ≡ key) × (c.paths ≡ taken)) ⊎ Memᴰ c claims
unfolding add_claim
mem-add_claim scope key owner [] claims m = inr m
mem-add_claim scope key owner (p ∷ ps) claims (Memᴰ.head e) =
    inl (ap (λ c. c.owner) e, ap (λ c. c.resource_key) e, ap (λ c. c.paths) e)
mem-add_claim scope key owner (p ∷ ps) claims (Memᴰ.tail m) = inr m

mem-add_conflict :
    (scope key : JsString) (clashes : List FieldConflict) (conflicts : List ResourceConflict)
    {c : ResourceConflict}
    → Memᴰ c (add_conflict scope key clashes conflicts)
    → ((c.resource_key ≡ key) × (c.conflicts ≡ clashes)) ⊎ Memᴰ c conflicts
unfolding add_conflict
mem-add_conflict scope key [] conflicts m = inr m
mem-add_conflict scope key (p ∷ ps) conflicts (Memᴰ.head e) =
    inl (ap (λ c. c.resource_key) e, ap (λ c. c.conflicts) e)
mem-add_conflict scope key (p ∷ ps) conflicts (Memᴰ.tail m) = inr m

add_claim-mem :
    (scope key owner : JsString) (taken : List JsString) (claims : List OwnershipClaim)
    {c : OwnershipClaim}
    → Memᴰ c claims
    → Memᴰ c (add_claim scope key owner taken claims)
unfolding add_claim
add_claim-mem scope key owner [] claims m = m
add_claim-mem scope key owner (p ∷ ps) claims m = Memᴰ.tail m

add_conflict-mem :
    (scope key : JsString) (clashes : List FieldConflict) (conflicts : List ResourceConflict)
    {c : ResourceConflict}
    → Memᴰ c conflicts
    → Memᴰ c (add_conflict scope key clashes conflicts)
unfolding add_conflict
add_conflict-mem scope key [] conflicts m = m
add_conflict-mem scope key (p ∷ ps) conflicts m = Memᴰ.tail m

-- A claim of a path, and a conflict over one, of a resource
abbrev pub Claims : NormalizedResource → JsString → List OwnershipClaim → Type 0
Claims resource path claims =
    (c : OwnershipClaim) × Memᴰ c claims × (c.resource_key ≡ resource.key) × Memᴰ path c.paths

abbrev pub Conflicts : NormalizedResource → FieldConflict → List ResourceConflict → Type 0
Conflicts resource field conflicts =
    (c : ResourceConflict) × Memᴰ c conflicts
    × (c.resource_key ≡ resource.key)
    × Memᴰ field c.conflicts

add_claim-own :
    (scope owner : JsString) (resource : NormalizedResource) (taken : List JsString)
    (claims : List OwnershipClaim) {path : JsString}
    → Memᴰ path taken
    → Claims resource path (add_claim scope resource.key owner taken claims)
unfolding add_claim
add_claim-own scope owner resource [] claims m = elim m [ ]
add_claim-own scope owner resource (p ∷ ps) claims m = (_, Memᴰ.head refl, refl, m)

add_conflict-own :
    (scope : JsString) (resource : NormalizedResource) (clashes : List FieldConflict)
    (conflicts : List ResourceConflict) {field : FieldConflict}
    → Memᴰ field clashes
    → Conflicts resource field (add_conflict scope resource.key clashes conflicts)
unfolding add_conflict
add_conflict-own scope resource [] conflicts m = elim m [ ]
add_conflict-own scope resource (p ∷ ps) conflicts m = (_, Memᴰ.head refl, refl, m)

module _ (held : StringMap JsString) (owner scope : JsString) where
  pub mem-claims_of :
      (resources : List NormalizedResource) {c : OwnershipClaim}
      → Memᴰ c (claims_of held owner scope resources)
      → (c.owner ≡ owner)
        × ((r : NormalizedResource) × Memᴰ r resources
            × (c.resource_key ≡ r.key)
            × (c.paths ≡ (found_of held owner scope r).taken))
  unfolding claims_of
  mem-claims_of [] m = elim m [ ]
  mem-claims_of (r ∷ rs) m =
      elim (mem-add_claim scope r.key owner (found_of held owner scope r).taken
        (claims_of held owner scope rs) m) [
          | inl (own, key, paths) ↦ (own, (r, Memᴰ.head refl, key, paths))
          | inr later ↦
              let (own, (s, at_s, key, paths)) = mem-claims_of rs later in
              (own, (s, Memᴰ.tail at_s, key, paths))
        ]

  pub mem-conflicts_of :
      (resources : List NormalizedResource) {c : ResourceConflict}
      → Memᴰ c (conflicts_of held owner scope resources)
      → (r : NormalizedResource) × Memᴰ r resources
        × (c.resource_key ≡ r.key)
        × (c.conflicts ≡ (found_of held owner scope r).clashing)
  unfolding conflicts_of
  mem-conflicts_of [] m = elim m [ ]
  mem-conflicts_of (r ∷ rs) m =
      elim (mem-add_conflict scope r.key (found_of held owner scope r).clashing
        (conflicts_of held owner scope rs) m) [
          | inl (key, fields) ↦ (r, Memᴰ.head refl, key, fields)
          | inr later ↦
              let (s, at_s, key, fields) = mem-conflicts_of rs later in
              (s, Memᴰ.tail at_s, key, fields)
        ]

  pub claims_of-own :
      (resources : List NormalizedResource) {r : NormalizedResource} {path : JsString}
      → Memᴰ r resources
      → Memᴰ path (found_of held owner scope r).taken
      → Claims r path (claims_of held owner scope resources)
  unfolding claims_of
  claims_of-own [] m taken = elim m [ ]
  claims_of-own (s ∷ ss) {r} {path} (Memᴰ.head e) taken = rw e (
      add_claim-own scope owner s (found_of held owner scope s).taken
        (claims_of held owner scope ss) (rw e at taken))
  claims_of-own (s ∷ ss) (Memᴰ.tail m) taken =
      let (c, at_c, key, at_path) = claims_of-own ss m taken in
      (
        c,
        add_claim-mem scope s.key owner (found_of held owner scope s).taken
            (claims_of held owner scope ss) at_c,
        key,
        at_path,
      )

  pub conflicts_of-own :
      (resources : List NormalizedResource) {r : NormalizedResource} {field : FieldConflict}
      → Memᴰ r resources
      → Memᴰ field (found_of held owner scope r).clashing
      → Conflicts r field (conflicts_of held owner scope resources)
  unfolding conflicts_of
  conflicts_of-own [] m clashing = elim m [ ]
  conflicts_of-own (s ∷ ss) {r} {field} (Memᴰ.head e) clashing = rw e (
      add_conflict-own scope s (found_of held owner scope s).clashing
        (conflicts_of held owner scope ss) (rw e at clashing))
  conflicts_of-own (s ∷ ss) (Memᴰ.tail m) clashing =
      let (c, at_c, key, at_field) = conflicts_of-own ss m clashing in
      (
        c,
        add_conflict-mem scope s.key (found_of held owner scope s).clashing
            (conflicts_of held owner scope ss) at_c,
        key,
        at_field,
      )
