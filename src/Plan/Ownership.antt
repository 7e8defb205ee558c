-- ===== src/Plan/Ownership.antt =====
-- packages/plan-engine/src/ownership.ts: what a document claims, releases and collides with. A
-- projection is given by its resources.
pub mod Classified
pub mod Members
pub mod Resolved
pub mod Snapshot
mod Examples
use desired_state_protocol.Common.{
  Bool, true, false, List, [], ◌∷◌, ◌++◌, map, filter, Option, none, some, JsString, js, StringMap,
  lookup, insert, get_or, str_eq, includes, not, ◌&&◌, sort_by, if◌then◌else◌, Ordering,
}
use desired_state_protocol.Protocol.Value.{object}
use desired_state_protocol.Protocol.Plan.{
  OwnershipClaim, FieldConflict, ResourceConflict, PlanOwnership,
}
use desired_state_protocol.Protocol.Paths.{flatten_value}
use desired_state_protocol.Plan.Normalize.{NormalizedResource, compare_strings}

pub record ResolveOwnershipInput : Type 0 where
  pub owner : JsString
  pub scope : JsString
  pub desired : List NormalizedResource
  pub snapshot : List OwnershipClaim

-- The key of a resource and a path, with U+0000 between them
unfoldable pub held_key : JsString → JsString → JsString
held_key resource_key path = resource_key ++ 0 ∷ path

unfoldable pub hold_paths :
    JsString → JsString → List JsString → StringMap JsString → StringMap JsString
unfolding held_key
hold_paths resource_key owner [] held = held
hold_paths resource_key owner (path ∷ paths) held =
    hold_paths resource_key owner paths (insert (held_key resource_key path) owner held)

-- Who holds which field, by the claims of a snapshot
unfoldable pub hold_all : List OwnershipClaim → StringMap JsString → StringMap JsString
unfolding hold_paths
hold_all [] held = held
hold_all (claim ∷ claims) held =
    hold_all claims (hold_paths claim.resource_key claim.owner claim.paths held)

-- `[...flattenValue(attributes).keys()].sort(compareStrings)`
unfoldable pub leaf_paths : NormalizedResource → List JsString
unfolding flatten_value sort_by
leaf_paths resource =
    sort_by compare_strings (map (λ e. e.0) (flatten_value (object resource.attributes)))

-- The paths of one resource that nobody holds, and those that another owner holds
pub record Found : Type 0 where
  pub taken : List JsString
  pub clashing : List FieldConflict

-- A path by its holder, in front of what is found of the paths behind it
unfoldable pub place_path : JsString → JsString → Option JsString → Found → Found
place_path owner path none found = record { taken = path ∷ found.taken; clashing = found.clashing }
place_path owner path (some existing) found = if str_eq existing owner then found else record {
  taken = found.taken;
  clashing = record { path = path; owner = existing } ∷ found.clashing;
}

unfoldable pub classify : StringMap JsString → JsString → JsString → List JsString → Found
unfolding place_path held_key
classify held owner resource_key [] = record { taken = []; clashing = [] }
classify held owner resource_key (path ∷ paths) =
    place_path owner path (lookup (held_key resource_key path) held)
      (classify held owner resource_key paths)

unfoldable pub add_claim :
    JsString → JsString → JsString → List JsString → List OwnershipClaim → List OwnershipClaim
add_claim scope resource_key owner [] claims = claims
add_claim scope resource_key owner (path ∷ paths) claims =
    record { scope = scope; resource_key = resource_key; paths = path ∷ paths; owner = owner }
    ∷ claims

unfoldable pub add_conflict :
    JsString → JsString → List FieldConflict → List ResourceConflict → List ResourceConflict
add_conflict scope resource_key [] conflicts = conflicts
add_conflict scope resource_key (clash ∷ clashes) conflicts =
    record { scope = scope; resource_key = resource_key; conflicts = clash ∷ clashes } ∷ conflicts

module _ (held : StringMap JsString) (owner scope : JsString) where
  unfoldable pub found_of : NormalizedResource → Found
  unfolding classify leaf_paths
  found_of resource = classify held owner resource.key (leaf_paths resource)

  unfoldable pub claims_of : List NormalizedResource → List OwnershipClaim
  unfolding found_of add_claim
  claims_of [] = []
  claims_of (resource ∷ resources) =
      add_claim scope resource.key owner (found_of resource).taken (claims_of resources)

  unfoldable pub conflicts_of : List NormalizedResource → List ResourceConflict
  unfolding found_of add_conflict
  conflicts_of [] = []
  conflicts_of (resource ∷ resources) =
      add_conflict scope resource.key (found_of resource).clashing (conflicts_of resources)

-- The declared paths by resource key
unfoldable pub declare_all :
    List NormalizedResource → StringMap (List JsString) → StringMap (List JsString)
unfolding leaf_paths insert
declare_all [] declared = declared
declare_all (resource ∷ resources) declared =
    declare_all resources (insert resource.key (leaf_paths resource) declared)

unfoldable pub release_paths :
    StringMap (List JsString)
    → JsString
    → List JsString
    → StringMap (List JsString)
    → StringMap (List JsString)
unfolding lookup insert includes
release_paths declared key [] released = released
release_paths declared key (path ∷ paths) released =
    let bucket = get_or (lookup key released) [] in
    let still_declared = includes (get_or (lookup key declared) []) path in
    release_paths declared key paths
      (if still_declared then released else insert key (bucket ++ path ∷ []) released)

unfoldable pub release_all :
    ResolveOwnershipInput
    → StringMap (List JsString)
    → List OwnershipClaim
    → StringMap (List JsString)
    → StringMap (List JsString)
unfolding release_paths
release_all input declared [] released = released
release_all input declared (claim ∷ claims) released =
    let own = str_eq claim.owner input.owner && str_eq claim.scope input.scope in
    let more = release_paths declared claim.resource_key claim.paths released in
    release_all input declared claims (if own then more else released)

unfoldable pub release_claim : ResolveOwnershipInput → JsString × List JsString → OwnershipClaim
release_claim input e = record {
  scope = input.scope;
  resource_key = e.0;
  paths = sort_by compare_strings e.1;
  owner = input.owner;
}

abbrev pub claim_order : OwnershipClaim → OwnershipClaim → Ordering
claim_order a b = compare_strings a.resource_key b.resource_key

abbrev pub conflict_order : ResourceConflict → ResourceConflict → Ordering
conflict_order a b = compare_strings a.resource_key b.resource_key

unfoldable pub resolve_ownership : ResolveOwnershipInput → PlanOwnership
unfolding hold_all declare_all release_all release_claim claims_of conflicts_of sort_by
resolve_ownership input =
    let held = hold_all input.snapshot [] in
    let declared = declare_all input.desired [] in
    let released = release_all input declared input.snapshot [] in
    record {
      owner = input.owner;
      claims = sort_by claim_order (claims_of held input.owner input.scope input.desired);
      releases = sort_by claim_order (map (release_claim input) released);
      conflicts = sort_by conflict_order (conflicts_of held input.owner input.scope input.desired);
    }

-- `conflictedResourceKeys`: a set is the list of its elements, which may repeat.
unfoldable pub conflicted_resource_keys : Option PlanOwnership → List JsString
conflicted_resource_keys none = []
conflicted_resource_keys (some ownership) = map (λ c. c.resource_key) ownership.conflicts

unfoldable kept : List JsString → List NormalizedResource → List NormalizedResource
unfolding includes
kept skip resources = filter (λ resource. not (includes skip resource.key)) resources

unfoldable whole_claims : JsString → JsString → List NormalizedResource → List OwnershipClaim
unfolding leaf_paths add_claim
whole_claims owner scope [] = []
whole_claims owner scope (resource ∷ resources) =
    add_claim scope resource.key owner (leaf_paths resource) (whole_claims owner scope resources)

-- `claimsToRecord`: all that is declared, except on the resources to skip
unfoldable pub claims_to_record :
    (owner scope : JsString) → List NormalizedResource → List JsString → List OwnershipClaim
unfolding kept whole_claims sort_by
claims_to_record owner scope desired skip =
    sort_by claim_order (whole_claims owner scope (kept skip desired))
