-- ===== src/Store/Fields.antt =====
-- packages/core/src/store/sqlite-store.ts: the table of the owners of fields.
use desired_state_protocol.Common.{
  Bool, ◌&&◌, List, [], ◌∷◌, Ordering, JsString, str_eq, StringMap, lookup, insert, get_or, ◌==◌,
  if◌then◌else◌, ◌++◌,
}
use desired_state_protocol.Protocol.Plan.{OwnershipClaim}
use desired_state_protocol.Store.Table.{Table, upsert, delete_where}

-- (scope, resource_key, path)
abbrev pub FieldKey : Type 0
FieldKey = JsString × JsString × JsString

abbrev pub triple_eq : JsString × JsString × JsString → JsString × JsString × JsString → Bool
triple_eq (a, b, c) (x, y, z) = str_eq a x && str_eq b y && str_eq c z

abbrev pub Fields : Type 0
Fields = Table FieldKey JsString

unfoldable pub delete_paths : JsString → JsString → JsString → List JsString → Fields → Fields
unfolding delete_where
delete_paths scope resource_key owner [] fields = fields
delete_paths scope resource_key owner (path ∷ paths) fields =
    delete_paths scope resource_key owner paths
      (delete_where triple_eq (λ held. str_eq held owner) (scope, resource_key, path) fields)

unfoldable pub release_fields : List OwnershipClaim → Fields → Fields
unfolding delete_paths
release_fields [] fields = fields
release_fields (entry ∷ entries) fields =
    release_fields entries
      (delete_paths entry.scope entry.resource_key entry.owner entry.paths fields)

unfoldable pub claim_paths : JsString → JsString → JsString → List JsString → Fields → Fields
unfolding upsert
claim_paths scope resource_key owner [] fields = fields
claim_paths scope resource_key owner (path ∷ paths) fields =
    claim_paths scope resource_key owner paths
      (upsert triple_eq (λ _. owner) (scope, resource_key, path) owner fields)

unfoldable pub claim_fields : List OwnershipClaim → Fields → Fields
unfolding claim_paths
claim_fields [] fields = fields
claim_fields (entry ∷ entries) fields =
    claim_fields entries (claim_paths entry.scope entry.resource_key entry.owner entry.paths fields)

-- `composite.split('\u0000')[0]`
unfoldable pub before_nul : JsString → JsString
before_nul [] = []
before_nul (c ∷ s) = let rest = before_nul s in if c == 0 then [] else c ∷ rest

abbrev pub Bucket : Type 0
Bucket = JsString × List JsString

unfoldable pub bucket_rows : List (FieldKey × JsString) → StringMap Bucket → StringMap Bucket
unfolding lookup insert
bucket_rows [] by_resource = by_resource
bucket_rows (((scope, resource_key, path), owner) ∷ rows) by_resource =
    let composite = resource_key ++ 0 ∷ owner in
    let bucket = get_or (lookup composite by_resource) (owner, []) in
    bucket_rows rows (insert composite (bucket.0, bucket.1 ++ path ∷ []) by_resource)

unfoldable pub claim_of_bucket : JsString → JsString × Bucket → OwnershipClaim
unfolding before_nul
claim_of_bucket scope (composite, (owner, paths)) = record {
  scope = scope;
  resource_key = before_nul composite;
  paths = paths;
  owner = owner;
}

module _ (collate : JsString → JsString → Ordering) where
  unfoldable pub field_order : FieldKey × JsString → FieldKey × JsString → Ordering
  field_order ((_, key, path), _) ((_, key', path'), _) = elim (collate key key') [
    | Ordering.eq ↦ collate path path'
    | other ↦ other
  ]
