-- ===== src/Plan/Normalize.antt =====
-- packages/plan-engine/src/normalize.ts: the resources of a projection in their canonical form.
-- The hash of a desired-state document stands in Plan/Build.
use desired_state_protocol.Common.{
  ℕ, List, [], ◌∷◌, ◌++◌, Option, JsString, js, Ordering, compare_units, sort_by, includes, get_or,
  ◌==◌, ◌^◌, if◌then◌else◌,
}
use desired_state_protocol.Protocol.Errors.{
  Result, return, dsp, dsp_error, validation_failed, Thrown,
}
use desired_state_protocol.Protocol.Results.{◌>>=◌, ◌>>◌, throw_if}
use desired_state_protocol.Protocol.Value.{
  Value, null, number, text, date, array, object, Items, nil, cons, Entries, end, entry,
}
use desired_state_protocol.Protocol.Paths.{is_undefined}
use desired_state_protocol.Protocol.Canonical.{canonicalize, hash_canonical}

pub record ResourceInstance : Type 0 where
  pub resource_type : JsString
  pub key : JsString
  pub attributes : Option Entries
  pub depends_on : Option (List JsString)
  pub external_id : Option JsString

pub record NormalizedResource : Type 0 where
  pub resource_type : JsString
  pub key : JsString
  pub attributes : Entries
  pub depends_on : List JsString
  pub external_id : Option JsString

pub record NormalizedProjection : Type 0 where
  pub resources : List NormalizedResource
  pub hash : JsString

abbrev pub compare_strings : JsString → JsString → Ordering
compare_strings a b = compare_units a b

unfoldable pub insert_entry : JsString → Value → Entries → Entries
insert_entry key v end = entry key v end
insert_entry key v (entry k w entries) =
    let later = entry k w (insert_entry key v entries) in
    elim (compare_units key k) [ Ordering.gt ↦ later | _ ↦ entry key v (entry k w entries) ]

-- What `JSON.parse` reads from the canonical text of a value that has one: sorted keys, no members
-- that are undefined, and the texts of dates. Integer-like keys, which a JavaScript object lists
-- first, stand in their place among the others.
unfoldable mutual
  unfolding insert_entry is_undefined

  pub reread : Value → Value
  reread (number bits) = number (if bits == 2 ^ 63 then 0 else bits)
  reread (date iso) = text iso
  reread (array items) = array (reread_items items)
  reread (object entries) = object (reread_entries entries)
  reread v = v

  pub reread_items : Items → Items
  reread_items nil = nil
  reread_items (cons v items) =
      let own = reread v in cons (if is_undefined v then null else own) (reread_items items)

  pub reread_entries : Entries → Entries
  reread_entries end = end
  reread_entries (entry key v entries) =
      let others = reread_entries entries in
      let own = insert_entry key (reread v) others in if is_undefined v then others else own

unfoldable pub texts_value : List JsString → Items
texts_value [] = nil
texts_value (t ∷ ts) = cons (text t) (texts_value ts)

unfoldable pub resource_value : NormalizedResource → Value
unfolding texts_value
resource_value resource = object (
    entry (js "resourceType") (text resource.resource_type) (
      entry (js "key") (text resource.key) (
        entry (js "attributes") (object resource.attributes)
          (entry (js "dependsOn") (array (texts_value resource.depends_on)) end))))

unfoldable pub resource_values : List NormalizedResource → Items
unfolding resource_value
resource_values [] = nil
resource_values (resource ∷ resources) = cons (resource_value resource) (resource_values resources)

abbrev duplicate : JsString → Thrown
duplicate key =
    dsp
      (dsp_error validation_failed (js "Duplicate resource key \"" ++ key ++ js "\" in projection"))

abbrev pub resource_order : NormalizedResource → NormalizedResource → Ordering
resource_order a b = compare_strings a.key b.key

module _ (number_text : ℕ → JsString) where
  -- `canonicalValue` of an object
  unfoldable pub canonical_entries : Entries → Result Entries
  unfolding canonicalize reread_entries
  canonical_entries entries = do
    written ← canonicalize number_text (object entries)
    return (reread_entries entries)

  unfoldable pub normalize_resource : ResourceInstance → Result NormalizedResource
  unfolding canonical_entries sort_by
  normalize_resource resource = do
    attributes ← canonical_entries (get_or resource.attributes end)
    return (record {
      resource_type = resource.resource_type;
      key = resource.key;
      attributes = attributes;
      depends_on = sort_by compare_strings (get_or resource.depends_on []);
      external_id = resource.external_id;
    })

  -- The resources behind those of the keys seen
  unfoldable pub normalize_behind :
      List JsString → List ResourceInstance → Result (List NormalizedResource)
  unfolding normalize_resource includes
  normalize_behind seen [] = return []
  normalize_behind seen (resource ∷ resources) = do
    throw_if (includes seen resource.key) (duplicate resource.key)
    normalized ← normalize_resource resource
    rest ← normalize_behind (resource.key ∷ seen) resources
    return (normalized ∷ rest)

  unfoldable pub normalized_resources : List ResourceInstance → Result (List NormalizedResource)
  unfolding normalize_behind sort_by
  normalized_resources resources = do
    normalized ← normalize_behind [] resources
    return (sort_by resource_order normalized)

  unfoldable pub normalize_projection :
      (JsString → JsString) → List ResourceInstance → Result NormalizedProjection
  unfolding normalized_resources hash_canonical resource_values
  normalize_projection sha256_hex resources = do
    normalized ← normalized_resources resources
    hash ← hash_canonical number_text sha256_hex (array (resource_values normalized))
    return (record { resources = normalized; hash = hash })
