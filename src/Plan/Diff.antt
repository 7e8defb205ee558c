-- ===== src/Plan/Diff.antt =====
-- packages/plan-engine/src/diff.ts: the changes between two normalized projections, each given by
-- its resources, and their leaf-level differences.
pub mod Leaves
use desired_state_protocol.Common.{
  ℕ, Bool, true, false, not, ◌&&◌, ◌||◌, List, [], ◌∷◌, ◌++◌, map, filter, any, filter_map,
  cons_present, length, ltb, Option, none, some, JsString, js, str_eq, starts_with, includes,
  StringMap, lookup, from_entries, has_key, get_or, sort_by, unique, decimal, Ordering,
  if◌then◌else◌, is_some,
}
use desired_state_protocol.Protocol.Errors.{Result, return, throw, dsp, dsp_error, too_many_changes}
use desired_state_protocol.Protocol.Results.{◌>>=◌, ◌>>◌, throw_if, map_all}
use desired_state_protocol.Protocol.Risk.{low}
use desired_state_protocol.Protocol.Value.{Value, object, Entries, or_null}
use desired_state_protocol.Protocol.Plan.{
  ChangeAction, create, update, delete, replace, noop, blocked, action_eq, FieldDiff, PlanChange,
  ResourceTypeDefinition,
}
use desired_state_protocol.Protocol.Paths.{flatten_value, path_matches_any}
use desired_state_protocol.Protocol.Canonical.{canonical_equals}
use desired_state_protocol.Protocol.Hashes.{change_id}
use desired_state_protocol.Plan.Normalize.{NormalizedResource, compare_strings}

pub record DiffOptions : Type 0 where
  pub allow_delete : Bool
  pub allow_replace : Bool

abbrev pub default_diff_options : DiffOptions
default_diff_options = record { allow_delete = false; allow_replace = false }

pub record DiffInput : Type 0 where
  pub desired : List NormalizedResource
  pub current : List NormalizedResource
  pub resource_types : StringMap ResourceTypeDefinition
  pub options : DiffOptions

pub record DraftChange : Type 0 where
  pub intent : ChangeAction
  pub resource : NormalizedResource
  pub before : Option Value
  pub after : Option Value
  pub fields : List FieldDiff
  pub reason : JsString

-- `byKey` of a normalized projection
unfoldable pub by_key_map : List NormalizedResource → StringMap NormalizedResource
unfolding from_entries
by_key_map resources = from_entries (map (λ r. (r.key, r)) resources) []

unfoldable pub definition_for :
    StringMap ResourceTypeDefinition → NormalizedResource → Option ResourceTypeDefinition
unfolding lookup
definition_for resource_types resource = lookup resource.resource_type resource_types

unfoldable pub is_ancestor_path : JsString → JsString → Bool
unfolding str_eq starts_with
is_ancestor_path [] path = not (str_eq [] path)
is_ancestor_path (c ∷ candidate) path =
    not (str_eq (c ∷ candidate) path)
    && (starts_with path ((c ∷ candidate) ++ js ".")
        || starts_with path ((c ∷ candidate) ++ js "["))

-- The entries of an expanded container, without the container's own
unfoldable pub without_ancestors : List FieldDiff → List FieldDiff
unfolding is_ancestor_path
without_ancestors diffs =
    filter (λ diff. not (any (λ other. is_ancestor_path diff.path other.path) diffs)) diffs

unfoldable pub keep_some : {A : Type 0} → List (Option A) → List A
keep_some [] = []
keep_some (x ∷ xs) = cons_present x (keep_some xs)

unfoldable pub immutable_fields_of : Option ResourceTypeDefinition → List JsString
immutable_fields_of none = []
immutable_fields_of (some definition) = definition.immutable_fields

unfoldable pub intent_text : ChangeAction → JsString
intent_text create = js "create"
intent_text update = js "update"
intent_text delete = js "delete"
intent_text replace = js "replace"
intent_text noop = js "noop"
intent_text blocked = js "blocked"

unfoldable pub joined : List JsString → JsString
joined [] = []
joined (p ∷ []) = p
joined (p ∷ q ∷ qs) = p ++ js ", " ++ joined (q ∷ qs)

abbrev pub named : NormalizedResource → JsString
named resource = resource.resource_type ++ js " \"" ++ resource.key ++ js "\""

module _ (number_text : ℕ → JsString) where
  unfoldable pub diff_unless :
      JsString → Value → Value → Bool → Result Bool → Result (Option FieldDiff)
  diff_unless path before after immutable (throw e) = throw e
  diff_unless path before after immutable (return true) = return none
  diff_unless path before after immutable (return false) =
      return (some (record { path = path; before = before; after = after; immutable = immutable }))

  unfoldable pub field_diff :
      StringMap Value → StringMap Value → List JsString → JsString → Result (Option FieldDiff)
  unfolding diff_unless lookup canonical_equals path_matches_any
  field_diff before after immutable_fields path =
      let old = or_null (lookup path before) in
      let new = or_null (lookup path after) in
      let both_present = has_key path before && has_key path after in
      diff_unless path old new (both_present && path_matches_any path immutable_fields)
        (canonical_equals number_text old new)

  unfoldable pub changed_paths : StringMap Value → StringMap Value → List JsString
  unfolding unique sort_by
  changed_paths before after =
      sort_by compare_strings (unique str_eq (map (λ e. e.0) before ++ map (λ e. e.0) after))

  unfoldable pub field_diffs :
      Entries → Entries → Option ResourceTypeDefinition → Result (List FieldDiff)
  unfolding flatten_value field_diff changed_paths without_ancestors keep_some immutable_fields_of
      map_all
  field_diffs before after definition = do
    let old = flatten_value (object before)
    let new = flatten_value (object after)
    diffs ← map_all (field_diff old new (immutable_fields_of definition)) (changed_paths old new)
    return (without_ancestors (keep_some diffs))
