-- ===== src/Plan/Changes.antt =====
pub mod Allowed
pub mod Complete
mod Examples
use desired_state_protocol.Common.{
  ℕ, Bool, true, false, not, ◌&&◌, ◌||◌, List, [], ◌∷◌, ◌++◌, map, filter, any, filter_map,
  cons_present, length, ltb, Option, none, some, JsString, js, str_eq, starts_with, includes,
  StringMap, lookup, from_entries, has_key, get_or, sort_by, unique, decimal, Ordering,
  if◌then◌else◌, is_some,
}
use desired_state_protocol.Protocol.Errors.{Result, return, throw, dsp, dsp_error, too_many_changes}
use desired_state_protocol.Protocol.Results.{◌>>=◌, ◌>>◌, throw_if, map_all}
use desired_state_protocol.Protocol.Risk.{low}
use desired_state_protocol.Protocol.Value.{Value, object, Entries, or_null}
use desired_state_protocol.Protocol.Plan.{
  ChangeAction, create, update, delete, replace, noop, blocked, action_eq, FieldDiff, PlanChange,
  ResourceTypeDefinition,
}
use desired_state_protocol.Protocol.Paths.{flatten_value, path_matches_any}
use desired_state_protocol.Protocol.Canonical.{canonical_equals}
use desired_state_protocol.Protocol.Hashes.{change_id}
use desired_state_protocol.Plan.Normalize.{NormalizedResource, compare_strings}
use desired_state_protocol.Plan.Diff.{
  DiffInput, DiffOptions, DraftChange, by_key_map, definition_for, field_diffs, intent_text, joined,
  named, keep_some,
}

pub record Block : Type 0 where
  pub code : JsString
  pub message : JsString

unfoldable pub unsupported_apply : Option ResourceTypeDefinition → Bool
unsupported_apply none = false
unsupported_apply (some definition) = not definition.capabilities.apply

unfoldable pub unsupported_delete : Option ResourceTypeDefinition → Bool
unsupported_delete none = false
unsupported_delete (some definition) = not definition.capabilities.delete

unfoldable pub delete_block : JsString → Option ResourceTypeDefinition → DiffOptions → Option Block
unfolding unsupported_delete
delete_block resource_type definition options =
    if not options.allow_delete
    then some (record {
      code = js "DESTRUCTIVE_ACTION_BLOCKED";
      message = js "Deletions are disabled for this runtime";
    })
    else if unsupported_delete definition
    then some (record {
      code = js "UNSUPPORTED_OPERATION";
      message = js "Resource type " ++ resource_type ++ js " does not support delete";
    })
    else none

unfoldable pub replace_block : DiffOptions → Option Block
replace_block options =
    if not options.allow_replace
    then some (record {
      code = js "DESTRUCTIVE_ACTION_BLOCKED";
      message = js "Replacing a resource requires deleting it first, which is disabled";
    })
    else none

-- What is left to test once the resource type is known to support `apply`
unfoldable pub intent_block :
    ChangeAction → JsString → Option ResourceTypeDefinition → DiffOptions → Option Block
unfolding delete_block replace_block
intent_block delete resource_type definition options = delete_block resource_type definition options
intent_block replace resource_type definition options = replace_block options
intent_block _ resource_type definition options = none

unfoldable pub block_reason :
    ChangeAction → JsString → Option ResourceTypeDefinition → DiffOptions → Option Block
unfolding intent_block unsupported_apply
block_reason noop resource_type definition options = none
block_reason intent resource_type definition options =
    if unsupported_apply definition
    then some (record {
      code = js "UNSUPPORTED_OPERATION";
      message = js "Resource type " ++ resource_type ++ js " does not support apply";
    })
    else intent_block intent resource_type definition options

unfoldable pub is_reversible : ChangeAction → Bool
is_reversible update = true
is_reversible noop = true
is_reversible _ = false

unfoldable pub is_destructive : ChangeAction → Bool
is_destructive delete = true
is_destructive replace = true
is_destructive _ = false

unfoldable pub is_delete : ChangeAction → Bool
is_delete delete = true
is_delete _ = false

-- The ids of the changes of the keys, where there are any
unfoldable pub ids_of : StringMap JsString → List JsString → List JsString
unfolding lookup sort_by keep_some
ids_of ids keys = sort_by compare_strings (keep_some (map (λ key. lookup key ids) keys))

unfoldable pub dependents_deleted : JsString → List DraftChange → List JsString
unfolding is_delete includes
dependents_deleted key drafts =
    map (λ other. other.resource.key)
      (filter (λ other. is_delete other.intent && includes other.resource.depends_on key) drafts)

unfoldable pub dependencies_for :
    DraftChange → StringMap JsString → List DraftChange → List JsString
unfolding ids_of dependents_deleted is_delete
dependencies_for draft ids drafts = ids_of ids (
    if is_delete draft.intent
    then dependents_deleted draft.resource.key drafts
    else draft.resource.depends_on)

unfoldable pub action_of : ChangeAction → Option Block → ChangeAction
action_of intent none = intent
action_of intent (some block) = blocked

unfoldable pub reason_of : DraftChange → Option Block → JsString
unfolding intent_text
reason_of draft none = draft.reason
reason_of draft (some block) =
    block.message ++ js " (intended action: " ++ intent_text draft.intent ++ js ")"

unfoldable pub single_path : List FieldDiff → Option JsString
single_path (field ∷ []) = some field.path
single_path _ = none

unfoldable pub block_code : Option Block → Option JsString
block_code none = none
block_code (some block) = some block.code

abbrev pub change_order : PlanChange → PlanChange → Ordering
change_order a b = compare_strings a.resource_key b.resource_key

module _ (sha256_hex : JsString → JsString) where
  unfoldable pub draft_id : DraftChange → JsString
  unfolding change_id intent_text
  draft_id draft =
      change_id sha256_hex draft.resource.resource_type draft.resource.key
        (intent_text draft.intent)

  unfoldable pub to_plan_change :
      DiffInput → StringMap JsString → List DraftChange → DraftChange → PlanChange
  unfolding draft_id block_reason action_of reason_of is_reversible is_destructive dependencies_for
      single_path block_code definition_for
  to_plan_change input ids drafts draft =
      let definition = definition_for input.resource_types draft.resource in
      let block = block_reason draft.intent draft.resource.resource_type definition input.options in
      record {
        id = draft_id draft;
        resource_type = draft.resource.resource_type;
        resource_key = draft.resource.key;
        action = action_of draft.intent block;
        path = single_path draft.fields;
        before = draft.before;
        after = draft.after;
        fields = draft.fields;
        reason = reason_of draft block;
        reversible = is_reversible draft.intent;
        destructive = is_destructive draft.intent;
        dependencies = dependencies_for draft ids drafts;
        estimated_risk = low;
        blocked_by = block_code block;
      }

  unfoldable pub to_changes : DiffInput → List DraftChange → List PlanChange
  unfolding to_plan_change draft_id from_entries sort_by
  to_changes input drafts =
      let ids = from_entries (map (λ d. (d.resource.key, draft_id d)) drafts) [] in
      sort_by change_order (map (to_plan_change input ids drafts) drafts)

unfoldable pub create_draft : NormalizedResource → DraftChange
create_draft desired = record {
  intent = create;
  resource = desired;
  before = none;
  after = some (object desired.attributes);
  fields = [];
  reason = named desired ++ js " does not exist yet";
}

unfoldable pub delete_draft : NormalizedResource → DraftChange
delete_draft current = record {
  intent = delete;
  resource = current;
  before = some (object current.attributes);
  after = none;
  fields = [];
  reason = named current ++ js " is no longer described by the desired state";
}

-- The draft of a resource that exists, by its differences and those of them that are immutable
unfoldable pub present_draft :
    NormalizedResource → NormalizedResource → List FieldDiff → List FieldDiff → DraftChange
unfolding joined
present_draft desired current [] _ = record {
  intent = noop;
  resource = desired;
  before = some (object current.attributes);
  after = some (object desired.attributes);
  fields = [];
  reason = named desired ++ js " already matches the desired state";
}
present_draft desired current (field ∷ fields) [] = record {
  intent = update;
  resource = record desired { external_id = current.external_id };
  before = some (object current.attributes);
  after = some (object desired.attributes);
  fields = field ∷ fields;
  reason = js "field(s) changed: " ++ joined (map (λ f. f.path) (field ∷ fields));
}
present_draft desired current (field ∷ fields) (first ∷ immutable) = record {
  intent = replace;
  resource = record desired { external_id = current.external_id };
  before = some (object current.attributes);
  after = some (object desired.attributes);
  fields = field ∷ fields;
  reason = js "immutable field(s) changed: " ++ joined (map (λ f. f.path) (first ∷ immutable));
}

unfoldable pub gone : DiffInput → List NormalizedResource
unfolding by_key_map lookup
gone input = filter (λ current. not (has_key current.key (by_key_map input.desired))) input.current

module _ (number_text : ℕ → JsString) where
  unfoldable pub draft_against :
      DiffInput → NormalizedResource → Option NormalizedResource → Result DraftChange
  unfolding create_draft present_draft field_diffs definition_for
  draft_against input desired none = return (create_draft desired)
  draft_against input desired (some current) = do
    fields ←
        field_diffs number_text current.attributes desired.attributes
          (definition_for input.resource_types desired)
    return (present_draft desired current fields (filter (λ f. f.immutable) fields))

  unfoldable pub draft_for : DiffInput → NormalizedResource → Result DraftChange
  unfolding draft_against by_key_map lookup
  draft_for input desired =
      draft_against input desired (lookup desired.key (by_key_map input.current))

  unfoldable pub drafts_of : DiffInput → Result (List DraftChange)
  unfolding draft_for delete_draft gone map_all
  drafts_of input = do
    described ← map_all (draft_for input) input.desired
    return (described ++ map delete_draft (gone input))

  module _ (sha256_hex : JsString → JsString) where
    unfoldable pub compute_changes : DiffInput → Result (List PlanChange)
    unfolding drafts_of to_changes
    compute_changes input = do drafts ← drafts_of input; return (to_changes sha256_hex input drafts)

unfoldable pub assert_change_limit : List PlanChange → ℕ → Result (Unit {0})
assert_change_limit changes max_changes = throw_if (ltb max_changes (length changes)) (
    dsp (
      dsp_error too_many_changes (
        js "Plan contains "
        ++ decimal (length changes)
        ++ js " changes, limit is "
        ++ decimal max_changes)))
