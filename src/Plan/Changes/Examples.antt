-- ===== src/Plan/Changes/Examples.antt =====
-- A diff with a creation, an update, a noop and a blocked deletion, and the theorems there. Numbers
-- print as their bits and the digest is the text itself.
use mathlib.Core.List.{Memᴰ, Perm}
use desired_state_protocol.Common.{
  true, false, List, [], ◌∷◌, ◌++◌, map, none, some, String, JsString, js, decimal, compare_units,
  str_eq, lookup, ◌≡◌, refl,
}
use desired_state_protocol.Protocol.Errors.{Result, return}
use desired_state_protocol.Protocol.Risk.{low}
use desired_state_protocol.Protocol.Value.{text, object, Entries, entry, end, or_null}
use desired_state_protocol.Protocol.Plan.{create, update, noop, blocked, PlanChange}
use desired_state_protocol.Protocol.Paths.{flatten_value}
use desired_state_protocol.Protocol.Canonical.{canonical_equals}
use desired_state_protocol.Plan.Normalize.{NormalizedResource}
use desired_state_protocol.Plan.Diff.{DiffInput, default_diff_options, field_diffs}
use desired_state_protocol.Plan.Diff.Leaves.{field_diffs-IsSameAt}
use desired_state_protocol.Plan.Changes.{compute_changes}
use desired_state_protocol.Plan.Changes.Allowed.{IsAllowed, compute_changes-IsAllowed}
use desired_state_protocol.Plan.Changes.Complete.{undesired, compute_changes-keys}

abbrev table : String → String → NormalizedResource
table key owner = record {
  resource_type = js "t";
  key = js key;
  attributes = entry (js "o") (text (js owner)) end;
  depends_on = [];
  external_id = none;
}

abbrev identity : JsString → JsString
identity t = t

abbrev input : DiffInput
input = record {
  desired = table "a" "x" ∷ table "b" "y" ∷ table "c" "z" ∷ [];
  current = table "b" "y" ∷ table "c" "w" ∷ table "d" "v" ∷ [];
  resource_types = [];
  options = default_diff_options;
}

abbrev removal : PlanChange
removal = record {
  id = js "chg_" ++ js "t" ++ 0 ∷ (js "d" ++ 0 ∷ js "delete");
  resource_type = js "t";
  resource_key = js "d";
  action = blocked;
  path = none;
  before = some (object (entry (js "o") (text (js "v")) end));
  after = none;
  fields = [];
  reason = js "Deletions are disabled for this runtime (intended action: delete)";
  reversible = false;
  destructive = true;
  dependencies = [];
  estimated_risk = low;
  blocked_by = some (js "DESTRUCTIVE_ACTION_BLOCKED");
}

abbrev changes_of : Result (List PlanChange) → List PlanChange
changes_of (return changes) = changes
changes_of _ = []

abbrev changes : List PlanChange
changes = changes_of (compute_changes decimal identity input)

actions :
    (map (λ c. c.action) changes ≡ create ∷ noop ∷ update ∷ blocked ∷ [])
    × (compute_changes decimal identity input ≡ return changes)
unfolding compute_changes compare_units str_eq
actions = (refl, refl)

compute_changes-IsAllowed_example : IsAllowed default_diff_options blocked
unfolding compute_changes compare_units str_eq
compute_changes-IsAllowed_example =
    compute_changes-IsAllowed decimal identity input changes removal actions.1
      (Memᴰ.tail (Memᴰ.tail (Memᴰ.tail (Memᴰ.head refl)))) refl

compute_changes-keys_example :
    Perm
      (map (λ c. c.resource_key) changes)
      (map (λ r. r.key) input.desired ++ map (λ r. r.key) (undesired input))
compute_changes-keys_example = compute_changes-keys decimal identity input changes actions.1

abbrev owner : Entries
owner = entry (js "o") (text (js "y")) end

no_differences : field_diffs decimal owner owner none ≡ return []
unfolding field_diffs compare_units str_eq
no_differences = refl

field_diffs-IsSameAt_example :
    canonical_equals decimal
      (or_null (lookup (js "o") (flatten_value (object owner))))
      (or_null (lookup (js "o") (flatten_value (object owner))))
    ≡ return true
field_diffs-IsSameAt_example = field_diffs-IsSameAt decimal owner owner none (js "o") no_differences
