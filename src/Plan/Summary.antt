-- ===== src/Plan/Summary.antt =====
-- packages/plan-engine/src/build-plan.ts: the order, the blocking and the counts of changes.
use desired_state_protocol.Common.{
  ℕ, List, [], ◌∷◌, ◌++◌, map, filter, length, compare, Ordering, Option, none, some, JsString, js,
  compare_units, StringMap, lookup, from_entries, if◌then◌else◌,
}
use desired_state_protocol.Protocol.Plan.{
  ChangeAction, create, update, delete, replace, noop, blocked, action_eq, PlanChange, PlanSummary,
  PlanOwnership, ResourceConflict, FieldConflict,
}
use desired_state_protocol.Plan.Risk.{PlanRisk}
use desired_state_protocol.Plan.Normalize.{compare_strings}
use desired_state_protocol.Plan.Diff.{joined}

unfoldable pub action_rank : ChangeAction → ℕ
action_rank create = 0
action_rank update = 1
action_rank replace = 2
action_rank delete = 3
action_rank noop = 4
action_rank blocked = 5

-- The first comparison that tells two apart
unfoldable pub first_of : Ordering → Ordering → Ordering
first_of Ordering.eq next = next
first_of Ordering.lt _ = Ordering.lt
first_of Ordering.gt _ = Ordering.gt

unfoldable pub compare_changes : PlanChange → PlanChange → Ordering
unfolding action_rank first_of compare_units
compare_changes a b = first_of (compare (action_rank a.action) (action_rank b.action)) (
    first_of (compare_strings a.resource_type b.resource_type)
      (compare_strings a.resource_key b.resource_key))

unfoldable pub described : List FieldConflict → JsString
unfolding joined
described conflicts = joined (map (λ c. c.path ++ js " (owned by " ++ c.owner ++ js ")") conflicts)

-- A change whose resource is in conflict, unless it sets nothing
unfoldable pub block_change : PlanChange → Option (List FieldConflict) → PlanChange
unfolding described action_eq
block_change change none = change
block_change change (some []) = change
block_change change (some (conflict ∷ conflicts)) =
    let kept = action_eq change.action noop in
    let already = action_eq change.action blocked in
    if kept then change else if already then change else record change {
      action = blocked;
      blocked_by = some (js "FIELD_OWNERSHIP_CONFLICT");
      reason =
          change.reason
          ++ js "; blocked because another document owns "
          ++ described (conflict ∷ conflicts);
    }

unfoldable pub conflicts_by_key : List ResourceConflict → StringMap (List FieldConflict)
unfolding from_entries
conflicts_by_key conflicts = from_entries (map (λ c. (c.resource_key, c.conflicts)) conflicts) []

unfoldable pub block_conflicted : List PlanChange → Option PlanOwnership → List PlanChange
unfolding block_change conflicts_by_key lookup
block_conflicted changes none = changes
block_conflicted changes (some ownership) =
    let by_key = conflicts_by_key ownership.conflicts in
    map (λ change. block_change change (lookup change.resource_key by_key)) changes

unfoldable pub count_of : ChangeAction → List PlanChange → ℕ
unfolding action_eq
count_of action changes = length (filter (λ c. action_eq c.action action) changes)

unfoldable pub summarize : List PlanChange → PlanRisk → PlanSummary
unfolding count_of
summarize changes risk = record {
  create = count_of create changes;
  update = count_of update changes;
  delete = count_of delete changes;
  replace = count_of replace changes;
  noop = count_of noop changes;
  blocked = count_of blocked changes;
  risk = risk.level;
  risk_score = risk.score;
}
