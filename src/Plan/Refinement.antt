-- ===== src/Plan/Refinement.antt =====
-- packages/plan-engine/src/build-plan.ts: the check of what a provider makes of the changes.
use desired_state_protocol.Common.{
  ℕ, Bool, true, false, not, ◌&&◌, List, [], ◌∷◌, ◌++◌, length, Option, none, some, JsString, js,
  str_eq, ◌==◌, decimal,
}
use desired_state_protocol.Protocol.Errors.{
  Result, return, throw, Thrown, dsp, dsp_error, provider_error,
}
use desired_state_protocol.Protocol.Results.{◌>>=◌, ◌>>◌, throw_if}
use desired_state_protocol.Protocol.Value.{array, or_null}
use desired_state_protocol.Protocol.Plan.{action_eq, PlanChange}
use desired_state_protocol.Protocol.Canonical.{canonical_equals}
use desired_state_protocol.Plan.Normalize.{texts_value}

-- `a && b`, where the second may throw
abbrev pub and_also : Bool → Result Bool → Result Bool
and_also true test = test
and_also false test = return false

abbrev pub resized : List PlanChange → List PlanChange → Thrown
resized original refined = dsp (
    dsp_error provider_error (
      js "Provider refinement returned "
      ++ decimal (length refined)
      ++ js " changes, expected "
      ++ decimal (length original)))

abbrev pub altered : PlanChange → Thrown
altered change = dsp (
    dsp_error provider_error
      (js "Provider refinement altered protected fields of change " ++ change.id))

module _ (number_text : ℕ → JsString) where
  unfoldable pub same_values : PlanChange → PlanChange → Result Bool
  unfolding canonical_equals texts_value
  same_values change candidate = do
    dependencies ←
        canonical_equals number_text (array (texts_value candidate.dependencies))
          (array (texts_value change.dependencies))
    and_also dependencies (do
      after ← canonical_equals number_text (or_null candidate.after) (or_null change.after)
      and_also after
          (canonical_equals number_text (or_null candidate.before) (or_null change.before)))

  -- What assertRefinement asks of a candidate for a change
  unfoldable pub is_protected : PlanChange → PlanChange → Result Bool
  unfolding same_values action_eq str_eq
  is_protected change candidate =
      and_also
        (str_eq candidate.id change.id
          && action_eq candidate.action change.action
          && str_eq candidate.resource_type change.resource_type
          && str_eq candidate.resource_key change.resource_key)
        (same_values change candidate)

  unfoldable pub refine_each : List PlanChange → List PlanChange → Result (List PlanChange)
  unfolding is_protected
  refine_each [] _ = return []
  refine_each (change ∷ original) [] =
      throw (dsp (dsp_error provider_error (js "Provider refinement dropped change " ++ change.id)))
  refine_each (change ∷ original) (candidate ∷ refined) = do
    kept ← is_protected change candidate
    throw_if (not kept) (altered change)
    rest ← refine_each original refined
    return (candidate ∷ rest)

  unfoldable pub assert_refinement : List PlanChange → List PlanChange → Result (List PlanChange)
  unfolding refine_each
  assert_refinement original refined = do
    throw_if (not (length refined == length original)) (resized original refined)
    refine_each original refined

  unfoldable pub refine_with :
      Option (List PlanChange → Result (List PlanChange))
      → List PlanChange
      → Result (List PlanChange)
  unfolding assert_refinement
  refine_with none changes = return changes
  refine_with (some refine) changes = do refined ← refine changes; assert_refinement changes refined
