-- ===== src/Plan/Build/Refined.antt =====
-- packages/plan-engine/src/build-plan.ts: what a provider may make of the changes.
use desired_state_protocol.Common.{
  ℕ, JsString, List, [], ◌∷◌, length, ◌==◌, ==_iff, ◌≡◌, refl, sym, ap, ◌∙◌, Bool, true, false, not,
  ◌&&◌, str_eq, str_eq_sound, arith,
}
use desired_state_protocol.Protocol.Errors.{Result, return}
use desired_state_protocol.Protocol.Results.{
  ◌>>=◌, ◌>>◌, throw_if, return_injective, >>=-eq-return, throw_if-eq-return,
}
use desired_state_protocol.Protocol.Value.{array, or_null}
use desired_state_protocol.Protocol.Plan.{ChangeAction, PlanChange, action_eq, action_eq_iff}
use desired_state_protocol.Protocol.Canonical.{canonical_equals}
use desired_state_protocol.Plan.Normalize.{texts_value}
use desired_state_protocol.Plan.Refinement.{
  and_also, same_values, is_protected, altered, resized, refine_each, assert_refinement,
}

-- What a refinement must not touch, apart from the texts that are compared in canonical form
abbrev pub Identity : Type 0
Identity = JsString × ChangeAction × JsString × JsString

abbrev pub identity_of : PlanChange → Identity
identity_of change = (change.id, change.action, change.resource_type, change.resource_key)

module _ (number_text : ℕ → JsString) where
  unfoldable pub HasSameValues : PlanChange → PlanChange → Type 0
  HasSameValues change candidate =
      (canonical_equals number_text (array (texts_value candidate.dependencies))
          (array (texts_value change.dependencies))
        ≡ return true)
      × (canonical_equals number_text (or_null candidate.after) (or_null change.after)
          ≡ return true)
      × (canonical_equals number_text (or_null candidate.before) (or_null change.before)
          ≡ return true)

  -- A candidate that differs from a change in advice only
  unfoldable pub IsAdvice : PlanChange → PlanChange → Type 0
  unfolding HasSameValues
  IsAdvice change candidate =
      (identity_of candidate ≡ identity_of change) × HasSameValues change candidate

  unfoldable pub AllAdvice : List PlanChange → List PlanChange → Type 0
  unfolding IsAdvice
  AllAdvice [] [] = Unit
  AllAdvice (change ∷ original) (candidate ∷ refined) =
      IsAdvice change candidate × AllAdvice original refined
  AllAdvice _ _ = ⊥

  not-false : (b : Bool) → not b ≡ false → b ≡ true
  not-false b h = ground arith

  and_also-true :
      (a : Bool) (r : Result Bool) → and_also a r ≡ return true → (a ≡ true) × (r ≡ return true)
  and_also-true true r e = (refl, e)
  and_also-true false r e = cc

  same_identity :
      (change candidate : PlanChange)
      → (str_eq candidate.id change.id
          && action_eq candidate.action change.action
          && str_eq candidate.resource_type change.resource_type
          && str_eq candidate.resource_key change.resource_key)
        ≡ true
      → identity_of candidate ≡ identity_of change
  same_identity change candidate h = ground (
    arith,
    str_eq_sound candidate.id change.id,
    action_eq_iff candidate.action change.action,
    str_eq_sound candidate.resource_type change.resource_type,
    str_eq_sound candidate.resource_key change.resource_key,
  )

  same_values-true :
      (change candidate : PlanChange)
      → same_values number_text change candidate ≡ return true
      → HasSameValues change candidate
  unfolding same_values HasSameValues
  same_values-true change candidate e =
      let same_after =
        canonical_equals number_text (or_null candidate.after) (or_null change.after) in
      let same_before =
        canonical_equals number_text (or_null candidate.before) (or_null change.before) in
      let (d, at_d, e1) =
        >>=-eq-return
          (canonical_equals number_text (array (texts_value candidate.dependencies))
            (array (texts_value change.dependencies)))
          (λ d. and_also d (same_after >>= λ a. and_also a same_before)) e in
      let (d_true, e2) = and_also-true d (same_after >>= λ a. and_also a same_before) e1 in
      let (a, at_a, e3) = >>=-eq-return same_after (λ a. and_also a same_before) e2 in
      let (a_true, e4) = and_also-true a same_before e3 in
      (at_d ∙ ap return d_true, at_a ∙ ap return a_true, e4)

  is_protected-IsAdvice :
      (change candidate : PlanChange)
      → is_protected number_text change candidate ≡ return true
      → IsAdvice change candidate
  unfolding is_protected IsAdvice
  is_protected-IsAdvice change candidate e =
      let (same, values) =
        and_also-true
          (str_eq candidate.id change.id
            && action_eq candidate.action change.action
            && str_eq candidate.resource_type change.resource_type
            && str_eq candidate.resource_key change.resource_key)
          (same_values number_text change candidate) e in
      (same_identity change candidate same, same_values-true change candidate values)

  refine_each-AllAdvice :
      (original refined changes : List PlanChange)
      → length refined ≡ length original
      → refine_each number_text original refined ≡ return changes
      → (changes ≡ refined) × AllAdvice original refined
  unfolding refine_each AllAdvice
  refine_each-AllAdvice [] [] changes sized e = (sym (return_injective e), tt)
  refine_each-AllAdvice [] (candidate ∷ refined) changes sized e = ground arith
  refine_each-AllAdvice (change ∷ original) [] changes sized e = ground arith
  refine_each-AllAdvice (change ∷ original) (candidate ∷ refined) changes sized e =
      let again : Bool → Result (List PlanChange) = λ kept.
        throw_if (not kept) (altered change)
        >> (refine_each number_text original refined >>= λ rest. return (candidate ∷ rest)) in
      let (kept, at_kept, e1) = >>=-eq-return (is_protected number_text change candidate) again e in
      let (intact, e2) =
        throw_if-eq-return (not kept) (altered change)
          (refine_each number_text original refined >>= λ rest. return (candidate ∷ rest)) e1 in
      let (rest, at_rest, same) =
        >>=-eq-return (refine_each number_text original refined) (λ rest. return (candidate ∷ rest))
          e2 in
      let (is_rest, advice) = refine_each-AllAdvice original refined rest (omega arith) at_rest in
      (
        sym (return_injective same) ∙ ap (λ r. candidate ∷ r) is_rest,
        (
          is_protected-IsAdvice change candidate (at_kept ∙ ap return (not-false kept intact)),
          advice,
        ),
      )

  -- When a provider's refinement is accepted, what is accepted are the provider's changes, and each
  -- has the id, action, type and key of the change it stands for, and the same dependencies and
  -- values in canonical form: nothing is added, dropped or reordered.
  pub assert_refinement-AllAdvice :
      (original refined changes : List PlanChange)
      → assert_refinement number_text original refined ≡ return changes
      → (changes ≡ refined) × AllAdvice original refined
  unfolding assert_refinement
  assert_refinement-AllAdvice original refined changes e =
      let (sized, each) =
        throw_if-eq-return (not (length refined == length original)) (resized original refined)
          (refine_each number_text original refined) e in
      refine_each-AllAdvice original refined changes
        ((==_iff (length refined) (length original)).0
          (not-false (length refined == length original) sized))
        each
