-- ===== src/Verification/Verdict.antt =====
-- packages/verification-engine/src/verify.ts: what the status says of the leaves.
use mathlib.Core.List.{Memᴰ}
use native.Mathlib.Nat.{le-div_iff_mul-le}
use desired_state_protocol.Common.{
  ℕ, ◌+◌, ◌*◌, ◌≤◌, ◌<◌, Bool, true, false, List, [], ◌∷◌, ◌++◌, map, length, length-sort_by,
  Option, none, some, JsString, StringMap, lookup, ◌==◌, Bool-cases, ◌≡◌, ◌↔◌, inl, inr, refl, ap,
  ◌∙◌, arith,
}
use desired_state_protocol.Protocol.Plan.{VerificationResult, satisfied}
use desired_state_protocol.Protocol.Errors.{return}
use desired_state_protocol.Protocol.Results.{◌>>=◌, return_injective, >>=-eq-return}
use desired_state_protocol.Protocol.Value.{Value, object, or_null}
use desired_state_protocol.Protocol.Plan.{ResourceTypeDefinition}
use desired_state_protocol.Protocol.Paths.{flatten_value, path_matches_any}
use desired_state_protocol.Protocol.Canonical.{canonical_equals}
use desired_state_protocol.Plan.Normalize.{
  NormalizedResource, NormalizedProjection, normalize_projection,
}
use desired_state_protocol.Plan.Risk.{sensitive_fields_of}
use desired_state_protocol.Plan.Diff.{by_key_map, definition_for}
use desired_state_protocol.Verification.{
  status_for, satisfaction_of, VerifyInput, Compared, verdict, file_leaf, full_path, missing,
  join_compared, compare_leaves, compare_resource, compare_all, verify_desired_state,
}

-- A satisfaction of 1 after rounding: at most one leaf in twenty thousand does not match.
satisfaction_of-one : (m u : ℕ) → (10000 ≤ satisfaction_of m (m + u)) ↔ (20000 * u ≤ m + u)
unfolding satisfaction_of
satisfaction_of-one m u = elim (Bool-cases (m + u == 0)) [
  | inl empty ↦ rw empty ((λ _. ground arith), (λ _. omega arith))
  | inr some_leaf ↦
      let positive : 0 < 2 * (m + u) = ground arith in
      let bound =
        le-div_iff_mul-le {k = 2 * (m + u)} {x = 10000} {y = m * 20000 + (m + u)} positive in
      rw some_leaf ((λ h. omega (arith, bound.0 h)), (λ h. bound.1 (omega arith)))
]

status_for-satisfied :
    (satisfaction matched : ℕ)
    → (status_for satisfaction matched ≡ satisfied) ↔ (10000 ≤ satisfaction)
unfolding status_for
status_for-satisfied satisfaction matched = ground arith

-- A verification is satisfied exactly if at most one leaf in twenty thousand does not match.
pub verdict-satisfied :
    (input : VerifyInput) (compared : Compared)
    → ((verdict input compared).status ≡ satisfied)
      ↔ (20000 * length compared.unmatched ≤ length compared.matched + length compared.unmatched)
unfolding verdict
verdict-satisfied input compared =
    let m = length compared.matched in
    let u = length compared.unmatched in
    let status = status_for-satisfied (satisfaction_of m (m + u)) m in
    let one = satisfaction_of-one m u in
    simp (length-sort_by) ((λ h. one.0 (status.0 h)), (λ h. status.1 (one.1 h)))

verdict-lengths :
    (input : VerifyInput) (compared : Compared)
    → (length (verdict input compared).matched ≡ length compared.matched)
      × (length (verdict input compared).unmatched ≡ length compared.unmatched)
unfolding verdict
verdict-lengths input compared = simp (length-sort_by) (refl, refl)

no_elements-length : {A : Type 0} (xs : List A) → length xs ≡ 0 → xs ≡ []
no_elements-length [] e = refl
no_elements-length (x ∷ xs) e = ground arith

no_elements-append : {A : Type 0} (xs ys : List A) → xs ++ ys ≡ [] → (xs ≡ []) × (ys ≡ [])
no_elements-append [] ys e = (refl, e)
no_elements-append (x ∷ xs) ys e = cc

file_leaf-agrees :
    (path : JsString) (expected found : Value) (is_sensitive same : Bool) (rest : Compared)
    → (file_leaf path expected found is_sensitive same rest).unmatched ≡ []
    → (same ≡ true) × (rest.unmatched ≡ [])
unfolding file_leaf
file_leaf-agrees path expected found is_sensitive true rest e = (refl, e)
file_leaf-agrees path expected found is_sensitive false rest e = cc

module _ (number_text : ℕ → JsString) where
  -- A leaf that the other side has in the same canonical form
  unfoldable pub AgreesIn : StringMap Value → JsString × Value → Type 0
  AgreesIn actual leaf =
      canonical_equals number_text (or_null (some leaf.1)) (or_null (lookup leaf.0 actual))
      ≡ return true

  compare_leaves-AgreesIn :
      (key : JsString) (sensitive : List JsString) (actual leaves : StringMap Value)
      {compared : Compared} {leaf : JsString × Value}
      → compare_leaves number_text key sensitive actual leaves ≡ return compared
      → compared.unmatched ≡ []
      → Memᴰ leaf leaves
      → AgreesIn actual leaf
  unfolding compare_leaves AgreesIn
  compare_leaves-AgreesIn key sensitive actual [] e k m = elim m [ ]
  compare_leaves-AgreesIn key sensitive actual ((path, v) ∷ leaves) {compared} {leaf} e k m =
      let found = or_null (lookup path actual) in
      let wanted = or_null (some v) in
      let (same, tested, later) =
        >>=-eq-return (canonical_equals number_text wanted found)
          (λ same. compare_leaves number_text key sensitive actual leaves >>= λ rest. return (
            file_leaf (full_path key path) wanted found (path_matches_any path sensitive) same
              rest))
          e in
      let (rest, others, filed) =
        >>=-eq-return (compare_leaves number_text key sensitive actual leaves)
          (λ rest. return (
            file_leaf (full_path key path) wanted found (path_matches_any path sensitive) same
              rest))
          later in
      let (agrees, none_left) =
        file_leaf-agrees (full_path key path) wanted found (path_matches_any path sensitive) same
          rest (ap (λ c. c.unmatched) (return_injective filed) ∙ k) in
      elim m [
        | Memᴰ.head q ↦ rw q (tested ∙ ap return agrees)
        | Memᴰ.tail n ↦ compare_leaves-AgreesIn key sensitive actual leaves others none_left n
      ]

  -- A leaf of a resource that the observed resources hold, with the value that is wanted
  unfoldable pub IsObserved :
      StringMap NormalizedResource → NormalizedResource → JsString × Value → Type 0
  IsObserved observed resource leaf =
      (actual : NormalizedResource) × (lookup resource.key observed ≡ some actual)
      × AgreesIn (flatten_value (object actual.attributes)) leaf

  missing-nil :
      (resource : NormalizedResource) (leaves : StringMap Value) {leaf : JsString × Value}
      → missing resource (map (λ e. e.0) leaves) ≡ []
      → ¬ Memᴰ leaf leaves
  unfolding missing
  missing-nil resource [] e m = elim m [ ]
  missing-nil resource (leaf ∷ leaves) e m = cc

  compare_resource-IsObserved :
      (resource_types : StringMap ResourceTypeDefinition) (observed : StringMap NormalizedResource)
      (resource : NormalizedResource) (actual : Option NormalizedResource) {compared : Compared}
      {leaf : JsString × Value}
      → lookup resource.key observed ≡ actual
      → compare_resource number_text resource_types resource actual ≡ return compared
      → compared.unmatched ≡ []
      → Memᴰ leaf (flatten_value (object resource.attributes))
      → IsObserved observed resource leaf
  unfolding compare_resource IsObserved
  compare_resource-IsObserved resource_types observed resource none at_key e k m = absurd (
      missing-nil resource (flatten_value (object resource.attributes))
        (ap (λ c. c.unmatched) (return_injective e) ∙ k) m)
  compare_resource-IsObserved resource_types observed resource (some actual) at_key e k m = (
    actual,
    at_key,
    compare_leaves-AgreesIn resource.key
        (sensitive_fields_of (definition_for resource_types resource))
        (flatten_value (object actual.attributes)) (flatten_value (object resource.attributes)) e k
        m,
  )

  compare_all-IsObserved :
      (resource_types : StringMap ResourceTypeDefinition) (observed : StringMap NormalizedResource)
      (resources : List NormalizedResource) {compared : Compared} {resource : NormalizedResource}
      {leaf : JsString × Value}
      → compare_all number_text resource_types observed resources ≡ return compared
      → compared.unmatched ≡ []
      → Memᴰ resource resources
      → Memᴰ leaf (flatten_value (object resource.attributes))
      → IsObserved observed resource leaf
  unfolding compare_all join_compared
  compare_all-IsObserved resource_types observed [] e k m at_leaf = elim m [ ]
  compare_all-IsObserved resource_types observed (r ∷ rs) {compared} {resource} {leaf} e k m
        at_leaf =
      let (own, first, later) =
        >>=-eq-return (compare_resource number_text resource_types r (lookup r.key observed))
          (λ own. compare_all number_text resource_types observed rs >>= λ rest.
            return (join_compared own rest))
          e in
      let (rest, others, joined) =
        >>=-eq-return (compare_all number_text resource_types observed rs)
          (λ rest. return (join_compared own rest)) later in
      let (own_empty, rest_empty) =
        no_elements-append own.unmatched rest.unmatched
          (ap (λ c. c.unmatched) (return_injective joined) ∙ k) in
      elim m [
        | Memᴰ.head q ↦
            compare_resource-IsObserved resource_types observed resource
              (lookup resource.key observed) {compared = own} refl (rw q first) own_empty at_leaf
        | Memᴰ.tail n ↦
            compare_all-IsObserved resource_types observed rs others rest_empty n at_leaf
      ]

  module _ (sha256_hex : JsString → JsString) where
    verify-verdict :
        (input : VerifyInput) (desired observed : NormalizedProjection)
        (result : VerificationResult)
        → normalize_projection number_text sha256_hex input.desired ≡ return desired
        → normalize_projection number_text sha256_hex input.observed ≡ return observed
        → verify_desired_state number_text sha256_hex input ≡ return result
        → (compared : Compared) × (compare_all number_text input.resource_types
              (by_key_map observed.resources)
              desired.resources
            ≡ return compared)
          × (verdict input compared ≡ result)
    unfolding verify_desired_state
    verify-verdict input desired observed result at_desired at_observed e =
        let e' : (compare_all number_text input.resource_types (by_key_map observed.resources)
                desired.resources
              >>= λ compared. return (verdict input compared))
            ≡ return result =
          rw (at_desired, at_observed) at e in
        let (compared, all, same) =
          >>=-eq-return
            (compare_all number_text input.resource_types (by_key_map observed.resources)
              desired.resources)
            (λ compared. return (verdict input compared)) e' in
        (compared, all, return_injective same)

    -- A verification of fewer than 20,000 leaves is satisfied only if each leaf of each desired
    -- resource has, in the observed resource of that key, a value of the same canonical form.
    pub verify_desired_state-IsObserved :
        (input : VerifyInput) (desired observed : NormalizedProjection)
        (result : VerificationResult) (resource : NormalizedResource) (leaf : JsString × Value)
        → normalize_projection number_text sha256_hex input.desired ≡ return desired
        → normalize_projection number_text sha256_hex input.observed ≡ return observed
        → verify_desired_state number_text sha256_hex input ≡ return result
        → length result.matched + length result.unmatched < 20000
        → result.status ≡ satisfied
        → Memᴰ resource desired.resources
        → Memᴰ leaf (flatten_value (object resource.attributes))
        → IsObserved (by_key_map observed.resources) resource leaf
    verify_desired_state-IsObserved input desired observed result resource leaf at_desired
          at_observed e few status at_resource at_leaf =
        let (compared, all, same) =
          verify-verdict input desired observed result at_desired at_observed e in
        let count = verdict-lengths input compared in
        let bound = (verdict-satisfied input compared).0 (rw same status) in
        let matched = ap (λ r. length r.matched) same in
        let unmatched = ap (λ r. length r.unmatched) same in
        let none_left =
          no_elements-length compared.unmatched
            (omega (arith, bound, count.0, count.1, matched, unmatched, few)) in
        compare_all-IsObserved input.resource_types (by_key_map observed.resources)
          desired.resources all none_left at_resource at_leaf
