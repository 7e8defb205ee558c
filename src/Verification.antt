-- ===== src/Verification.antt =====
-- packages/verification-engine/src/verify.ts: the leaves that a document asks for against those that
-- the provider reports. A ratio of leaves is rounded to ten thousandths from the exact quotient.
pub mod Verdict
mod Examples
use desired_state_protocol.Common.{
  ℕ, ◌+◌, ◌*◌, ◌/◌, Bool, true, false, List, [], ◌∷◌, ◌++◌, map, length, Option, none, some,
  JsString, js, StringMap, lookup, sort_by, ◌==◌, leb, Ordering, if◌then◌else◌,
}
use desired_state_protocol.Protocol.Errors.{Result, return, throw}
use desired_state_protocol.Protocol.Results.{◌>>=◌, ◌>>◌, map_all}
use desired_state_protocol.Protocol.Value.{Value, text, object, or_null}
use desired_state_protocol.Protocol.Plan.{
  ContractCheck, VerificationMismatch, VerificationResult, VerificationStatus, satisfied,
  not_satisfied, partially_satisfied, verification_failed, ResourceTypeDefinition,
}
use desired_state_protocol.Protocol.Paths.{flatten_value, path_matches_any}
use desired_state_protocol.Protocol.Canonical.{canonical_equals}
use desired_state_protocol.Plan.Normalize.{
  ResourceInstance, NormalizedResource, normalize_projection, compare_strings,
}
use desired_state_protocol.Plan.Risk.{sensitive_fields_of}
use desired_state_protocol.Plan.Diff.{by_key_map, definition_for}

pub record VerifyInput : Type 0 where
  pub operation_id : JsString
  pub desired : List ResourceInstance
  pub observed : List ResourceInstance
  pub resource_types : StringMap ResourceTypeDefinition
  pub now : ℕ
  pub contract : Option ContractCheck

-- The leaves that agree and those that do not
pub record Compared : Type 0 where
  pub matched : List JsString
  pub unmatched : List VerificationMismatch

abbrev redacted_text : Value
redacted_text = text (js "[REDACTED]")

unfoldable pub join_compared : Compared → Compared → Compared
join_compared a b = record {
  matched = a.matched ++ b.matched;
  unmatched = a.unmatched ++ b.unmatched;
}

unfoldable pub full_path : JsString → JsString → JsString
full_path key path = key ++ js "." ++ path

unfoldable pub missing : NormalizedResource → List JsString → List VerificationMismatch
unfolding full_path
missing resource [] = []
missing resource (path ∷ paths) =
    record {
      path = full_path resource.key path;
      reason =
          resource.resource_type
          ++ js " \""
          ++ resource.key
          ++ js "\" was not found in the provider state";
      expected = none;
      actual = none;
    }
    ∷ missing resource paths

-- The first leaf by its comparison, in front of the others
unfoldable pub file_leaf : JsString → Value → Value → Bool → Bool → Compared → Compared
file_leaf path expected found is_sensitive true rest = record {
  matched = path ∷ rest.matched;
  unmatched = rest.unmatched;
}
file_leaf path expected found is_sensitive false rest = record {
  matched = rest.matched;
  unmatched =
      record {
        path = path;
        reason = js "Observed value differs from the desired value";
        expected = some (if is_sensitive then redacted_text else expected);
        actual = some (if is_sensitive then redacted_text else found);
      }
      ∷ rest.unmatched;
}

-- `statusFor`, of a satisfaction in ten thousandths
unfoldable pub status_for : ℕ → ℕ → VerificationStatus
status_for satisfaction matched_count =
    if leb 10000 satisfaction
    then satisfied
    else if matched_count == 0
    then not_satisfied
    else partially_satisfied

-- `round4(matched / total)` in ten thousandths: `Math.round(x)` is the floor of `x + 1/2`.
unfoldable pub satisfaction_of : ℕ → ℕ → ℕ
satisfaction_of matched total =
    if total == 0 then 10000 else (matched * 20000 + total) / (2 * total)

abbrev mismatch_order : VerificationMismatch → VerificationMismatch → Ordering
mismatch_order a b = compare_strings a.path b.path

unfoldable pub verdict : VerifyInput → Compared → VerificationResult
unfolding status_for satisfaction_of sort_by
verdict input compared =
    let matched = sort_by compare_strings compared.matched in
    let unmatched = sort_by mismatch_order compared.unmatched in
    let satisfaction = satisfaction_of (length matched) (length matched + length unmatched) in
    record {
      operation_id = input.operation_id;
      status = status_for satisfaction (length matched);
      satisfaction = satisfaction;
      verified_at = input.now;
      matched = matched;
      unmatched = unmatched;
      contract = input.contract;
    }

unfoldable pub verification_failed_result :
    JsString → JsString → ℕ → Option ContractCheck → VerificationResult
verification_failed_result operation_id reason now contract = record {
  operation_id = operation_id;
  status = verification_failed;
  satisfaction = 0;
  verified_at = now;
  matched = [];
  unmatched = record { path = []; reason = reason; expected = none; actual = none } ∷ [];
  contract = contract;
}

module _ (number_text : ℕ → JsString) where
  unfoldable pub compare_leaves :
      JsString → List JsString → StringMap Value → StringMap Value → Result Compared
  unfolding file_leaf full_path lookup canonical_equals path_matches_any
  compare_leaves key sensitive actual [] = return (record { matched = []; unmatched = [] })
  compare_leaves key sensitive actual ((path, expected) ∷ leaves) = do
    let found = or_null (lookup path actual)
    let wanted = or_null (some expected)
    same ← canonical_equals number_text wanted found
    rest ← compare_leaves key sensitive actual leaves
    return (file_leaf (full_path key path) wanted found (path_matches_any path sensitive) same rest)

  unfoldable pub compare_resource :
      StringMap ResourceTypeDefinition
      → NormalizedResource
      → Option NormalizedResource
      → Result Compared
  unfolding compare_leaves missing flatten_value definition_for sensitive_fields_of
  compare_resource resource_types resource none =
      let paths = map (λ e. e.0) (flatten_value (object resource.attributes)) in
      return (record { matched = []; unmatched = missing resource paths })
  compare_resource resource_types resource (some actual) =
      compare_leaves resource.key (sensitive_fields_of (definition_for resource_types resource))
        (flatten_value (object actual.attributes)) (flatten_value (object resource.attributes))

  unfoldable pub compare_all :
      StringMap ResourceTypeDefinition
      → StringMap NormalizedResource
      → List NormalizedResource
      → Result Compared
  unfolding compare_resource join_compared lookup
  compare_all resource_types observed [] = return (record { matched = []; unmatched = [] })
  compare_all resource_types observed (resource ∷ resources) = do
    own ← compare_resource resource_types resource (lookup resource.key observed)
    rest ← compare_all resource_types observed resources
    return (join_compared own rest)

  unfoldable pub verify_desired_state :
      (JsString → JsString) → VerifyInput → Result VerificationResult
  unfolding compare_all verdict normalize_projection by_key_map
  verify_desired_state sha256_hex input = do
    desired ← normalize_projection number_text sha256_hex input.desired
    observed ← normalize_projection number_text sha256_hex input.observed
    compared ← compare_all input.resource_types (by_key_map observed.resources) desired.resources
    return (verdict input compared)
