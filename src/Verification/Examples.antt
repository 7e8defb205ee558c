-- ===== src/Verification/Examples.antt =====
-- A workspace of one resource, and the theorems there. Numbers print as their bits and the digest is
-- the text itself.
use mathlib.Core.List.{Memᴰ}
use desired_state_protocol.Common.{
  ◌+◌, ◌*◌, ◌≤◌, [], ◌∷◌, length, none, some, JsString, js, decimal, compare_units, str_eq, ◌≡◌,
  ◌↔◌, refl, arith,
}
use desired_state_protocol.Protocol.Errors.{return}
use desired_state_protocol.Protocol.Value.{Value, text, entry, end}
use desired_state_protocol.Protocol.Plan.{satisfied, VerificationResult}
use desired_state_protocol.Protocol.Paths.{flatten_value}
use desired_state_protocol.Plan.Normalize.{
  ResourceInstance, NormalizedResource, NormalizedProjection, normalize_projection,
}
use desired_state_protocol.Plan.Diff.{by_key_map}
use desired_state_protocol.Verification.{VerifyInput, Compared, verdict, verify_desired_state}
use desired_state_protocol.Verification.Verdict.{
  IsObserved, verdict-satisfied, verify_desired_state-IsObserved,
}

abbrev instance_of : JsString → Value → ResourceInstance
instance_of key v = record {
  resource_type = js "mock.table";
  key = key;
  attributes = some (entry (js "owner") v end);
  depends_on = none;
  external_id = none;
}

abbrev input_of : Value → VerifyInput
input_of v = record {
  operation_id = js "op_1";
  desired = instance_of (js "users") (text (js "ann")) ∷ [];
  observed = instance_of (js "users") v ∷ [];
  resource_types = [];
  now = 5;
  contract = none;
}

abbrev normalized : NormalizedResource
normalized = record {
  resource_type = js "mock.table";
  key = js "users";
  attributes = entry (js "owner") (text (js "ann")) end;
  depends_on = [];
  external_id = none;
}

abbrev projection : NormalizedProjection
projection = record {
  resources = normalized ∷ [];
  hash =
      js
        "sha256:[{\"attributes\":{\"owner\":\"ann\"},\"dependsOn\":[],\"key\":\"users\",\"resourceType\":\"mock.table\"}]";
}

abbrev identity : JsString → JsString
identity t = t

abbrev agreed : VerificationResult
agreed = record {
  operation_id = js "op_1";
  status = satisfied;
  satisfaction = 10000;
  verified_at = 5;
  matched = js "users.owner" ∷ [];
  unmatched = [];
  contract = none;
}

normalized_projection :
    normalize_projection decimal identity (instance_of (js "users") (text (js "ann")) ∷ [])
    ≡ return projection
unfolding normalize_projection compare_units str_eq
normalized_projection = refl

verified : verify_desired_state decimal identity (input_of (text (js "ann"))) ≡ return agreed
unfolding verify_desired_state compare_units str_eq
verified = refl

verify_desired_state-IsObserved_example :
    IsObserved decimal (by_key_map (normalized ∷ [])) normalized (js "owner", text (js "ann"))
unfolding flatten_value
verify_desired_state-IsObserved_example =
    verify_desired_state-IsObserved decimal identity (input_of (text (js "ann"))) projection
      projection agreed normalized (js "owner", text (js "ann")) normalized_projection
      normalized_projection verified (omega arith) refl (Memᴰ.head refl) (Memᴰ.head refl)

abbrev one_of_two : Compared
one_of_two = record {
  matched = js "users.owner" ∷ [];
  unmatched = record { path = js "users.size"; reason = []; expected = none; actual = none } ∷ [];
}

verdict-satisfied_example :
    ((verdict (input_of (text (js "ann"))) one_of_two).status ≡ satisfied) ↔ (
      20000 * length one_of_two.unmatched ≤ length one_of_two.matched + length one_of_two.unmatched)
verdict-satisfied_example = verdict-satisfied (input_of (text (js "ann"))) one_of_two
