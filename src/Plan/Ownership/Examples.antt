-- ===== src/Plan/Ownership/Examples.antt =====
-- Two documents that declare fields of one table, and the theorems there.
use mathlib.Core.List.{Memᴰ}
use desired_state_protocol.Common.{
  [], ◌∷◌, none, js, compare_units, str_eq, ◌≡◌, refl, arith, includes,
}
use desired_state_protocol.Protocol.Value.{end, entry, null, text}
use desired_state_protocol.Protocol.Plan.{OwnershipClaim, ResourceConflict}
use desired_state_protocol.Plan.Normalize.{NormalizedResource}
use desired_state_protocol.Plan.Ownership.{ResolveOwnershipInput, resolve_ownership, leaf_paths}
use desired_state_protocol.Plan.Ownership.Classified.{clash}
use desired_state_protocol.Plan.Ownership.Snapshot.{IsFreeOf, holder_from}
use desired_state_protocol.Plan.Ownership.Members.{Claims, Conflicts}
use desired_state_protocol.Plan.Ownership.Resolved.{
  IsSeparable, holder, IsFree, IsHeld, resolve_ownership-IsFree, resolve_ownership-Claims,
  resolve_ownership-IsHeld, resolve_ownership-Conflicts,
}

abbrev table : NormalizedResource
table = record {
  resource_type = js "mock.table";
  key = js "users";
  attributes = entry (js "size") null (entry (js "owner") (text (js "ann")) end);
  depends_on = [];
  external_id = none;
}

abbrev theirs : OwnershipClaim
theirs = record {
  scope = js "mock/";
  resource_key = js "users";
  paths = js "owner" ∷ [];
  owner = js "ab";
}

abbrev ours : OwnershipClaim
ours = record {
  scope = js "mock/";
  resource_key = js "users";
  paths = js "old" ∷ [];
  owner = js "a";
}

abbrev input : ResolveOwnershipInput
input = record {
  owner = js "a";
  scope = js "mock/";
  desired = table ∷ [];
  snapshot = theirs ∷ ours ∷ [];
}

abbrev new_claim : OwnershipClaim
new_claim = record {
  scope = js "mock/";
  resource_key = js "users";
  paths = js "size" ∷ [];
  owner = js "a";
}

abbrev conflict : ResourceConflict
conflict = record {
  scope = js "mock/";
  resource_key = js "users";
  conflicts = clash (js "owner") (js "ab") ∷ [];
}

resolved :
    ((resolve_ownership input).claims ≡ new_claim ∷ [])
    × ((resolve_ownership input).releases ≡ ours ∷ [])
    × ((resolve_ownership input).conflicts ≡ conflict ∷ [])
unfolding resolve_ownership compare_units str_eq
resolved = (refl, refl, refl)

separable : IsSeparable input
unfolding IsFreeOf
separable = record { claimed = omega arith; declared = omega arith }

resolve_ownership-IsFree_example : IsFree input new_claim (js "size")
unfolding resolve_ownership compare_units str_eq
resolve_ownership-IsFree_example =
    resolve_ownership-IsFree input new_claim (js "size") separable (Memᴰ.head refl) (Memᴰ.head refl)

resolve_ownership-Claims_example : Claims table (js "size") (resolve_ownership input).claims
unfolding leaf_paths holder holder_from compare_units str_eq includes
resolve_ownership-Claims_example =
    resolve_ownership-Claims input table (js "size") separable (Memᴰ.head refl)
      (Memᴰ.tail (Memᴰ.head refl)) refl

resolve_ownership-IsHeld_example : IsHeld input conflict (clash (js "owner") (js "ab"))
unfolding resolve_ownership compare_units str_eq
resolve_ownership-IsHeld_example =
    resolve_ownership-IsHeld input conflict (clash (js "owner") (js "ab")) separable
      (Memᴰ.head refl) (Memᴰ.head refl)

resolve_ownership-Conflicts_example :
    Conflicts table (clash (js "owner") (js "ab")) (resolve_ownership input).conflicts
unfolding leaf_paths holder holder_from compare_units str_eq includes
resolve_ownership-Conflicts_example =
    resolve_ownership-Conflicts input table (js "owner") (js "ab") separable (Memᴰ.head refl)
      (Memᴰ.head refl) refl (λ e. cc)
