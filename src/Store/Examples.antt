-- ===== src/Store/Examples.antt =====
-- A store with two documents, and the theorems there.
use desired_state_protocol.Common.{
  false, List, [], ◌∷◌, some, JsString, js, str_eq, compare_units, ◌≡◌, refl, any, ◌↔◌,
  if◌then◌else◌,
}
use desired_state_protocol.Protocol.Plan.{OwnershipClaim}
use desired_state_protocol.Store.Table.{select, IsKeyed}
use desired_state_protocol.Store.Fields.{FieldKey, triple_eq}
use desired_state_protocol.Store.Rows.{
  Store, empty_store, reserve_idempotency, record_ownership, ownership_for,
}
use desired_state_protocol.Store.Reserved.{Write, perform_all, reserve_idempotency-exclusive}
use desired_state_protocol.Store.Owned.{covers, gives_up, record_ownership-owner}

abbrev claim : JsString → JsString → OwnershipClaim
claim path owner = record {
  scope = js "s";
  resource_key = js "t";
  paths = path ∷ [];
  owner = owner;
}

-- One document holds two fields, another a third.
abbrev store : Store
store = record empty_store {
  field_ownership =
      ((js "s", js "t", js "x"), js "a")
      ∷ ((js "s", js "t", js "y"), js "a")
      ∷ ((js "s", js "t", js "z"), js "b")
      ∷ [];
}

-- The first document gives up one field, takes the other's and tries to give up a field of its.
abbrev claims : List OwnershipClaim
claims = claim (js "y") (js "a") ∷ []

abbrev releases : List OwnershipClaim
releases = claim (js "x") (js "a") ∷ claim (js "z") (js "a") ∷ []

abbrev field : FieldKey
field = (js "s", js "t", js "z")

kept_rows :
    (record_ownership claims releases store).field_ownership
    ≡ ((js "s", js "t", js "y"), js "a") ∷ ((js "s", js "t", js "z"), js "b") ∷ []
unfolding record_ownership str_eq
kept_rows = refl

claims_found :
    ownership_for compare_units (js "s") (js "t" ∷ []) store
    ≡ record { scope = js "s"; resource_key = js "t"; paths = js "x" ∷ js "y" ∷ []; owner = js "a" }
      ∷ claim (js "z") (js "b")
      ∷ []
unfolding ownership_for compare_units str_eq
claims_found = refl

keyed : IsKeyed triple_eq store.field_ownership
unfolding IsKeyed str_eq
keyed = (refl, (refl, (refl, tt)))

record_ownership-owner_example :
    (select triple_eq field (record_ownership claims releases store).field_ownership
      ≡ some (js "b"))
    ↔ (if any (λ c. covers c field) claims
        then js "a" ≡ js "b"
        else (select triple_eq field store.field_ownership ≡ some (js "b"))
          × (gives_up releases field (js "b") ≡ false))
record_ownership-owner_example =
    record_ownership-owner (js "a") claims releases store field (js "b") keyed (refl, tt)

abbrev between : List Write
between =
    Write.reservation (js "t", js "p", js "k") (js "op_2") ∷ Write.cancellation (js "op_1") 3 ∷ []

reserve_idempotency-exclusive_example :
    let (first, reserved) = reserve_idempotency (js "t", js "p", js "k") (js "op_1") empty_store in
    let later = perform_all between reserved in
    reserve_idempotency (js "t", js "p", js "k") (js "op_3") later
    ≡ (record { reserved = false; operation_id = first.operation_id }, later)
reserve_idempotency-exclusive_example =
    reserve_idempotency-exclusive (js "t", js "p", js "k") (js "op_1") (js "op_3") between
      empty_store
