-- ===== src/Store/Rows.antt =====
-- packages/core/src/store/sqlite-store.ts and types.ts: the store's tables, and its operations as
-- functions of them. A record column holds the record itself; times are in milliseconds. The rows
-- of audit_events are in Audit/Log. How SQLite orders text is a parameter.
use desired_state_protocol.Common.{
  ℕ, Bool, true, false, ◌&&◌, List, [], ◌∷◌, map, filter, compare, Ordering, Option, none, some,
  JsString, str_eq, sort_by, includes,
}
use desired_state_protocol.Protocol.Plan.{DspPlan, ApprovalRecord, OperationRecord, OwnershipClaim}
use desired_state_protocol.Protocol.Document.{DesiredStateDocument}
use desired_state_protocol.Store.Fields.{
  FieldKey, triple_eq, release_fields, claim_fields, bucket_rows, claim_of_bucket, field_order,
}
use desired_state_protocol.Store.Table.{Table, select, upsert}

pub record PlanOptions : Type 0 where
  pub allow_delete : Option Bool
  pub allow_replace : Option Bool
  pub refresh_current_state : Option Bool

pub record PlanRecord : Type 0 where
  pub plan : DspPlan
  pub desired_state : DesiredStateDocument
  pub options : PlanOptions
  pub environment : JsString

pub record IdempotencyReservation : Type 0 where
  pub reserved : Bool
  pub operation_id : JsString

-- A row of operations: the columns that an update of the row leaves, and the record
pub record OperationRow : Type 0 where
  pub plan_id : JsString
  pub created_at : ℕ
  pub record_column : OperationRecord

-- (tenant, plan_id, idempotency_key)
abbrev pub IdempotencyKey : Type 0
IdempotencyKey = JsString × JsString × JsString

abbrev pub pair_eq : JsString × JsString → JsString × JsString → Bool
pair_eq (a, b) (x, y) = str_eq a x && str_eq b y

pub record Store : Type 0 where
  pub plans : Table JsString PlanRecord
  pub approvals : Table (JsString × JsString) ApprovalRecord
  pub operations : Table JsString OperationRow
  pub idempotency : Table IdempotencyKey JsString
  pub field_ownership : Table FieldKey JsString

abbrev pub empty_store : Store
empty_store = record {
  plans = [];
  approvals = [];
  operations = [];
  idempotency = [];
  field_ownership = [];
}

unfoldable pub save_plan : PlanRecord → Store → Store
unfolding upsert
save_plan plan store = record store {
  plans = upsert str_eq (λ _. plan) plan.plan.metadata.id plan store.plans;
}

unfoldable pub get_plan : JsString → Store → Option PlanRecord
unfolding select
get_plan plan_id store = select str_eq plan_id store.plans

unfoldable pub save_approval : ApprovalRecord → Store → Store
unfolding upsert
save_approval approval store = record store {
  approvals =
      upsert pair_eq (λ _. approval) (approval.plan_id, approval.approved_by) approval
        store.approvals;
}

abbrev approval_order : ApprovalRecord → ApprovalRecord → Ordering
approval_order a b = compare a.approved_at b.approved_at

unfoldable pub list_approvals : JsString → Store → List ApprovalRecord
unfolding sort_by
list_approvals plan_id store =
    sort_by approval_order
      (map (λ row. row.1) (filter (λ row. str_eq row.0.0 plan_id) store.approvals))

unfoldable pub save_operation : OperationRecord → Store → Store
unfolding upsert
save_operation operation store = record store {
  operations =
      upsert str_eq (λ row. record row { record_column = operation }) operation.id
        (record {
          plan_id = operation.plan_id;
          created_at = operation.created_at;
          record_column = operation;
        })
        store.operations;
}

abbrev pub record_column_of : Option OperationRow → Option OperationRecord
record_column_of none = none
record_column_of (some row) = some row.record_column

unfoldable pub get_operation : JsString → Store → Option OperationRecord
unfolding select
get_operation operation_id store = record_column_of (select str_eq operation_id store.operations)

abbrev row_order : OperationRow → OperationRow → Ordering
row_order a b = compare a.created_at b.created_at

unfoldable pub list_operations : JsString → Store → List OperationRecord
unfolding sort_by
list_operations plan_id store =
    map (λ row. row.record_column)
      (sort_by row_order
        (filter (λ row. str_eq row.plan_id plan_id) (map (λ row. row.1) store.operations)))

unfoldable pub operation_of : Option JsString → Store → Option OperationRecord
unfolding get_operation
operation_of none store = none
operation_of (some operation_id) store = get_operation operation_id store

unfoldable pub find_operation_by_idempotency : IdempotencyKey → Store → Option OperationRecord
unfolding select operation_of
find_operation_by_idempotency key store =
    operation_of (select triple_eq key store.idempotency) store

-- `ON CONFLICT DO NOTHING`, by the row that holds the key
unfoldable pub reserve_row :
    Option JsString → IdempotencyKey → JsString → Store → IdempotencyReservation × Store
unfolding upsert
reserve_row none key operation_id store = (
  record { reserved = true; operation_id = operation_id },
  record store { idempotency = upsert triple_eq (λ held. held) key operation_id store.idempotency },
)
reserve_row (some held) key operation_id store =
    (record { reserved = false; operation_id = held }, store)

unfoldable pub reserve_idempotency :
    IdempotencyKey → JsString → Store → IdempotencyReservation × Store
unfolding select reserve_row
reserve_idempotency key operation_id store =
    reserve_row (select triple_eq key store.idempotency) key operation_id store

unfoldable pub cancel_row : Option OperationRecord → ℕ → Store → Bool × Store
unfolding save_operation
cancel_row none now store = (false, store)
cancel_row (some operation) now store = (
  true,
  save_operation (record operation { cancellation_requested = true; updated_at = now }) store,
)

unfoldable pub request_cancellation : JsString → ℕ → Store → Bool × Store
unfolding get_operation cancel_row
request_cancellation operation_id now store =
    cancel_row (get_operation operation_id store) now store

-- One transaction: first what is given up, then what is taken
unfoldable pub record_ownership : (claims releases : List OwnershipClaim) → Store → Store
unfolding release_fields claim_fields
record_ownership claims releases store = record store {
  field_ownership = claim_fields claims (release_fields releases store.field_ownership);
}

module _ (collate : JsString → JsString → Ordering) where
  unfoldable pub ownership_for : JsString → List JsString → Store → List OwnershipClaim
  unfolding includes sort_by field_order bucket_rows claim_of_bucket
  ownership_for scope [] store = []
  ownership_for scope (key ∷ keys) store = map (claim_of_bucket scope) (
      bucket_rows
        (sort_by (field_order collate) (
          filter (λ row. str_eq row.0.0 scope && includes (key ∷ keys) row.0.1)
            store.field_ownership))
        [])
