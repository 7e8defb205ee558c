-- ===== src/Store/Reserved.antt =====
-- packages/core/src/store/sqlite-store.ts: an idempotency key belongs to one operation.
use desired_state_protocol.Common.{
  ℕ, true, false, List, [], ◌∷◌, Option, none, some, JsString, str_eq_iff, ◌≡◌, refl, ◌↔◌, arith,
  ◌∙◌,
}
use desired_state_protocol.Protocol.Plan.{ApprovalRecord, OperationRecord, OwnershipClaim}
use desired_state_protocol.Store.Table.{select, select-upsert}
use desired_state_protocol.Store.Fields.{triple_eq}
use desired_state_protocol.Store.Rows.{
  Store, PlanRecord, IdempotencyKey, save_plan, save_approval, save_operation, get_operation,
  reserve_row, cancel_row, reserve_idempotency, request_cancellation, record_ownership,
}

-- A call that changes the store
pub data Write : Type 0 where
  plan : PlanRecord → Write
  approval : ApprovalRecord → Write
  operation : OperationRecord → Write
  reservation : IdempotencyKey → JsString → Write
  cancellation : JsString → ℕ → Write
  ownership : (claims releases : List OwnershipClaim) → Write

unfoldable pub perform : Write → Store → Store
unfolding save_plan save_approval save_operation reserve_idempotency request_cancellation
    record_ownership
perform (plan saved) store = save_plan saved store
perform (approval saved) store = save_approval saved store
perform (operation saved) store = save_operation saved store
perform (reservation key operation_id) store = (reserve_idempotency key operation_id store).1
perform (cancellation operation_id now) store = (request_cancellation operation_id now store).1
perform (ownership claims releases) store = record_ownership claims releases store

unfoldable pub perform_all : List Write → Store → Store
unfolding perform
perform_all [] store = store
perform_all (w ∷ ws) store = perform_all ws (perform w store)

pub triple_eq_iff : (a b : JsString × JsString × JsString) → (triple_eq a b ≡ true) ↔ (a ≡ b)
triple_eq_iff (a, b, c) (x, y, z) = ground (arith, str_eq_iff a x, str_eq_iff b y, str_eq_iff c z)

abbrev key_holder : IdempotencyKey → Store → Option JsString
key_holder key store = select triple_eq key store.idempotency

reserve_row-keeps :
    (held_by : Option JsString) (key other : IdempotencyKey) (a b : JsString) (store : Store)
    → key_holder other store ≡ held_by
    → key_holder key store ≡ some a
    → key_holder key (reserve_row held_by other b store).1 ≡ some a
unfolding reserve_row
reserve_row-keeps none key other a b store free held = ground (
  arith,
  triple_eq_iff other key,
  select-upsert triple_eq triple_eq_iff (λ held. held) other b store.idempotency key,
)
reserve_row-keeps (some c) key other a b store taken held = held

cancel_row-keeps :
    (found : Option OperationRecord) (key : IdempotencyKey) (now : ℕ) (store : Store)
    → key_holder key (cancel_row found now store).1 ≡ key_holder key store
unfolding cancel_row save_operation
cancel_row-keeps none key now store = refl
cancel_row-keeps (some found) key now store = refl

perform-keeps :
    (key : IdempotencyKey) (a : JsString) (w : Write) (store : Store)
    → key_holder key store ≡ some a
    → key_holder key (perform w store) ≡ some a
unfolding perform save_plan save_approval save_operation record_ownership request_cancellation
    reserve_idempotency
perform-keeps key a (Write.plan _) store held = held
perform-keeps key a (Write.approval _) store held = held
perform-keeps key a (Write.operation _) store held = held
perform-keeps key a (Write.reservation other b) store held =
    reserve_row-keeps (key_holder other store) key other a b store refl held
perform-keeps key a (Write.cancellation id now) store held =
    cancel_row-keeps (get_operation id store) key now store ∙ held
perform-keeps key a (Write.ownership _ _) store held = held

perform_all-keeps :
    (key : IdempotencyKey) (a : JsString) (ws : List Write) (store : Store)
    → key_holder key store ≡ some a
    → key_holder key (perform_all ws store) ≡ some a
unfolding perform_all
perform_all-keeps key a [] store held = held
perform_all-keeps key a (w ∷ ws) store held =
    perform_all-keeps key a ws (perform w store) (perform-keeps key a w store held)

pub reserve_row-holds :
    (held_by : Option JsString) (key : IdempotencyKey) (a : JsString) (store : Store)
    → key_holder key store ≡ held_by
    → key_holder key (reserve_row held_by key a store).1
      ≡ some (reserve_row held_by key a store).0.operation_id
unfolding reserve_row
reserve_row-holds none key a store free = ground (
  arith,
  triple_eq_iff key key,
  select-upsert triple_eq triple_eq_iff (λ held. held) key a store.idempotency key,
)
reserve_row-holds (some c) key a store taken = taken

held_reserve :
    (key : IdempotencyKey) (a b : JsString) (store : Store)
    → key_holder key store ≡ some a
    → reserve_idempotency key b store ≡ (record { reserved = false; operation_id = a }, store)
unfolding reserve_idempotency reserve_row
held_reserve key a b store held = rw held refl

-- Once a call has asked for an idempotency key, every later call for that key gets the same
-- operation, is told that the key is not its own and leaves the store unchanged, whatever was
-- written to the store in between.
pub reserve_idempotency-exclusive :
    (key : IdempotencyKey) (a b : JsString) (between : List Write) (store : Store)
    → let (first, reserved) = reserve_idempotency key a store in
      let later = perform_all between reserved in
      reserve_idempotency key b later
      ≡ (record { reserved = false; operation_id = first.operation_id }, later)
unfolding reserve_idempotency
reserve_idempotency-exclusive key a b between store =
    held_reserve key _ b _ (
      perform_all-keeps key _ between _ (reserve_row-holds (key_holder key store) key a store refl))
