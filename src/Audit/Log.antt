-- ===== src/Audit/Log.antt =====
-- packages/audit/src/store.ts and audit-log.ts: the events of a store, its queries and the log that
-- appends to it. The log runs its appends one after another, so that a call of `record` is a step
-- from one state to the next. What redactSensitiveData makes of metadata is a parameter.
pub mod Appends
pub mod Pages
use desired_state_protocol.Common.{
  ℕ, Bool, true, false, List, [], ◌∷◌, ◌++◌, filter, take, length, get_last?, Option, none, some,
  JsString, str_eq, ltb, if◌then◌else◌,
}
use desired_state_protocol.Protocol.Errors.{Result, return, throw}
use desired_state_protocol.Protocol.Value.{Entries}
use desired_state_protocol.Audit.Chain.{
  AuditEvent, AuditEventInput, AuditAction, AuditChainVerification, action_text, create_audit_event,
  metadata_or_empty, verify_chain,
}

pub record AuditQuery : Type 0 where
  pub limit : Option ℕ
  pub after_sequence : Option ℕ
  pub plan_id : Option JsString
  pub operation_id : Option JsString
  pub action : Option JsString

-- `a === b`, of a property that may be absent
unfoldable pub is_text : Option JsString → JsString → Bool
is_text none s = false
is_text (some t) s = str_eq t s

unfoldable keep_after : Option ℕ → List AuditEvent → List AuditEvent
keep_after none events = events
keep_after (some after) events = filter (λ event. ltb after event.body.sequence) events

unfoldable keep_plan : Option JsString → List AuditEvent → List AuditEvent
keep_plan none events = events
keep_plan (some plan_id) events = filter (λ event. is_text event.body.plan_id plan_id) events

unfoldable keep_operation : Option JsString → List AuditEvent → List AuditEvent
keep_operation none events = events
keep_operation (some operation_id) events =
    filter (λ event. is_text event.body.operation_id operation_id) events

unfoldable keep_action : Option JsString → List AuditEvent → List AuditEvent
keep_action none events = events
keep_action (some action) events =
    filter (λ event. str_eq (action_text event.body.action) action) events

unfoldable up_to : Option ℕ → List AuditEvent → List AuditEvent
up_to none events = events
up_to (some limit) events = take limit events

-- `MemoryAuditStore.list`
unfoldable pub list_events : AuditQuery → List AuditEvent → List AuditEvent
unfolding keep_after keep_plan keep_operation keep_action up_to is_text
list_events query events = up_to query.limit (
    keep_action query.action (
      keep_operation query.operation_id
        (keep_plan query.plan_id (keep_after query.after_sequence events))))

-- `MemoryAuditStore.get`
unfoldable pub get_event : JsString → List AuditEvent → Option AuditEvent
get_event id [] = none
get_event id (event ∷ events) =
    let rest = get_event id events in if str_eq event.body.id id then some event else rest

-- The events that are stored, and the event behind which the next is appended
pub record Log : Type 0 where
  pub events : List AuditEvent
  pub tail : Option AuditEvent

-- The constructor of `AuditLog`, over a store that holds events
unfoldable pub open_log : List AuditEvent → Log
open_log events = record { events = events; tail = get_last? events }

-- What a call of `record` takes from outside: the input, the clock, a random id and whether the
-- store's `append` succeeds; one that fails stores nothing.
pub record Request : Type 0 where
  pub input : AuditEventInput
  pub timestamp : JsString
  pub id : JsString
  pub appended : Result (Unit {0})

-- After a failure the store's last event is the tail again.
unfoldable fall_back : List AuditEvent → Log
fall_back events = record { events = events; tail = get_last? events }

unfoldable pub append_event :
    Result AuditEvent → Result (Unit {0}) → List AuditEvent → Result AuditEvent × Log
unfolding fall_back
append_event (throw e) answer events = (throw e, fall_back events)
append_event (return event) (throw e) events = (throw e, fall_back events)
append_event (return event) (return u) events =
    (return event, record { events = events ++ event ∷ []; tail = some event })

unfoldable pub redacted : (Entries → Entries) → AuditEventInput → AuditEventInput
unfolding metadata_or_empty
redacted redact input = record {
  actor = input.actor;
  action = input.action;
  outcome = input.outcome;
  resource_type = input.resource_type;
  resource_key = input.resource_key;
  plan_id = input.plan_id;
  operation_id = input.operation_id;
  request_id = input.request_id;
  metadata = some (redact (metadata_or_empty input.metadata));
}

module _ (number_text : ℕ → JsString) (sha256_hex : JsString → JsString)
    (redact : Entries → Entries) where
  unfoldable pub record_event : Request → Log → Result AuditEvent × Log
  unfolding append_event create_audit_event redacted
  record_event request log =
      let event =
        create_audit_event number_text sha256_hex (redacted redact request.input) log.tail
          request.timestamp request.id in
      append_event event request.appended log.events

  unfoldable pub record_all : List Request → Log → Log
  unfolding record_event
  record_all [] log = log
  record_all (request ∷ requests) log = record_all requests (record_event request log).1

  unfoldable pub verify : Log → Result AuditChainVerification
  unfolding verify_chain
  verify log = verify_chain number_text sha256_hex log.events
