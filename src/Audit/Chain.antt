-- ===== src/Audit/Chain.antt =====
-- packages/audit/src/chain.ts and packages/protocol/src/types/audit.ts: events, their hashes and the
-- check of a chain. A sequence is a natural number below 2^53.
pub mod Linked
use desired_state_protocol.Common.{
  ℕ, suc, ◌+◌, Bool, true, false, List, [], ◌∷◌, ◌++◌, ◌==◌, length, Option, none, some, JsString,
  js, str_eq, decimal, not, if◌then◌else◌,
}
use desired_state_protocol.Protocol.Errors.{Result, return, throw}
use desired_state_protocol.Protocol.Risk.{Actor, ActorType, human, agent, system}
use desired_state_protocol.Protocol.Value.{Value, null, text, object, Entries, end, entry, integer}
use desired_state_protocol.Protocol.Canonical.{hash_canonical}

pub data AuditOutcome : Type 0 where
  success failure blocked : AuditOutcome

pub data AuditAction : Type 0 where
  document_validate state_inspect plan_create plan_approve plan_apply : AuditAction
  change_apply operation_verify operation_cancel policy_deny secret_resolve : AuditAction

unfoldable pub outcome_text : AuditOutcome → JsString
outcome_text success = js "success"
outcome_text failure = js "failure"
outcome_text blocked = js "blocked"

unfoldable pub action_text : AuditAction → JsString
action_text document_validate = js "document.validate"
action_text state_inspect = js "state.inspect"
action_text plan_create = js "plan.create"
action_text plan_approve = js "plan.approve"
action_text plan_apply = js "plan.apply"
action_text change_apply = js "change.apply"
action_text operation_verify = js "operation.verify"
action_text operation_cancel = js "operation.cancel"
action_text policy_deny = js "policy.deny"
action_text secret_resolve = js "secret.resolve"

pub record AuditEventBody : Type 0 where
  pub id : JsString
  pub sequence : ℕ
  pub timestamp : JsString
  pub actor : Actor
  pub action : AuditAction
  pub outcome : AuditOutcome
  pub metadata : Entries
  pub previous_event_hash : Option JsString
  pub resource_type : Option JsString
  pub resource_key : Option JsString
  pub plan_id : Option JsString
  pub operation_id : Option JsString
  pub request_id : Option JsString

pub record AuditEvent : Type 0 where
  pub body : AuditEventBody
  pub event_hash : JsString

pub record AuditEventInput : Type 0 where
  pub actor : Actor
  pub action : AuditAction
  pub outcome : AuditOutcome
  pub resource_type : Option JsString
  pub resource_key : Option JsString
  pub plan_id : Option JsString
  pub operation_id : Option JsString
  pub request_id : Option JsString
  pub metadata : Option Entries

pub record Break : Type 0 where
  pub sequence : ℕ
  pub event_id : JsString
  pub reason : JsString

pub record AuditChainVerification : Type 0 where
  pub valid : Bool
  pub events : ℕ
  pub broken_at : Option Break

unfoldable actor_type_text : ActorType → JsString
actor_type_text human = js "human"
actor_type_text agent = js "agent"
actor_type_text system = js "system"

unfoldable optional : JsString → Option JsString → Entries → Entries
optional key none rest = rest
optional key (some s) rest = entry key (text s) rest

unfoldable text_or_null : Option JsString → Value
text_or_null none = null
text_or_null (some s) = text s

-- The body as the object that is hashed
unfoldable pub body_value : AuditEventBody → Value
unfolding actor_type_text optional text_or_null action_text outcome_text integer
body_value b =
    let actor = object (
      entry (js "type") (text (actor_type_text b.actor.type))
        (entry (js "id") (text b.actor.id) end)) in
    let rest = optional (js "resourceType") b.resource_type (
      optional (js "resourceKey") b.resource_key (
        optional (js "planId") b.plan_id (
          optional (js "operationId") b.operation_id
            (optional (js "requestId") b.request_id end)))) in
    object (
      entry (js "id") (text b.id) (
        entry (js "sequence") (integer b.sequence) (
          entry (js "timestamp") (text b.timestamp) (
            entry (js "actor") actor (
              entry (js "action") (text (action_text b.action)) (
                entry (js "outcome") (text (outcome_text b.outcome)) (
                  entry (js "metadata") (object b.metadata) (
                    entry (js "previousEventHash") (text_or_null b.previous_event_hash) rest))))))))

-- `previous === null ? 1 : previous.sequence + 1`
unfoldable pub expected_sequence : Option AuditEvent → ℕ
expected_sequence none = 1
expected_sequence (some previous) = previous.body.sequence + 1

-- `previous === null ? null : previous.eventHash`
unfoldable pub expected_previous : Option AuditEvent → Option JsString
expected_previous none = none
expected_previous (some previous) = some previous.event_hash

unfoldable pub same_hash : Option JsString → Option JsString → Bool
same_hash none none = true
same_hash (some a) (some b) = str_eq a b
same_hash _ _ = false

unfoldable pub metadata_or_empty : Option Entries → Entries
metadata_or_empty none = end
metadata_or_empty (some m) = m

unfoldable pub event_body :
    AuditEventInput → Option AuditEvent → (timestamp id : JsString) → AuditEventBody
unfolding expected_sequence expected_previous metadata_or_empty
event_body input previous timestamp id = record {
  id = id;
  sequence = expected_sequence previous;
  timestamp = timestamp;
  actor = input.actor;
  action = input.action;
  outcome = input.outcome;
  metadata = metadata_or_empty input.metadata;
  previous_event_hash = expected_previous previous;
  resource_type = input.resource_type;
  resource_key = input.resource_key;
  plan_id = input.plan_id;
  operation_id = input.operation_id;
  request_id = input.request_id;
}

unfoldable pub with_hash : AuditEventBody → Result JsString → Result AuditEvent
with_hash body (return hash) = return (record { body = body; event_hash = hash })
with_hash body (throw e) = throw e

abbrev pub valid_chain : ℕ → AuditChainVerification
valid_chain total = record { valid = true; events = total; broken_at = none }

abbrev pub broken : AuditEvent → JsString → ℕ → AuditChainVerification
broken event reason total = record {
  valid = false;
  events = total;
  broken_at =
      some (record { sequence = event.body.sequence; event_id = event.body.id; reason = reason });
}

-- The comparison of the hash of an event with the hash of its contents
unfoldable pub check_hash :
    Result JsString → AuditEvent → ℕ → Result AuditChainVerification → Result AuditChainVerification
check_hash (throw e) event total rest = throw e
check_hash (return hash) event total rest =
    if str_eq hash event.event_hash
    then rest
    else return (broken event (js "eventHash does not match the event contents") total)

module _ (number_text : ℕ → JsString) (sha256_hex : JsString → JsString) where
  unfoldable pub compute_event_hash : AuditEventBody → Result JsString
  unfolding hash_canonical body_value
  compute_event_hash body = hash_canonical number_text sha256_hex (body_value body)

  unfoldable pub create_audit_event :
      AuditEventInput → Option AuditEvent → (timestamp id : JsString) → Result AuditEvent
  unfolding compute_event_hash event_body with_hash
  create_audit_event input previous timestamp id =
      let body = event_body input previous timestamp id in with_hash body (compute_event_hash body)

  -- The rounds of the loop behind the event `previous`, of a chain of `total` events
  unfoldable pub verify_from :
      ℕ → Option AuditEvent → List AuditEvent → Result AuditChainVerification
  unfolding expected_sequence expected_previous same_hash compute_event_hash check_hash
  verify_from total previous [] = return (valid_chain total)
  verify_from total previous (event ∷ events) =
      let rest = verify_from total (some event) events in
      let expected = expected_sequence previous in
      let gap =
        js "Expected sequence "
        ++ decimal expected
        ++ js ", found "
        ++ decimal event.body.sequence in
      let checked = check_hash (compute_event_hash event.body) event total rest in
      if not (event.body.sequence == expected)
      then return (broken event gap total)
      else if not (same_hash event.body.previous_event_hash (expected_previous previous))
      then return (broken event (js "previousEventHash does not match the preceding event") total)
      else checked

  unfoldable pub verify_chain : List AuditEvent → Result AuditChainVerification
  unfolding verify_from
  verify_chain events = verify_from (length events) none events
