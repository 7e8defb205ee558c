-- ===== src/Audit/Examples.antt =====
-- A log of two events, and the theorems there. The digest is the text itself.
use desired_state_protocol.Common.{
  List, [], ◌∷◌, none, some, JsString, js, decimal, compare_units, take, drop, length, ◌≡◌, ◌↔◌,
  refl, true,
}
use desired_state_protocol.Protocol.Errors.{Result, return, throw, other}
use desired_state_protocol.Protocol.Risk.{human}
use desired_state_protocol.Protocol.Value.{Entries, end, entry, text}
use desired_state_protocol.Audit.Chain.{
  AuditEventInput, plan_create, success, verify_chain, valid_chain,
}
use desired_state_protocol.Audit.Chain.Linked.{IsLinked, is_valid, verify_chain-IsLinked}
use desired_state_protocol.Audit.Log.{
  Log, Request, open_log, record_event, record_all, verify, list_events,
}
use desired_state_protocol.Audit.Log.Appends.{
  IsSound, Stores, record_event-IsSound, record_all-IsSound, verify-record_all,
}
use desired_state_protocol.Audit.Log.Pages.{page_query, list_events-page}

abbrev created : AuditEventInput
created = record {
  actor = record { type = human; id = js "ann" };
  action = plan_create;
  outcome = success;
  resource_type = none;
  resource_key = none;
  plan_id = some (js "plan_1");
  operation_id = none;
  request_id = none;
  metadata = some (entry (js "note") (text (js "x")) end);
}

abbrev request : JsString → Result (Unit {0}) → Request
request id answer = record { input = created; timestamp = js "2026"; id = id; appended = answer }

abbrev requests : List Request
requests =
    request (js "a") (return tt)
    ∷ request (js "b") (throw other)
    ∷ request (js "c") (return tt)
    ∷ []

abbrev identity : JsString → JsString
identity t = t

abbrev unchanged : Entries → Entries
unchanged m = m

abbrev recorded : Log
recorded = record_all decimal identity unchanged requests (open_log [])

two_stored : length recorded.events ≡ 2
unfolding record_all open_log compare_units decimal
two_stored = refl

empty_IsSound : IsSound decimal identity unchanged (open_log [])
unfolding IsSound open_log IsLinked
empty_IsSound = (tt, refl)

recorded_IsLinked : IsLinked decimal identity none recorded.events
unfolding IsSound
recorded_IsLinked =
    (record_all-IsSound decimal identity unchanged requests (open_log []) empty_IsSound).0

verify_chain-IsLinked_example :
    ((is_valid (verify_chain decimal identity recorded.events) ≡ true)
      ↔ IsLinked decimal identity none recorded.events)
    × (IsLinked decimal identity none recorded.events ↔ (
        verify_chain decimal identity recorded.events
        ≡ return (valid_chain (length recorded.events))))
verify_chain-IsLinked_example = verify_chain-IsLinked decimal identity recorded.events

record_event-IsSound_example :
    IsSound decimal identity unchanged
      (record_event decimal identity unchanged (request (js "a") (return tt)) (open_log [])).1
    × Stores []
        (record_event decimal identity unchanged (request (js "a") (return tt)) (open_log [])).0
        (record_event decimal identity unchanged
          (request (js "a") (return tt))
          (open_log [])).1.events
unfolding open_log
record_event-IsSound_example =
    record_event-IsSound decimal identity unchanged (request (js "a") (return tt)) (open_log [])
      empty_IsSound

verify-record_all_example :
    verify decimal identity unchanged
      (record_all decimal identity unchanged requests (open_log recorded.events))
    ≡ return (
        valid_chain (
          length
            (record_all decimal identity unchanged requests (open_log recorded.events)).events))
verify-record_all_example =
    verify-record_all decimal identity unchanged requests recorded.events recorded_IsLinked

list_events-page_example :
    (list_events (page_query none 1) recorded.events ≡ drop 1 recorded.events)
    × (list_events (page_query (some 1) 1) recorded.events ≡ take 1 (drop 1 recorded.events))
list_events-page_example = list_events-page decimal identity recorded.events 1 1 recorded_IsLinked
