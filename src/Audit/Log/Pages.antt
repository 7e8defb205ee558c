-- ===== src/Audit/Log/Pages.antt =====
-- packages/audit/src/store.ts: the pages of a chain.
use desired_state_protocol.Common.{
  ℕ, zero, suc, ◌-◌, ◌≤◌, ◌<◌, List, [], ◌∷◌, filter, take, drop, Option, none, some, JsString, ltb,
  ◌≡◌, refl, sym, ap, ◌∙◌, arith,
}
use desired_state_protocol.Audit.Chain.{AuditEvent, expected_sequence}
use desired_state_protocol.Audit.Chain.Linked.{IsNext, IsLinked}
use desired_state_protocol.Audit.Log.{AuditQuery, list_events}

abbrev pub page_query : Option ℕ → ℕ → AuditQuery
page_query limit after = record {
  limit = limit;
  after_sequence = some after;
  plan_id = none;
  operation_id = none;
  action = none;
}

drop_behind :
    (after k : ℕ) (event : AuditEvent) (events : List AuditEvent)
    → k < after
    → drop (after - k) (event ∷ events) ≡ drop (after - suc k) events
drop_behind after k event events h =
    let e : after - k ≡ suc (after - suc k) = omega arith in rw e refl

drop_none : (after k : ℕ) (events : List AuditEvent) → after ≤ k → drop (after - k) events ≡ events
drop_none after k events h = let e : after - k ≡ zero = omega arith in rw e refl

drop_nothing : (n : ℕ) → drop {A = AuditEvent} n [] ≡ []
drop_nothing zero = refl
drop_nothing (suc n) = refl

drop_from : (after : ℕ) (events : List AuditEvent) → drop (after - 0) events ≡ drop after events
drop_from after events = let e : after - 0 ≡ after = omega arith in rw e refl

next_sequence :
    (k : ℕ) (event : AuditEvent)
    → event.body.sequence ≡ suc k
    → expected_sequence (some event) ≡ suc (suc k)
unfolding expected_sequence
next_sequence k event h = omega arith

module _ (number_text : ℕ → JsString) (sha256_hex : JsString → JsString) where
  after_sequence-drop :
      (after k : ℕ) (previous : Option AuditEvent) (events : List AuditEvent)
      → expected_sequence previous ≡ suc k
      → IsLinked number_text sha256_hex previous events
      → filter (λ event. ltb after event.body.sequence) events ≡ drop (after - k) events
  unfolding IsLinked IsNext expected_sequence
  after_sequence-drop after k previous [] e linked = sym (drop_nothing (after - k))
  after_sequence-drop after k previous (event ∷ events) e ((numbered, link, hashed), linked) =
      let number = numbered ∙ e in
      let later =
        after_sequence-drop after (suc k) (some event) events (next_sequence k event number)
          linked in
      ground (
        arith,
        number,
        later,
        drop_behind after k event events,
        drop_none after k (event ∷ events),
        drop_none after (suc k) events,
      )

  -- Of an accepted chain, the events behind the sequence `after` are the chain without its first
  -- `after` events, and with a limit the first `limit` of those.
  pub list_events-page :
      (events : List AuditEvent) (after limit : ℕ)
      → IsLinked number_text sha256_hex none events
      → (list_events (page_query none after) events ≡ drop after events)
        × (list_events (page_query (some limit) after) events ≡ take limit (drop after events))
  unfolding list_events expected_sequence
  list_events-page events after limit linked =
      let behind = after_sequence-drop after 0 none events refl linked ∙ drop_from after events in
      (behind, ap (take limit) behind)
