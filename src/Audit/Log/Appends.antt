-- ===== src/Audit/Log/Appends.antt =====
-- packages/audit/src/audit-log.ts: what appending keeps.
use desired_state_protocol.Common.{
  ℕ, List, [], ◌∷◌, ◌++◌, length, get_last?, get_last?-snoc, Option, none, some, JsString, ◌≡◌,
  refl, sym, ap, subst, ◌∙◌,
}
use desired_state_protocol.Protocol.Errors.{Result, return, throw}
use desired_state_protocol.Protocol.Value.{Entries}
use desired_state_protocol.Audit.Chain.{
  AuditEvent, AuditEventBody, AuditEventInput, create_audit_event, with_hash, event_body,
  compute_event_hash, valid_chain,
}
use desired_state_protocol.Audit.Chain.Linked.{IsNext, IsLinked, verify_chain-IsLinked}
use desired_state_protocol.Audit.Log.{
  Log, Request, open_log, append_event, redacted, record_event, record_all, verify,
}

-- What an outcome says of the events before and after
unfoldable pub Stores : List AuditEvent → Result AuditEvent → List AuditEvent → Type 0
Stores before (return event) after = after ≡ before ++ event ∷ []
Stores before (throw e) after = after ≡ before

last_behind : Option AuditEvent → List AuditEvent → Option AuditEvent
last_behind previous [] = previous
last_behind previous (event ∷ events) = last_behind (some event) events

last_behind-get_last? :
    (event : AuditEvent) (events : List AuditEvent)
    → last_behind (some event) events ≡ get_last? (event ∷ events)
unfolding last_behind
last_behind-get_last? event [] = refl
last_behind-get_last? event (next ∷ events) = last_behind-get_last? next events

abbrev event_or : AuditEvent → Result AuditEvent → AuditEvent
event_or default (return event) = event
event_or default (throw e) = default

module _ (number_text : ℕ → JsString) (sha256_hex : JsString → JsString) where
  IsLinked-behind :
      (previous : Option AuditEvent) (events : List AuditEvent) (event : AuditEvent)
      → IsLinked number_text sha256_hex previous events
      → IsNext number_text sha256_hex (last_behind previous events) event
      → IsLinked number_text sha256_hex previous (events ++ event ∷ [])
  unfolding IsLinked last_behind
  IsLinked-behind previous [] event linked next = (next, tt)
  IsLinked-behind previous (first ∷ events) event (one, linked) next =
      (one, IsLinked-behind (some first) events event linked next)

  IsLinked-append :
      (events : List AuditEvent) (event : AuditEvent)
      → IsLinked number_text sha256_hex none events
      → IsNext number_text sha256_hex (get_last? events) event
      → IsLinked number_text sha256_hex none (events ++ event ∷ [])
  unfolding last_behind
  IsLinked-append [] event linked next = IsLinked-behind none [] event linked next
  IsLinked-append (first ∷ events) event linked next =
      IsLinked-behind none (first ∷ events) event linked (
        subst (λ last. IsNext number_text sha256_hex last event)
          (sym (last_behind-get_last? first events)) next)

  with_hash-body :
      (body : AuditEventBody) (hash : Result JsString) (event : AuditEvent)
      → with_hash body hash ≡ return event
      → (event.body ≡ body) × (hash ≡ return event.event_hash)
  unfolding with_hash
  with_hash-body body (throw e) event h = cc
  with_hash-body body (return t) event h =
      let same = ap (event_or event) h in
      (ap (λ e. e.body) (sym same), ap (λ e. return e.event_hash) same)

  create_audit_event-IsNext :
      (input : AuditEventInput) (previous : Option AuditEvent) (timestamp id : JsString)
      (event : AuditEvent)
      → create_audit_event number_text sha256_hex input previous timestamp id ≡ return event
      → IsNext number_text sha256_hex previous event
  unfolding IsNext create_audit_event event_body
  create_audit_event-IsNext input previous timestamp id event h =
      let body = event_body input previous timestamp id in
      let (same, hashed) =
        with_hash-body body (compute_event_hash number_text sha256_hex body) event h in
      (
        ap (λ b. b.sequence) same,
        ap (λ b. b.previous_event_hash) same,
        ap (compute_event_hash number_text sha256_hex) same ∙ hashed,
      )

module _ (number_text : ℕ → JsString) (sha256_hex : JsString → JsString)
    (redact : Entries → Entries) where
  -- A log whose events are an accepted chain, the last of which is its tail
  unfoldable pub IsSound : Log → Type 0
  IsSound log = IsLinked number_text sha256_hex none log.events × (log.tail ≡ get_last? log.events)

  append_event-IsSound :
      (events : List AuditEvent) (created : Result AuditEvent) (answer : Result (Unit {0}))
      → IsLinked number_text sha256_hex none events
      → ((event : AuditEvent)
          → created ≡ return event
          → IsNext number_text sha256_hex (get_last? events) event)
      → IsSound (append_event created answer events).1
        × Stores events
            (append_event created answer events).0
            (append_event created answer events).1.events
  unfolding append_event IsSound Stores
  append_event-IsSound events (throw e) answer linked next = ((linked, refl), refl)
  append_event-IsSound events (return event) (throw e) linked next = ((linked, refl), refl)
  append_event-IsSound events (return event) (return u) linked next = (
    (
      IsLinked-append number_text sha256_hex events event linked (next event refl),
      sym (get_last?-snoc events event),
    ),
    refl,
  )

  -- A call of `record` on a sound log leaves a sound log, whatever the store and the hash answer: it
  -- returns the event that it appended, or throws and stores nothing.
  pub record_event-IsSound :
      (request : Request) (log : Log)
      → IsSound log
      → IsSound (record_event number_text sha256_hex redact request log).1
        × Stores log.events
            (record_event number_text sha256_hex redact request log).0
            (record_event number_text sha256_hex redact request log).1.events
  unfolding record_event IsSound
  record_event-IsSound request log (linked, tail) =
      let input = redacted redact request.input in
      append_event-IsSound log.events
        (create_audit_event number_text sha256_hex input log.tail request.timestamp request.id)
        request.appended linked
        (λ event made.
          subst (λ last. IsNext number_text sha256_hex last event) tail
            (create_audit_event-IsNext number_text sha256_hex input log.tail request.timestamp
              request.id event made))

  pub record_all-IsSound :
      (requests : List Request) (log : Log)
      → IsSound log
      → IsSound (record_all number_text sha256_hex redact requests log)
  unfolding record_all
  record_all-IsSound [] log sound = sound
  record_all-IsSound (request ∷ requests) log sound =
      record_all-IsSound requests (record_event number_text sha256_hex redact request log).1
        (record_event-IsSound request log sound).0

  -- Whatever is recorded on a log that is opened on an accepted chain, and whichever appends fail,
  -- `verify` finds the chain valid.
  pub verify-record_all :
      (requests : List Request) (events : List AuditEvent)
      → IsLinked number_text sha256_hex none events
      → (let log = record_all number_text sha256_hex redact requests (open_log events) in
          verify number_text sha256_hex redact log ≡ return (valid_chain (length log.events)))
  unfolding verify open_log IsSound
  verify-record_all requests events linked =
      let log = record_all number_text sha256_hex redact requests (open_log events) in
      (verify_chain-IsLinked number_text sha256_hex log.events).1.0
        (record_all-IsSound requests (open_log events) (linked, refl)).0
