-- ===== src/Audit/Chain/Linked.antt =====
-- packages/audit/src/chain.ts: what an accepted chain is, and how it grows.
use desired_state_protocol.Common.{
  ℕ, Bool, true, false, List, [], ◌∷◌, ◌==◌, length, Option, none, some, JsString, str_eq_sound,
  str_eq_refl, not, if◌then◌else◌, ◌≡◌, ◌↔◌, refl, ap, arith,
}
use desired_state_protocol.Protocol.Errors.{Result, return, throw}
use desired_state_protocol.Audit.Chain.{
  AuditEvent, AuditChainVerification, valid_chain, broken, check_hash, same_hash, expected_sequence,
  expected_previous, compute_event_hash, verify_from, verify_chain,
}

same_hash_sound : (a b : Option JsString) → same_hash a b ≡ true → a ≡ b
unfolding same_hash
same_hash_sound none none h = refl
same_hash_sound none (some b) h = cc
same_hash_sound (some a) none h = cc
same_hash_sound (some a) (some b) h = ap some (str_eq_sound a b h)

same_hash_refl : (a : Option JsString) → same_hash a a ≡ true
unfolding same_hash
same_hash_refl none = refl
same_hash_refl (some a) = str_eq_refl a

unfoldable pub is_valid : Result AuditChainVerification → Bool
is_valid (return v) = v.valid
is_valid (throw e) = false

passed-is_valid :
    (b c : Bool) (event : AuditEvent) (gap link : JsString) (total : ℕ)
    (checked : Result AuditChainVerification)
    → is_valid (
        if not b
        then return (broken event gap total)
        else if not c
        then return (broken event link total)
        else checked)
      ≡ true
    → (b ≡ true) × (c ≡ true) × (is_valid checked ≡ true)
unfolding is_valid
passed-is_valid true true event gap link total checked h = (refl, refl, h)
passed-is_valid true false event gap link total checked h = cc
passed-is_valid false c event gap link total checked h = cc

module _ (number_text : ℕ → JsString) (sha256_hex : JsString → JsString) where
  -- An event that follows what stands before it
  unfoldable pub IsNext : Option AuditEvent → AuditEvent → Type 0
  IsNext previous event =
      (event.body.sequence ≡ expected_sequence previous)
      × (event.body.previous_event_hash ≡ expected_previous previous)
      × (compute_event_hash number_text sha256_hex event.body ≡ return event.event_hash)

  unfoldable pub IsLinked : Option AuditEvent → List AuditEvent → Type 0
  unfolding IsNext
  IsLinked previous [] = Unit
  IsLinked previous (event ∷ events) = IsNext previous event × IsLinked (some event) events

  check_hash-next :
      (r : Result JsString) (event : AuditEvent) (total : ℕ) (rest : Result AuditChainVerification)
      → is_valid (check_hash r event total rest) ≡ true
      → (r ≡ return event.event_hash) × (is_valid rest ≡ true)
  unfolding check_hash is_valid
  check_hash-next (throw e) event total rest h = cc
  check_hash-next (return hash) event total rest h =
      ground (arith, str_eq_sound hash event.event_hash)

  verify_from-IsLinked :
      (total : ℕ) (previous : Option AuditEvent) (events : List AuditEvent)
      → is_valid (verify_from number_text sha256_hex total previous events) ≡ true
      → IsLinked previous events
  unfolding verify_from IsLinked is_valid
  verify_from-IsLinked total previous [] h = tt
  verify_from-IsLinked total previous (event ∷ events) h =
      let body = event.body in
      let rest = verify_from number_text sha256_hex total (some event) events in
      let hash = compute_event_hash number_text sha256_hex body in
      let (numbered, linked, checked) =
        passed-is_valid (body.sequence == expected_sequence previous)
          (same_hash body.previous_event_hash (expected_previous previous)) event _ _ total
          (check_hash hash event total rest) h in
      let (hashed, later) = check_hash-next hash event total rest checked in
      (
        (
          ground (arith, numbered),
          same_hash_sound body.previous_event_hash (expected_previous previous) linked,
          hashed,
        ),
        verify_from-IsLinked total (some event) events later,
      )

  IsLinked-verify_from :
      (total : ℕ) (previous : Option AuditEvent) (events : List AuditEvent)
      → IsLinked previous events
      → verify_from number_text sha256_hex total previous events ≡ return (valid_chain total)
  unfolding verify_from IsLinked check_hash
  IsLinked-verify_from total previous [] h = refl
  IsLinked-verify_from total previous (event ∷ events) ((numbered, linked, hashed), later) =
      ground (
        arith,
        numbered,
        linked,
        hashed,
        str_eq_refl event.event_hash,
        same_hash_refl (expected_previous previous),
        IsLinked-verify_from total (some event) events later,
      )

  -- A chain is found valid exactly if each event has the number and the link that those before it
  -- ask for and the hash of its own contents; the result is then that of a valid chain.
  pub verify_chain-IsLinked :
      (events : List AuditEvent)
      → ((is_valid (verify_chain number_text sha256_hex events) ≡ true) ↔ IsLinked none events)
        × (IsLinked none events
            ↔ (verify_chain number_text sha256_hex events ≡ return (valid_chain (length events))))
  unfolding verify_chain is_valid
  verify_chain-IsLinked events =
      let total = length events in
      let sound = verify_from-IsLinked total none events in
      let complete = IsLinked-verify_from total none events in
      ((sound, λ linked. rw (complete linked) refl), (complete, λ valid. sound (rw valid refl)))
