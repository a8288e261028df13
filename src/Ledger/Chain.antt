-- ===== src/Ledger/Chain.antt =====
-- What `verify_chain` accepts: the chains of signed events, and these alone.
use soverign_founder_os.Base.{
  ◌≡◌, refl, ◌↔◌, String, some, List, [], ◌∷◌, ok, string_eq, option_eq, arith, >>=-eq-ok,
  Option-cases, inl, inr,
}
use text.Mathlib.TextEquality.{eq_iff}
use soverign_founder_os.Base.Text.{codes}
use soverign_founder_os.Contracts.{AuditEvent, event_body}
use soverign_founder_os.External.{Crypto}
use soverign_founder_os.Identity.Device.{verify_legacy_v1}
use soverign_founder_os.Ledger.{
  Json, genesis_hash, hash_event_body, verify_event, verify_from, verify_chain, from_events,
}

module _ {Value : Type 0} (c : Crypto) (j : Json Value) where
  -- The event names its predecessor's hash and its own, and a signature of the trusted device over
  -- its hash verifies.
  pub record IsLink (key previous : String) (event : AuditEvent) : Type 0 where
    pub trusted : event.device_public_key_b64 ≡ key
    pub follows : event.previous_event_hash ≡ previous
    pub hashed : hash_event_body c j (event_body event) ≡ event.event_hash
    pub signature : String
    pub present : event.device_signature ≡ some signature
    pub signed : verify_legacy_v1 c key (codes event.event_hash) signature ≡ ok tt

  -- Each event is linked to the one before it, and the first one to `previous`.
  pub data IsChain (key : String) : String → List AuditEvent → Type 0 where
    start : {previous : String} → IsChain key previous []
    link :
        {previous : String} {event : AuditEvent} {events : List AuditEvent}
        → IsLink key previous event
        → IsChain key event.event_hash events
        → IsChain key previous (event ∷ events)

  module _ (key : String) where
    verify_event-IsLink :
        (previous : String) (event : AuditEvent)
        → verify_event c j (some key) previous event ≡ ok tt
        → IsLink key previous event
    unfolding verify_event
    verify_event-IsLink previous event h = elim (Option-cases event.device_signature) [
      | inl unsigned ↦ ground (
        arith,
        eq_iff key event.device_public_key_b64,
        eq_iff event.previous_event_hash previous,
        eq_iff (hash_event_body c j (event_body event)) event.event_hash,
      )
      | inr (signature, present) ↦ record {
        trusted = ground (arith, eq_iff key event.device_public_key_b64);
        follows = ground (arith, eq_iff event.previous_event_hash previous);
        hashed = ground (arith, eq_iff (hash_event_body c j (event_body event)) event.event_hash);
        signature = signature;
        present = present;
        signed = ground (arith, eq_iff key event.device_public_key_b64);
      }
    ]

    IsLink-verify_event :
        (previous : String) (event : AuditEvent)
        → IsLink key previous event
        → verify_event c j (some key) previous event ≡ ok tt
    unfolding verify_event
    IsLink-verify_event previous event l = ground (
      arith,
      eq_iff key event.device_public_key_b64,
      eq_iff event.previous_event_hash previous,
      eq_iff (hash_event_body c j (event_body event)) event.event_hash,
      l.trusted,
      l.follows,
      l.hashed,
      l.present,
      l.signed,
    )

    pub verify_from-IsChain :
        (previous : String) (events : List AuditEvent)
        → verify_from c j (some key) previous events ≡ ok tt
        → IsChain key previous events
    unfolding verify_from
    verify_from-IsChain previous [] h = start
    verify_from-IsChain previous (event ∷ events) h =
        let (u, first, rest) =
          >>=-eq-ok (verify_event c j (some key) previous event)
            (λ _. verify_from c j (some key) event.event_hash events) h in
        link (verify_event-IsLink previous event first)
          (verify_from-IsChain event.event_hash events rest)

    pub IsChain-verify_from :
        (previous : String) (events : List AuditEvent)
        → IsChain key previous events
        → verify_from c j (some key) previous events ≡ ok tt
    unfolding verify_from
    IsChain-verify_from previous [] start = refl
    IsChain-verify_from previous (event ∷ events) (link l rest) =
        rw (IsLink-verify_event previous event l) (IsChain-verify_from event.event_hash events rest)

    -- `from_events` accepts a history under a trusted key exactly when it is a chain from the genesis
    -- hash whose every event is hashed, linked and signed by that key; and it returns that history.
    pub from_events-IsChain :
        (events : List AuditEvent)
        → (from_events c j events key
            ≡ ok (record { events = events; trusted_device_public_key_b64 = some key }))
          ↔ IsChain key genesis_hash events
    unfolding from_events verify_chain
    from_events-IsChain events = (
      λ h. verify_from-IsChain genesis_hash events (>>=-eq-ok _ _ h).1,
      λ chain. rw (IsChain-verify_from genesis_hash events chain),
    )
