-- ===== src/Ledger/Append.antt =====
-- `append` only extends the chain, and what it builds verifies and survives `save` and `load`.
use soverign_founder_os.Base.{
  All, ◌==◌, ◌∙◌, subst, ==-eq, Bool-cases, ◌↔◌, ◌≡◌, refl, ap, String, Option, none, some, List,
  [], ◌∷◌, ◌++◌, Result, ok, err, arith, ◌⊎◌, inl, inr, ◌≢◌, string_eq,
}
use text.Mathlib.TextEquality.{eq_iff}
use soverign_founder_os.Base.Text.{Bytes, codes}
use soverign_founder_os.Contracts.{Uuid, DateTime, AuditEvent}
use soverign_founder_os.External.{Crypto}
use soverign_founder_os.Identity.Device.{
  DeviceIdentity, IsDevice, sign_legacy_v1, verify-sign_legacy_v1,
}
use soverign_founder_os.Ledger.{
  Json, AuditLedger, AppendInput, LedgerError, genesis_hash, last_hash_from, append, append_payload,
  append_trusting, device_mismatch, new_event, save, load, new_ledger, verify_chain, from_events,
}
use soverign_founder_os.Ledger.Chain.{IsLink, IsChain, start, link, IsChain-verify_from}

module _ {Value : Type 0} (c : Crypto) (j : Json Value) where
  IsChain-snoc :
      (key previous : String) (events : List AuditEvent) (event : AuditEvent)
      → IsChain c j key previous events
      → IsLink c j key (last_hash_from previous events) event
      → IsChain c j key previous (events ++ event ∷ [])
  IsChain-snoc key previous [] event start l = link l start
  IsChain-snoc key previous (e ∷ events) event (link first rest) l =
      link first (IsChain-snoc key e.event_hash events event rest l)

  -- Nobody is trusted yet and nothing is recorded, or the events are a chain of the trusted device.
  abbrev pub IsValid : AuditLedger → Type 0
  IsValid ledger =
      ((ledger.trusted_device_public_key_b64 ≡ none) × (ledger.events ≡ []))
      ⊎ ((key : String) × (ledger.trusted_device_public_key_b64 ≡ some key)
          × IsChain c j key genesis_hash ledger.events)

  module _ (event_id : Uuid) (now : DateTime) (input : AppendInput Value)
      (device : DeviceIdentity) where
    new_event-IsLink :
        (payload : Bytes) (previous : String)
        → IsDevice c device
        → IsLink c j device.public_key_b64 previous
            (new_event c j event_id now input device payload previous)
    unfolding new_event
    new_event-IsLink payload previous own = record {
      trusted = refl;
      follows = refl;
      hashed = refl;
      signature = sign_legacy_v1 c device (codes _);
      present = refl;
      signed = verify-sign_legacy_v1 c device _ own;
    }

    append_payload-IsChain :
        (ledger : AuditLedger) (r : Result String Bytes)
        → IsDevice c device
        → IsChain c j device.public_key_b64 genesis_hash ledger.events
        → IsChain c j device.public_key_b64 genesis_hash
            (append_payload c j event_id now input device ledger r).1.events
    unfolding append_payload
    append_payload-IsChain ledger (err reason) own chain = chain
    append_payload-IsChain ledger (ok payload) own chain =
        IsChain-snoc _ _ ledger.events _ chain (new_event-IsLink payload _ own)

    append_payload-trusted :
        (ledger : AuditLedger) (r : Result String Bytes)
        → (append_payload c j event_id now input device ledger r).1.trusted_device_public_key_b64
          ≡ ledger.trusted_device_public_key_b64
    unfolding append_payload
    append_payload-trusted ledger (err reason) = refl
    append_payload-trusted ledger (ok payload) = refl

    append_trusting-IsValid :
        (ledger : AuditLedger) (trusted : Option String)
        → ledger.trusted_device_public_key_b64 ≡ trusted
        → IsDevice c device
        → IsValid ledger
        → IsValid (append_trusting c j event_id now input device ledger trusted).1
    unfolding append_trusting
    append_trusting-IsValid ledger (some key) e own (inl nobody) = absurd (ground arith)
    append_trusting-IsValid ledger (some key) e own (inr (k, t, chain)) =
        elim (Bool-cases (key == device.public_key_b64)) [
          | inr other ↦ rw other (inr (k, t, chain))
          | inl same ↦ rw same (
              let ledger_chain =
                subst (λ (x : String). IsChain c j x genesis_hash ledger.events)
                  (ground (arith, eq_iff key device.public_key_b64)) chain in
              inr (
                device.public_key_b64,
                append_payload-trusted ledger _ ∙ e ∙ ap some (==-eq same),
                append_payload-IsChain ledger _ own ledger_chain,
              ))
        ]
    append_trusting-IsValid ledger none e own (inr (k, t, chain)) = absurd (ground arith)
    append_trusting-IsValid ledger none e own (inl (t, fresh)) =
        let trusting : AuditLedger = record ledger {
          trusted_device_public_key_b64 = some device.public_key_b64;
        } in
        inr (
          device.public_key_b64,
          append_payload-trusted trusting _,
          append_payload-IsChain trusting _ own (rw fresh start),
        )

    -- Whether it succeeds or fails, an append by a device leaves a ledger that is a chain of its
    -- trusted device, if it was one before.
    pub append-IsValid :
        (ledger : AuditLedger)
        → IsDevice c device
        → IsValid ledger
        → IsValid (append c j event_id now input device ledger).1
    unfolding append
    append-IsValid ledger own valid = append_trusting-IsValid ledger _ refl own valid

    -- The events grow by the returned event at the end, or an error leaves them alone.
    pub IsExtended : AuditLedger → Result LedgerError AuditEvent × AuditLedger → Type 0
    IsExtended ledger (ok event, after) = after.events ≡ ledger.events ++ event ∷ []
    IsExtended ledger (err e, after) = after.events ≡ ledger.events

    -- Another device is the trusted one.
    abbrev pub IsOther : Option String → Type 0
    IsOther trusted = (key : String) × (trusted ≡ some key) × (key ≢ device.public_key_b64)

    append_payload_only :
        (ledger : AuditLedger) (payload : Result String Bytes)
        → IsExtended ledger (append_payload c j event_id now input device ledger payload)
          × ((append_payload c j event_id now input device ledger payload).0 ≢ err device_mismatch)
    unfolding append_payload IsExtended
    append_payload_only ledger (ok bytes) = (refl, λ h. cc)
    append_payload_only ledger (err reason) = (refl, λ h. ground arith)

    append_trusting_only :
        (ledger : AuditLedger) (trusted : Option String)
        → IsExtended ledger (append_trusting c j event_id now input device ledger trusted)
          × (((append_trusting c j event_id now input device ledger trusted).0
                ≡ err device_mismatch)
              ↔ IsOther trusted)
    unfolding append_trusting IsExtended
    append_trusting_only ledger none =
        let trusting : AuditLedger = record ledger {
          trusted_device_public_key_b64 = some device.public_key_b64;
        } in
        let (kept, other) = append_payload_only trusting (j.value_to_vec input.payload) in
        (kept, (λ h. absurd (other h), λ (k, t, n). absurd (ground arith)))
    append_trusting_only ledger (some key) = elim (Bool-cases (key == device.public_key_b64)) [
      | inl same ↦
          let (kept, other) = append_payload_only ledger (j.value_to_vec input.payload) in
          rw same (
            kept,
            (
              λ h. absurd (other h),
              λ (k, t, n). absurd (ground (arith, eq_iff key device.public_key_b64)),
            ),
          )
      | inr differ ↦
          rw differ
            (refl, (λ h. (key, refl, ground (arith, eq_iff key device.public_key_b64)), λ d. refl))
    ]

    -- An append that succeeds keeps every earlier event and adds the returned one at the end; one
    -- that fails leaves the events alone. It fails with `device_mismatch` exactly where another
    -- device is the trusted one.
    pub append_only :
        (ledger : AuditLedger)
        → IsExtended ledger (append c j event_id now input device ledger)
          × (((append c j event_id now input device ledger).0 ≡ err device_mismatch)
              ↔ IsOther ledger.trusted_device_public_key_b64)
    unfolding append
    append_only ledger = append_trusting_only ledger ledger.trusted_device_public_key_b64

  -- A call of `append`, with the id and the time that it draws.
  pub record Call : Type 0 where
    pub event_id : Uuid
    pub now : DateTime
    pub input : AppendInput Value
    pub device : DeviceIdentity

  unfoldable pub append_all : AuditLedger → List Call → AuditLedger
  append_all ledger [] = ledger
  append_all ledger (call ∷ calls) =
      append_all (append c j call.event_id call.now call.input call.device ledger).1 calls

  append_all-IsValid :
      (ledger : AuditLedger) (calls : List Call)
      → All (λ call. IsDevice c call.device) calls
      → IsValid ledger
      → IsValid (append_all ledger calls)
  unfolding append_all
  append_all-IsValid ledger [] own valid = valid
  append_all-IsValid ledger (call ∷ calls) own valid =
      append_all-IsValid (append c j call.event_id call.now call.input call.device ledger).1 calls
        own.1 (append-IsValid call.event_id call.now call.input call.device ledger own.0 valid)

  IsValid-load :
      (ledger : AuditLedger) (key : String) (bytes : Bytes)
      → ledger.trusted_device_public_key_b64 ≡ some key
      → save c j ledger ≡ ok bytes
      → IsValid ledger
      → load c j bytes key ≡ ok ledger
  unfolding load save from_events verify_chain
  IsValid-load ledger key bytes t h (inl nobody) = absurd (ground arith)
  IsValid-load ledger key bytes t h (inr (k, e, chain)) =
      let own_chain : IsChain c j key genesis_hash ledger.events =
        subst (λ (x : String). IsChain c j x genesis_hash ledger.events) (cc) chain in
      rw
        (
          j.from-to ledger.events bytes (ground arith),
          IsChain-verify_from c j key genesis_hash ledger.events own_chain,
        )
        (ground arith)

  -- After any calls of `append` by devices on a new ledger, failed ones among them, the saved bytes
  -- load under the trusted key as the very ledger that was saved.
  pub load-save :
      (calls : List Call) (key : String) (bytes : Bytes)
      → All (λ call. IsDevice c call.device) calls
      → (append_all new_ledger calls).trusted_device_public_key_b64 ≡ some key
      → save c j (append_all new_ledger calls) ≡ ok bytes
      → load c j bytes key ≡ ok (append_all new_ledger calls)
  load-save calls key bytes own t h =
      IsValid-load _ key bytes t h (append_all-IsValid new_ledger calls own (inl (refl, refl)))
