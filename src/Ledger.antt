-- ===== src/Ledger.antt =====
-- crates/audit-ledger/src/lib.rs: the append-only chain of signed events. serde_json is a parameter;
-- the fresh event id and the time are arguments of `append`. `write_atomic`, the replacement of the
-- file, is not modelled: `save` is the bytes that it is given and `load` starts at the bytes read.
mod Chain
mod Append
mod Tamper
mod Toy
mod Tests
use soverign_founder_os.Base.{
  ◌≡◌, String, Bool, Option, some, none, List, [], ◌∷◌, ◌++◌, Result, ok, err, reject, ok_or,
  map_err, ◌>>=◌, ◌>>◌, ◌!=◌, string_eq, option_eq, if◌then◌else◌,
}
use soverign_founder_os.Base.Text.{Bytes, codes}
use soverign_founder_os.Contracts.{Uuid, DateTime, AuditEvent, AuditEventBody, event_body}
use soverign_founder_os.External.{Crypto}
use soverign_founder_os.Identity.{IdentityError}
use soverign_founder_os.Identity.Device.{DeviceIdentity, sign_legacy_v1, verify_legacy_v1}

abbrev pub genesis_hash : String
genesis_hash = "0000000000000000000000000000000000000000000000000000000000000000"

pub data LedgerError : Type 0 where
  chain_broken missing_signature untrusted_device : Uuid → LedgerError
  device_mismatch : LedgerError
  io json : String → LedgerError
  identity : IdentityError → LedgerError

pub record AppendInput (Value : Type 0) : Type 0 where
  pub venture_id : String
  pub actor_id : String
  pub action : String
  pub resource : String
  pub capability_id : Option Uuid
  pub payload : Value
  pub policy_decision_hash : Option String

pub record AuditLedger : Type 0 where
  pub events : List AuditEvent
  pub trusted_device_public_key_b64 : Option String

-- serde_json: `Value` is the type of payloads. Reading back what was written gives it again.
pub record Json (Value : Type 0) : Type 0 where
  pub value_to_vec : Value → Result String Bytes
  pub body_to_vec : AuditEventBody → Bytes
  pub body_from_slice : Bytes → Option AuditEventBody
  pub body_from-to : (body : AuditEventBody) → body_from_slice (body_to_vec body) ≡ some body
  pub events_to_vec : List AuditEvent → Result String Bytes
  pub events_from_slice : Bytes → Result String (List AuditEvent)
  pub from-to :
      (events : List AuditEvent) (bytes : Bytes)
      → events_to_vec events ≡ ok bytes
      → events_from_slice bytes ≡ ok events

-- `AuditLedger::new`
abbrev pub new_ledger : AuditLedger
new_ledger = record { events = []; trusted_device_public_key_b64 = none }

-- `events.last()`, and the hash of it or of the genesis
abbrev last_hash_from : String → List AuditEvent → String
last_hash_from hash [] = hash
last_hash_from hash (event ∷ events) = last_hash_from event.event_hash events

abbrev pub last_hash : AuditLedger → String
last_hash ledger = last_hash_from genesis_hash ledger.events

module _ {Value : Type 0} (c : Crypto) (j : Json Value) where
  abbrev pub hash_bytes : Bytes → String
  hash_bytes bytes = c.hex_encode (c.sha256 bytes)

  abbrev pub hash_event_body : AuditEventBody → String
  hash_event_body body = hash_bytes (j.body_to_vec body)

  -- one round of the loop of `verify_chain`: the checks of an event against the hash before it
  verify_event : Option String → String → AuditEvent → Result LedgerError (Unit {0})
  verify_event trusted expected_prev event = do
    reject (trusted != some event.device_public_key_b64) (untrusted_device event.event_id)
    reject (event.previous_event_hash != expected_prev) (chain_broken event.event_id)
    reject (hash_event_body (event_body event) != event.event_hash) (chain_broken event.event_id)
    signature ← ok_or event.device_signature (missing_signature event.event_id)
    map_err identity
        (verify_legacy_v1 c event.device_public_key_b64 (codes event.event_hash) signature)

  pub verify_from : Option String → String → List AuditEvent → Result LedgerError (Unit {0})
  verify_from trusted expected_prev [] = ok tt
  verify_from trusted expected_prev (event ∷ events) =
      verify_event trusted expected_prev event >> verify_from trusted event.event_hash events

  pub verify_chain : AuditLedger → Result LedgerError (Unit {0})
  unfolding verify_from
  verify_chain ledger = verify_from ledger.trusted_device_public_key_b64 genesis_hash ledger.events

  pub from_events : List AuditEvent → String → Result LedgerError AuditLedger
  from_events events trusted =
      let ledger : AuditLedger = record {
        events = events;
        trusted_device_public_key_b64 = some trusted;
      } in
      do verify_chain ledger; ok ledger

  -- the event that `append` builds, hashes and signs
  new_event : Uuid → DateTime → AppendInput Value → DeviceIdentity → Bytes → String → AuditEvent
  new_event event_id now input device payload_bytes previous_event_hash =
      let body : AuditEventBody = record {
        event_id = event_id;
        venture_id = input.venture_id;
        actor_id = input.actor_id;
        action = input.action;
        resource = input.resource;
        capability_id = input.capability_id;
        timestamp = now;
        payload_hash = hash_bytes payload_bytes;
        previous_event_hash = previous_event_hash;
        policy_decision_hash = input.policy_decision_hash;
        device_public_key_b64 = device.public_key_b64;
      } in
      let event_hash = hash_event_body body in
      record {
        event_id = body.event_id;
        venture_id = body.venture_id;
        actor_id = body.actor_id;
        action = body.action;
        resource = body.resource;
        capability_id = body.capability_id;
        timestamp = body.timestamp;
        payload_hash = body.payload_hash;
        previous_event_hash = body.previous_event_hash;
        policy_decision_hash = body.policy_decision_hash;
        device_public_key_b64 = body.device_public_key_b64;
        event_hash = event_hash;
        device_signature = some (sign_legacy_v1 c device (codes event_hash));
      }

  -- what `append` does once the device is trusted and the payload is serialized, or is not
  append_payload :
      Uuid
      → DateTime
      → AppendInput Value
      → DeviceIdentity
      → AuditLedger
      → Result String Bytes
      → Result LedgerError AuditEvent × AuditLedger
  append_payload event_id now input device ledger (err reason) = (err (json reason), ledger)
  append_payload event_id now input device ledger (ok payload_bytes) =
      let event = new_event event_id now input device payload_bytes (last_hash ledger) in
      (ok event, record ledger { events = ledger.events ++ event ∷ [] })

  -- the match of `append` on the trusted key
  append_trusting :
      Uuid
      → DateTime
      → AppendInput Value
      → DeviceIdentity
      → AuditLedger
      → Option String
      → Result LedgerError AuditEvent × AuditLedger
  append_trusting event_id now input device ledger (some key) =
      if key != device.public_key_b64
      then (err device_mismatch, ledger)
      else append_payload event_id now input device ledger (j.value_to_vec input.payload)
  append_trusting event_id now input device ledger none =
      append_payload event_id now input device
        (record ledger { trusted_device_public_key_b64 = some device.public_key_b64 })
        (j.value_to_vec input.payload)

  -- The first device to append becomes the trusted one, also where the rest of the call fails.
  pub append :
      Uuid
      → DateTime
      → AppendInput Value
      → DeviceIdentity
      → AuditLedger
      → Result LedgerError AuditEvent × AuditLedger
  unfolding append_trusting append_payload new_event
  append event_id now input device ledger =
      append_trusting event_id now input device ledger ledger.trusted_device_public_key_b64

  pub save : AuditLedger → Result LedgerError Bytes
  save ledger = map_err json (j.events_to_vec ledger.events)

  pub load : Bytes → String → Result LedgerError AuditLedger
  load bytes trusted = do
    events ← map_err json (j.events_from_slice bytes)
    from_events events trusted
