-- ===== src/Ledger/Toy.antt =====
-- A concrete `Json` for the payloads that are numbers, for the witnesses.
use soverign_founder_os.Base.{
  ℕ, ◌≡◌, refl, ap, ◌∙◌, String, Option, some, none, List, [], ◌∷◌, Result, ok,
}
use soverign_founder_os.Base.Text.{Bytes, codes}
use soverign_founder_os.Contracts.{AuditEvent, AuditEventBody, event_body}
use soverign_founder_os.External.Toy.Text.{of_codes, of_codes-codes}
use soverign_founder_os.External.Toy.Fields.{
  number_of, int_bytes, int_of, int_of-int_bytes, text_bytes, text_of, text_of-text_bytes,
  uuid_bytes, uuid_of, uuid_of-uuid_bytes, write_fields, read_fields, read_fields-write_fields,
}
use soverign_founder_os.Ledger.{Json}

abbrev all_fields : List AuditEvent → List Bytes
all_fields [] = []
all_fields (x ∷ events) =
    (x.event_id ∷ [])
    ∷ (codes x.venture_id)
    ∷ (codes x.actor_id)
    ∷ (codes x.action)
    ∷ (codes x.resource)
    ∷ (uuid_bytes x.capability_id)
    ∷ (int_bytes x.timestamp)
    ∷ (codes x.payload_hash)
    ∷ (codes x.previous_event_hash)
    ∷ (text_bytes x.policy_decision_hash)
    ∷ (codes x.device_public_key_b64)
    ∷ (codes x.event_hash)
    ∷ (text_bytes x.device_signature)
    ∷ all_fields events

abbrev of_fields : List Bytes → List AuditEvent
of_fields (b0 ∷ b1 ∷ b2 ∷ b3 ∷ b4 ∷ b5 ∷ b6 ∷ b7 ∷ b8 ∷ b9 ∷ b10 ∷ b11 ∷ b12 ∷ rest) =
    record {
      event_id = number_of b0;
      venture_id = of_codes b1;
      actor_id = of_codes b2;
      action = of_codes b3;
      resource = of_codes b4;
      capability_id = uuid_of b5;
      timestamp = int_of b6;
      payload_hash = of_codes b7;
      previous_event_hash = of_codes b8;
      policy_decision_hash = text_of b9;
      device_public_key_b64 = of_codes b10;
      event_hash = of_codes b11;
      device_signature = text_of b12;
    }
    ∷ of_fields rest
of_fields _ = []

pub of_fields-all_fields : (events : List AuditEvent) → of_fields (all_fields events) ≡ events
of_fields-all_fields [] = refl
of_fields-all_fields (x ∷ events) =
    let rest = of_fields-all_fields events in
    λ i.
      record {
        event_id = x.event_id;
        venture_id = (of_codes-codes x.venture_id) i;
        actor_id = (of_codes-codes x.actor_id) i;
        action = (of_codes-codes x.action) i;
        resource = (of_codes-codes x.resource) i;
        capability_id = (uuid_of-uuid_bytes x.capability_id) i;
        timestamp = (int_of-int_bytes x.timestamp) i;
        payload_hash = (of_codes-codes x.payload_hash) i;
        previous_event_hash = (of_codes-codes x.previous_event_hash) i;
        policy_decision_hash = (text_of-text_bytes x.policy_decision_hash) i;
        device_public_key_b64 = (of_codes-codes x.device_public_key_b64) i;
        event_hash = (of_codes-codes x.event_hash) i;
        device_signature = (text_of-text_bytes x.device_signature) i;
      }
      ∷ rest i

abbrev pub written_bytes : List AuditEvent → Bytes
written_bytes events = write_fields (all_fields events)

abbrev pub written : List AuditEvent → Result String Bytes
written events = ok (write_fields (all_fields events))

abbrev pub parsed : Bytes → Result String (List AuditEvent)
parsed b = ok (of_fields (read_fields b))

abbrev parsed_fields : List Bytes → Result String (List AuditEvent)
parsed_fields fs = ok (of_fields fs)

pub read_back :
    (events : List AuditEvent) (bytes : Bytes)
    → written events ≡ ok bytes
    → parsed bytes ≡ ok events
read_back events bytes h =
    let same : bytes ≡ write_fields (all_fields events) = cc in
    ap parsed same
    ∙ ap parsed_fields (read_fields-write_fields (all_fields events))
    ∙ ap ok (of_fields-all_fields events)

abbrev event_with : AuditEventBody → AuditEvent
event_with body = record {
  event_id = body.event_id;
  venture_id = body.venture_id;
  actor_id = body.actor_id;
  action = body.action;
  resource = body.resource;
  capability_id = body.capability_id;
  timestamp = body.timestamp;
  payload_hash = body.payload_hash;
  previous_event_hash = body.previous_event_hash;
  policy_decision_hash = body.policy_decision_hash;
  device_public_key_b64 = body.device_public_key_b64;
  event_hash = "";
  device_signature = none;
}

abbrev first_body : List AuditEvent → Option AuditEventBody
first_body [] = none
first_body (event ∷ events) = some (event_body event)

abbrev body_bytes : AuditEventBody → Bytes
body_bytes body = written_bytes (event_with body ∷ [])

abbrev body_of : Bytes → Option AuditEventBody
body_of b = first_body (of_fields (read_fields b))

abbrev first_of : List Bytes → Option AuditEventBody
first_of fields = first_body (of_fields fields)

pub body_of-body_bytes : (body : AuditEventBody) → body_of (body_bytes body) ≡ some body
body_of-body_bytes body =
    ap first_of (read_fields-write_fields (all_fields (event_with body ∷ [])))
    ∙ ap first_body (of_fields-all_fields (event_with body ∷ []))

abbrev pub toy_json : Json ℕ
toy_json = record {
  value_to_vec = λ n. ok (n ∷ []);
  body_to_vec = body_bytes;
  body_from_slice = body_of;
  body_from-to = body_of-body_bytes;
  events_to_vec = written;
  events_from_slice = parsed;
  from-to = read_back;
}
