-- ===== src/Contracts.antt =====
-- crates/contracts/src/lib.rs: the data that the other crates exchange. A `Uuid` is its 128-bit
-- number, and a `DateTime<Utc>` is a number of ticks of the clock since the epoch.
use soverign_founder_os.Base.{ℕ, String, Bool, Option, nat_eq}
use soverign_founder_os.Base.Int.{ℤ}

abbrev pub Uuid : Type 0
Uuid = ℕ

abbrev pub nil_uuid : Uuid
nil_uuid = 0

abbrev pub DateTime : Type 0
DateTime = ℤ

pub data DataClass : Type 0 where
  red amber green : DataClass

pub data AutomationLevel : Type 0 where
  l0_suggest l1_draft l2_approve_execute l3_bounded_auto : AutomationLevel

-- the derived order compares the discriminants
abbrev pub discriminant : AutomationLevel → ℕ
discriminant l0_suggest = 0
discriminant l1_draft = 1
discriminant l2_approve_execute = 2
discriminant l3_bounded_auto = 3

pub record ActionRequest : Type 0 where
  pub actor_id : String
  pub venture_id : String
  pub tool : String
  pub operation : String
  pub resource : String
  pub data_class : DataClass
  pub automation_level : AutomationLevel

pub record PolicyDecision : Type 0 where
  pub decision_id : Uuid
  pub allowed : Bool
  pub reason : String
  pub requires_approval : Bool
  pub evaluated_at : DateTime
  pub request : ActionRequest

pub record CapabilityTokenBody : Type 0 where
  pub token_id : Uuid
  pub venture_id : String
  pub actor_id : String
  pub tool : String
  pub operation : String
  pub resource : String
  pub max_uses : ℕ
  pub issued_at : DateTime
  pub expires_at : DateTime
  pub policy_decision_id : Uuid
  pub issuer_public_key_b64 : String

pub record CapabilityToken : Type 0 where
  pub token_id : Uuid
  pub venture_id : String
  pub actor_id : String
  pub tool : String
  pub operation : String
  pub resource : String
  pub max_uses : ℕ
  pub issued_at : DateTime
  pub expires_at : DateTime
  pub policy_decision_id : Uuid
  pub issuer_public_key_b64 : String
  pub signature_b64 : String

-- `CapabilityTokenBody::from`
abbrev pub token_body : CapabilityToken → CapabilityTokenBody
token_body token = record {
  token_id = token.token_id;
  venture_id = token.venture_id;
  actor_id = token.actor_id;
  tool = token.tool;
  operation = token.operation;
  resource = token.resource;
  max_uses = token.max_uses;
  issued_at = token.issued_at;
  expires_at = token.expires_at;
  policy_decision_id = token.policy_decision_id;
  issuer_public_key_b64 = token.issuer_public_key_b64;
}

pub record AuditEvent : Type 0 where
  pub event_id : Uuid
  pub venture_id : String
  pub actor_id : String
  pub action : String
  pub resource : String
  pub capability_id : Option Uuid
  pub timestamp : DateTime
  pub payload_hash : String
  pub previous_event_hash : String
  pub policy_decision_hash : Option String
  pub device_public_key_b64 : String
  pub event_hash : String
  pub device_signature : Option String

pub record AuditEventBody : Type 0 where
  pub event_id : Uuid
  pub venture_id : String
  pub actor_id : String
  pub action : String
  pub resource : String
  pub capability_id : Option Uuid
  pub timestamp : DateTime
  pub payload_hash : String
  pub previous_event_hash : String
  pub policy_decision_hash : Option String
  pub device_public_key_b64 : String

-- `AuditEventBody::from`
abbrev pub event_body : AuditEvent → AuditEventBody
event_body event = record {
  event_id = event.event_id;
  venture_id = event.venture_id;
  actor_id = event.actor_id;
  action = event.action;
  resource = event.resource;
  capability_id = event.capability_id;
  timestamp = event.timestamp;
  payload_hash = event.payload_hash;
  previous_event_hash = event.previous_event_hash;
  policy_decision_hash = event.policy_decision_hash;
  device_public_key_b64 = event.device_public_key_b64;
}
