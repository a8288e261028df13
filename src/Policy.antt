-- ===== src/Policy.antt =====
-- crates/policy/src/lib.rs: the deterministic rules, and the authorization that binds one prepared
-- invocation. The clock and the fresh decision id are arguments of the operations that read them.
mod Rules
mod Prepared
mod Tests
use Prim.Native.String.{len, ◌++◌ as str_append}
use soverign_founder_os.Base.{
  ℕ, ◌≡◌, String, Bool, true, false, not, ◌&&◌, ◌||◌, List, [], ◌∷◌, ◌++◌, Option, some, none, ltb,
  leb, any, is_empty, if◌then◌else◌, Eq, ◌==◌, ◌!=◌, nat_eq, string_eq, list_eq, derived_eq, Result,
  ok, err, reject, ok_or, ◌>>=◌, ◌>>◌,
}
use soverign_founder_os.Base.Int.{ℤ}
use soverign_founder_os.Base.Text.{codes, starts_with, contains, trim, is_control}
use soverign_founder_os.Contracts.{
  Uuid, nil_uuid, DateTime, DataClass, red, AutomationLevel, discriminant, l2_approve_execute,
  ActionRequest, PolicyDecision,
}
use soverign_founder_os.Artifact.{
  Digest, RiskClass, ArtifactBackend, PreparedInvocation, canonicalization_profile,
}

-- `HIGH_RISK_OPERATIONS`
abbrev pub high_risk_operations : List (String × String)
high_risk_operations =
    ("email", "send")
    ∷ ("payment", "transfer")
    ∷ ("contract", "sign")
    ∷ ("deploy", "production")
    ∷ ("file", "delete")
    ∷ ("social", "publish")
    ∷ []

DataClass-discrete : Discrete DataClass
DataClass-discrete = hlevel

instance abbrev data_class_eq : Eq DataClass
data_class_eq = derived_eq DataClass-discrete

-- `CLOUD_BLOCKED_CLASSES`
abbrev cloud_blocked_classes : List DataClass
cloud_blocked_classes = red ∷ []

pub data PolicyV2Error : Type 0 where
  invalid_context : String → PolicyV2Error
  missing_primary_resource : PolicyV2Error

pub record AuthenticatedPolicyContextV2 : Type 0 where
  pub audience : String
  pub venture_id : String
  pub subject_id : String
  pub session_id : Uuid
  pub data_class : DataClass
  pub automation_level : AutomationLevel
  pub idempotency_key : Uuid

-- `is_control`, `trim` and the emptiness test see the characters, `len` the bytes of the UTF-8 form.
abbrev pub malformed : String → Bool
malformed value =
    (value == "")
    || (trim (codes value) != codes value)
    || ltb 512 (len value)
    || any is_control (codes value)

abbrev validate_context_identifier : String → String → Result PolicyV2Error (Unit {0})
validate_context_identifier value field = reject (malformed value) (invalid_context field)

-- `AuthenticatedPolicyContextV2::new`
pub new_context :
    String
    → String
    → String
    → Uuid
    → DataClass
    → AutomationLevel
    → Uuid
    → Result PolicyV2Error AuthenticatedPolicyContextV2
new_context audience venture_id subject_id session_id data_class automation_level idempotency_key =
    do
      validate_context_identifier audience "audience"
      validate_context_identifier venture_id "venture_id"
      validate_context_identifier subject_id "subject_id"
      reject (session_id == nil_uuid) (invalid_context "session_id")
      reject (idempotency_key == nil_uuid) (invalid_context "idempotency_key")
      ok (record {
        audience = audience;
        venture_id = venture_id;
        subject_id = subject_id;
        session_id = session_id;
        data_class = data_class;
        automation_level = automation_level;
        idempotency_key = idempotency_key;
      })

pub record PolicyToolBindingV2 : Type 0 where
  pub tool_id : String
  pub tool_version : String
  pub operation : String

pub record PolicyAuthorizationV2 : Type 0 where
  pub typ : String
  pub version : ℕ
  pub decision_id : Uuid
  pub allowed : Bool
  pub reason : String
  pub requires_approval : Bool
  pub evaluated_at_unix : ℤ
  pub audience : String
  pub venture_id : String
  pub subject_id : String
  pub session_id : Uuid
  pub data_class : DataClass
  pub automation_level : AutomationLevel
  pub idempotency_key : Uuid
  pub tool : PolicyToolBindingV2
  pub component_digest : Digest
  pub manifest_digest : Digest
  pub canonical_input_digest : Digest
  pub resource_bindings_digest : Digest
  pub canonicalization_profile : String
  pub primary_resource : String
  pub risk_class : RiskClass
  pub backend : ArtifactBackend

pub record PolicyOutcome : Type 0 where
  pub allowed : Bool
  pub requires_approval : Bool
  pub reason : String

-- a rule pushes its reason when its test holds
abbrev push_if : Bool → String → List String
push_if test reason = if test then reason ∷ [] else []

-- `[&str]::join`
join : String → List String → String
join sep [] = ""
join sep (s ∷ []) = s
join sep (s ∷ t ∷ rest) = str_append s (str_append sep (join sep (t ∷ rest)))

abbrev denial_reasons : String → String → DataClass → List String
denial_reasons tool_id resource data_class =
    push_if
      (any (λ c. c == data_class) cloud_blocked_classes
        && starts_with (codes "cloud.") (codes tool_id))
      "red-zone data cannot be sent to cloud tools"
    ++ push_if (contains (codes "..") (codes resource) || starts_with (codes "/") (codes resource))
        "path traversal or absolute path access denied"

abbrev approval_reasons : String → String → AutomationLevel → List String
approval_reasons tool_id operation_id level =
    push_if (leb (discriminant l2_approve_execute) (discriminant level))
      "L2+ actions require human approval"
    ++ push_if (any (λ pair. (pair.0 == tool_id) && (pair.1 == operation_id)) high_risk_operations)
        "high-risk operation requires explicit approval"

pub evaluate_rules : String → String → String → DataClass → AutomationLevel → PolicyOutcome
unfolding join
evaluate_rules tool_id operation_id resource data_class level =
    let denials = denial_reasons tool_id resource data_class in
    let approvals = approval_reasons tool_id operation_id level in
    let reasons = denials ++ approvals in
    record {
      allowed = is_empty denials;
      requires_approval = not (is_empty approvals);
      reason = if is_empty reasons then "allowed by default policy" else join "; " reasons;
    }

-- `PolicyEngine::evaluate`
pub evaluate : Uuid → DateTime → ActionRequest → PolicyDecision
unfolding evaluate_rules
evaluate decision_id now request =
    let outcome =
      evaluate_rules request.tool request.operation request.resource request.data_class
        request.automation_level in
    record {
      decision_id = decision_id;
      allowed = outcome.allowed;
      reason = outcome.reason;
      requires_approval = outcome.requires_approval;
      evaluated_at = now;
      request = request;
    }

-- `PolicyEngine::evaluate_prepared`
unfoldable pub evaluate_prepared :
    Uuid
    → ℤ
    → PreparedInvocation
    → AuthenticatedPolicyContextV2
    → Result PolicyV2Error PolicyAuthorizationV2
evaluate_prepared decision_id now_unix prepared context = do
  primary_resource ← ok_or prepared.primary_resource missing_primary_resource
  let operation = prepared.operation
  let outcome =
      evaluate_rules operation.tool_id operation.operation_id primary_resource context.data_class
        context.automation_level
  ok (record {
    typ = "sovereign.policy-authorization";
    version = 2;
    decision_id = decision_id;
    allowed = outcome.allowed;
    reason = outcome.reason;
    requires_approval = outcome.requires_approval;
    evaluated_at_unix = now_unix;
    audience = context.audience;
    venture_id = context.venture_id;
    subject_id = context.subject_id;
    session_id = context.session_id;
    data_class = context.data_class;
    automation_level = context.automation_level;
    idempotency_key = context.idempotency_key;
    tool = record {
      tool_id = operation.tool_id;
      tool_version = operation.tool_version;
      operation = operation.operation_id;
    };
    component_digest = prepared.artifact.component_digest;
    manifest_digest = prepared.artifact.manifest_digest;
    canonical_input_digest = prepared.input_digest;
    resource_bindings_digest = prepared.bindings_digest;
    canonicalization_profile = canonicalization_profile;
    primary_resource = primary_resource;
    risk_class = prepared.artifact.manifest.risk_class;
    backend = prepared.artifact.manifest.backend;
  })
