-- ===== src/Capability/Claims.antt =====
-- The signed data of crates/capability/src/v2.rs and approval.rs, and their canonical encodings.
use soverign_founder_os.Base.{
  ℕ, ◌≡◌, ◌*◌, String, Option, some, string_eq, Result, ok, ◌>>=◌, ok_or,
}
use soverign_founder_os.Base.Int.{ℤ}
use soverign_founder_os.Base.Text.{Bytes, codes}
use soverign_founder_os.Contracts.{Uuid}
use soverign_founder_os.External.{Crypto}
use soverign_founder_os.Artifact.{Digest, RiskClass, ArtifactBackend, domain_separated}
use soverign_founder_os.Policy.{PolicyAuthorizationV2}
use soverign_founder_os.Capability.Errors.{CapabilityV2Error, canonicalization_failed}

abbrev pub capability_v2_max_ttl_seconds : ℕ
capability_v2_max_ttl_seconds = 5 * 60

abbrev pub capability_v2_max_policy_age_seconds : ℕ
capability_v2_max_policy_age_seconds = 30

abbrev pub capability_v2_max_token_bytes : ℕ
capability_v2_max_token_bytes = 72 * 1024

abbrev pub capability_v2_max_payload_bytes : ℕ
capability_v2_max_payload_bytes = 64 * 1024

abbrev pub approval_max_ttl_seconds : ℕ
approval_max_ttl_seconds = 10 * 60

abbrev pub approval_max_signed_bytes : ℕ
approval_max_signed_bytes = 32 * 1024

abbrev pub approval_max_payload_bytes : ℕ
approval_max_payload_bytes = 16 * 1024

pub record ToolScopeV2 : Type 0 where
  pub tool_id : String
  pub tool_version : String
  pub operation : String

pub record ApprovalEvidenceV2 : Type 0 where
  pub approval_id : Uuid
  pub approver_subject_id : String
  pub approved_at_unix : ℤ

pub record CapabilityClaimsV2 : Type 0 where
  pub typ : String
  pub version : ℕ
  pub issuer : String
  pub issuer_key_id : Digest
  pub audience : String
  pub token_id : Uuid
  pub venture_id : String
  pub subject_id : String
  pub session_id : Uuid
  pub tool : ToolScopeV2
  pub component_digest : Digest
  pub manifest_digest : Digest
  pub canonical_input_digest : Digest
  pub resource_bindings_digest : Digest
  pub canonicalization_profile : String
  pub primary_resource : String
  pub policy_decision_id : Uuid
  pub policy_decision_digest : Digest
  pub approval_evidence : Option ApprovalEvidenceV2
  pub idempotency_key : Uuid
  pub issued_at_unix : ℤ
  pub expires_at_unix : ℤ
  pub max_uses : ℕ
  pub risk_class : RiskClass
  pub backend : ArtifactBackend

pub record ApprovalClaimsV1 : Type 0 where
  pub typ : String
  pub version : ℕ
  pub approval_id : Uuid
  pub approver_issuer : String
  pub approver_key_id : Digest
  pub approver_subject_id : String
  pub audience : String
  pub venture_id : String
  pub subject_id : String
  pub session_id : Uuid
  pub tool : ToolScopeV2
  pub component_digest : Digest
  pub manifest_digest : Digest
  pub canonical_input_digest : Digest
  pub resource_bindings_digest : Digest
  pub primary_resource : String
  pub policy_decision_id : Uuid
  pub policy_decision_digest : Digest
  pub canonicalization_profile : String
  pub approved_at_unix : ℤ
  pub expires_at_unix : ℤ

-- what `invocation_fingerprint` hashes
pub record Fingerprint : Type 0 where
  pub audience : String
  pub venture_id : String
  pub subject_id : String
  pub session_id : Uuid
  pub tool : ToolScopeV2
  pub component_digest : Digest
  pub manifest_digest : Digest
  pub canonical_input_digest : Digest
  pub resource_bindings_digest : Digest
  pub canonicalization_profile : String
  pub primary_resource : String
  pub policy_decision_digest : Digest
  pub risk_class : RiskClass
  pub backend : ArtifactBackend

-- serde_json_canonicalizer and serde_json: the canonical form of each type, and reading it back.
pub record Jcs : Type 0 where
  pub claims_to_vec : CapabilityClaimsV2 → Option Bytes
  pub claims_from_slice : Bytes → Option CapabilityClaimsV2
  pub approval_to_vec : ApprovalClaimsV1 → Option Bytes
  pub approval_from_slice : Bytes → Option ApprovalClaimsV1
  pub policy_to_vec : PolicyAuthorizationV2 → Option Bytes
  pub fingerprint_to_vec : Fingerprint → Option Bytes
  pub claims-from-to :
      (x : CapabilityClaimsV2) (b : Bytes) → claims_to_vec x ≡ some b → claims_from_slice b ≡ some x
  pub approval-from-to :
      (x : ApprovalClaimsV1) (b : Bytes)
      → approval_to_vec x ≡ some b
      → approval_from_slice b ≡ some x

module _ (c : Crypto) (j : Jcs) where
  unfoldable pub policy_decision_digest : PolicyAuthorizationV2 → Result CapabilityV2Error Digest
  policy_decision_digest decision = do
    canonical ← ok_or (j.policy_to_vec decision) canonicalization_failed
    ok (domain_separated c (codes "sovereign.capability.policy-authorization.jcs.v2") canonical)

  abbrev pub canonical_claims : CapabilityClaimsV2 → Result CapabilityV2Error Bytes
  canonical_claims claims = ok_or (j.claims_to_vec claims) canonicalization_failed

  abbrev pub fingerprint_of : CapabilityClaimsV2 → Fingerprint
  fingerprint_of claims = record {
    audience = claims.audience;
    venture_id = claims.venture_id;
    subject_id = claims.subject_id;
    session_id = claims.session_id;
    tool = claims.tool;
    component_digest = claims.component_digest;
    manifest_digest = claims.manifest_digest;
    canonical_input_digest = claims.canonical_input_digest;
    resource_bindings_digest = claims.resource_bindings_digest;
    canonicalization_profile = claims.canonicalization_profile;
    primary_resource = claims.primary_resource;
    policy_decision_digest = claims.policy_decision_digest;
    risk_class = claims.risk_class;
    backend = claims.backend;
  }

  unfoldable pub invocation_fingerprint : CapabilityClaimsV2 → Result CapabilityV2Error Digest
  invocation_fingerprint claims = do
    canonical ← ok_or (j.fingerprint_to_vec (fingerprint_of claims)) canonicalization_failed
    ok (domain_separated c (codes "sovereign.capability.idempotency-binding.jcs.v2") canonical)
