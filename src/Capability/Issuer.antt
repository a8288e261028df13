-- ===== src/Capability/Issuer.antt =====
-- `CapabilityIssuerV2` of crates/capability/src/v2.rs.
pub mod Issued
pub mod Sample
use soverign_founder_os.Base.{
  ℕ, ◌≡◌, String, Bool, true, false, not, Option, some, none, List, [], ◌∷◌, Result, ok, err,
  reject, require_eq, ok_or, ◌>>=◌, ◌>>◌, ltb, length,
}
use soverign_founder_os.Base.Int.{ℤ, pos, checked_add, ltb_ℤ, leb_ℤ}
use soverign_founder_os.Base.Text.{Bytes}
use soverign_founder_os.Contracts.{Uuid}
use soverign_founder_os.External.{Crypto, Cose}
use soverign_founder_os.Identity.Trust.{RoleTrustStore, TypedSigner, sign_cose}
use soverign_founder_os.Artifact.{PreparedInvocation, canonicalization_profile}
use soverign_founder_os.Policy.{PolicyAuthorizationV2}
use soverign_founder_os.Capability.Errors.{
  CapabilityV2Error, invalid_audience, invalid_issuer, invalid_venture, invalid_subject,
  policy_denied, approval_evidence_unavailable, unexpected_approval_evidence,
  approval_trust_unavailable, invalid_lifetime, claims_too_large, token_too_large,
}
use soverign_founder_os.Capability.Claims.{
  ApprovalEvidenceV2, CapabilityClaimsV2, Jcs, policy_decision_digest, canonical_claims,
  capability_v2_max_ttl_seconds, capability_v2_max_policy_age_seconds,
  capability_v2_max_payload_bytes, capability_v2_max_token_bytes, approval_max_ttl_seconds,
}
use soverign_founder_os.Capability.Checks.{
  validate_identifier, validate_supported_invocation, validate_policy_authorization,
  validate_policy_freshness, required_primary_resource,
}
use soverign_founder_os.Capability.Approval.{verify_approval}

abbrev pub capability_v2_type : String
capability_v2_type = "sovereign.capability"

-- Signed approval bytes, from `SignedApprovalV1`.
pub record ApprovalTrust : Type 0 where
  pub trust : RoleTrustStore
  pub expected_issuer : String

pub record CapabilityIssuerV2 : Type 0 where
  pub signer : TypedSigner
  pub audience : String
  pub approvals : Option ApprovalTrust

-- The options' `ttl` is its whole seconds.
pub record CapabilityV2IssueRequest : Type 0 where
  pub venture_id : String
  pub subject_id : String
  pub session_id : Uuid
  pub policy_decision : PolicyAuthorizationV2
  pub prepared_invocation : PreparedInvocation
  pub ttl_seconds : ℤ
  pub idempotency_key : Uuid

-- `CapabilityIssuerV2::new`
pub new_issuer : TypedSigner → String → Result CapabilityV2Error CapabilityIssuerV2
new_issuer signer audience = do
  validate_identifier audience invalid_audience
  validate_identifier signer.issuer invalid_issuer
  ok (record { signer = signer; audience = audience; approvals = none })

-- `CapabilityIssuerV2::with_approval_trust`
pub issuer_with_approval_trust :
    RoleTrustStore → String → CapabilityIssuerV2 → Result CapabilityV2Error CapabilityIssuerV2
issuer_with_approval_trust trust expected_issuer issuer = do
  validate_identifier expected_issuer invalid_issuer
  ok (record issuer {
    approvals = some (record { trust = trust; expected_issuer = expected_issuer });
  })

-- the age that the decision may have, with or without an approval
abbrev pub max_policy_age : {A : Type 0} → Option A → ℕ
max_policy_age none = capability_v2_max_policy_age_seconds
max_policy_age (some _) = approval_max_ttl_seconds

module _ (c : Crypto) (e : Cose) (j : Jcs) where
  -- the match of `issue_inner` on the requirement and the approval
  issue_evidence :
      CapabilityIssuerV2
      → CapabilityV2IssueRequest
      → ℤ
      → Bool
      → Option Bytes
      → Result CapabilityV2Error (Option ApprovalEvidenceV2)
  issue_evidence issuer request now true none = err approval_evidence_unavailable
  issue_evidence issuer request now false (some _) = err unexpected_approval_evidence
  issue_evidence issuer request now false none = ok none
  issue_evidence issuer request now true (some approval) = do
    trust ← ok_or issuer.approvals approval_trust_unavailable
    claims ← verify_approval c e j approval (record {
      trust = trust.trust;
      expected_issuer = trust.expected_issuer;
      audience = issuer.audience;
      venture_id = request.venture_id;
      subject_id = request.subject_id;
      session_id = request.session_id;
      policy_decision = request.policy_decision;
      prepared = request.prepared_invocation;
      now_unix = now;
    })
    ok (
        some (record {
          approval_id = claims.approval_id;
          approver_subject_id = claims.approver_subject_id;
          approved_at_unix = claims.approved_at_unix;
        }))

  -- the checks of `issue_inner` before the evidence
  check_request :
      CapabilityIssuerV2 → CapabilityV2IssueRequest → ℤ → ℕ → Result CapabilityV2Error (Unit {0})
  check_request issuer request issued_at_unix age = do
    validate_identifier request.venture_id invalid_venture
    validate_identifier request.subject_id invalid_subject
    validate_supported_invocation request.prepared_invocation
    validate_policy_authorization request.policy_decision issuer.audience request.venture_id
        request.subject_id request.session_id request.idempotency_key request.prepared_invocation
    validate_policy_freshness request.policy_decision issued_at_unix age
    reject (not request.policy_decision.allowed) policy_denied

  -- the claims that `issue_inner` builds
  issued_claims :
      CapabilityIssuerV2
      → CapabilityV2IssueRequest
      → ℤ
      → Uuid
      → Option ApprovalEvidenceV2
      → Result CapabilityV2Error CapabilityClaimsV2
  issued_claims issuer request issued_at_unix token_id approval_evidence = do
    reject (leb_ℤ request.ttl_seconds (pos 0)) invalid_lifetime
    reject (ltb_ℤ (pos capability_v2_max_ttl_seconds) request.ttl_seconds) invalid_lifetime
    expires_at_unix ← ok_or (checked_add issued_at_unix request.ttl_seconds) invalid_lifetime
    let prepared = request.prepared_invocation
    let operation = prepared.operation
    primary_resource ← required_primary_resource prepared
    digest ← policy_decision_digest c j request.policy_decision
    ok (record {
      typ = capability_v2_type;
      version = 2;
      issuer = issuer.signer.issuer;
      issuer_key_id = issuer.signer.key_id;
      audience = issuer.audience;
      token_id = token_id;
      venture_id = request.venture_id;
      subject_id = request.subject_id;
      session_id = request.session_id;
      tool = record {
        tool_id = operation.tool_id;
        tool_version = operation.tool_version;
        operation = operation.operation_id;
      };
      component_digest = prepared.artifact.component_digest;
      manifest_digest = prepared.artifact.manifest_digest;
      canonical_input_digest = prepared.input_digest;
      resource_bindings_digest = prepared.bindings_digest;
      canonicalization_profile = canonicalization_profile;
      primary_resource = primary_resource;
      policy_decision_id = request.policy_decision.decision_id;
      policy_decision_digest = digest;
      approval_evidence = approval_evidence;
      idempotency_key = request.idempotency_key;
      issued_at_unix = issued_at_unix;
      expires_at_unix = expires_at_unix;
      max_uses = 1;
      risk_class = prepared.artifact.manifest.risk_class;
      backend = prepared.artifact.manifest.backend;
    })

  -- the encoding and the signature of the claims, as a token
  sign_claims : CapabilityIssuerV2 → CapabilityClaimsV2 → Result CapabilityV2Error Bytes
  sign_claims issuer claims = do
    canonical_payload ← canonical_claims c j claims
    reject (ltb capability_v2_max_payload_bytes (length canonical_payload)) claims_too_large
    let cose_sign1 = sign_cose c e issuer.signer canonical_payload
    reject (ltb capability_v2_max_token_bytes (length cose_sign1)) token_too_large
    ok cose_sign1

  -- `issue` and `issue_approved` are this without and with an approval.
  pub issue_inner :
      CapabilityIssuerV2
      → ℤ
      → Uuid
      → CapabilityV2IssueRequest
      → Option Bytes
      → Result CapabilityV2Error Bytes
  issue_inner issuer issued_at_unix token_id request approval = do
    check_request issuer request issued_at_unix (max_policy_age approval)
    evidence ←
        issue_evidence issuer request issued_at_unix request.policy_decision.requires_approval
          approval
    claims ← issued_claims issuer request issued_at_unix token_id evidence
    sign_claims issuer claims
