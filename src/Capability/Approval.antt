-- ===== src/Capability/Approval.antt =====
-- crates/capability/src/approval.rs: approvals, signed on the owner's device and verified twice.
pub mod Sound
mod Tests
use Prim.Native.String.{len}
use soverign_founder_os.Base.{
  ℕ, ◌≡◌, String, Bool, ◌||◌, Option, some, none, List, [], ◌∷◌, Result, ok, err, reject,
  require_eq, ok_or, map_err, ◌>>=◌, ◌>>◌, Eq, ◌==◌, ◌!=◌, nat_eq, string_eq, list_eq, ltb, length,
  is_empty,
}
use soverign_founder_os.Base.Int.{ℤ, pos, checked_sub, checked_add, ltb_ℤ, leb_ℤ}
use soverign_founder_os.Base.Text.{Bytes, codes, trim}
use soverign_founder_os.Contracts.{Uuid}
use soverign_founder_os.External.{Crypto, Cose}
use soverign_founder_os.Identity.Trust.{
  RoleTrustStore, TypedSigner, VerifiedCosePayload, sign_cose, verify,
}
use soverign_founder_os.Artifact.{PreparedInvocation, canonicalization_profile}
use soverign_founder_os.Policy.{PolicyAuthorizationV2}
use soverign_founder_os.Capability.Errors.{
  CapabilityV2Error, approval_lifetime_invalid, invalid_approval_claims, canonicalization_failed,
  approval_mismatch, non_canonical_approval, approval_from_future, approval_expired,
  map_approval_identity_error, missing_primary_resource,
}
use soverign_founder_os.Capability.Claims.{
  ApprovalClaimsV1, Jcs, policy_decision_digest, approval_max_ttl_seconds,
  approval_max_signed_bytes, approval_max_payload_bytes,
}
use soverign_founder_os.Capability.Checks.{Check, first_mismatch, required_primary_resource}

abbrev pub approval_type : String
approval_type = "sovereign.approval"

pub record ApprovalGrantRequest : Type 0 where
  pub approver_subject_id : String
  pub audience : String
  pub venture_id : String
  pub subject_id : String
  pub session_id : Uuid
  pub policy_decision : PolicyAuthorizationV2
  pub prepared_invocation : PreparedInvocation
  pub ttl_seconds : ℤ

-- The context without the trust store and the clock, which `verify_approval` takes beside it.
pub record ApprovalVerificationContext : Type 0 where
  pub trust : RoleTrustStore
  pub expected_issuer : String
  pub audience : String
  pub venture_id : String
  pub subject_id : String
  pub session_id : Uuid
  pub policy_decision : PolicyAuthorizationV2
  pub prepared : PreparedInvocation
  pub now_unix : ℤ

-- the comparisons of `verify_approval` with the envelope and the context
check_approver : VerifiedCosePayload → ApprovalClaimsV1 → Check
check_approver verified claims = do
  require_eq claims.typ approval_type (approval_mismatch "typ")
  require_eq claims.version 1 (approval_mismatch "version")
  require_eq claims.approver_issuer verified.issuer (approval_mismatch "approver_issuer")
  require_eq claims.approver_key_id verified.key_id (approval_mismatch "approver_key_id")
  reject (claims.approver_subject_id == "") invalid_approval_claims

check_approval_context : ApprovalVerificationContext → ApprovalClaimsV1 → Check
check_approval_context context claims = do
  require_eq claims.audience context.audience (approval_mismatch "audience")
  require_eq claims.venture_id context.venture_id (approval_mismatch "venture_id")
  require_eq claims.subject_id context.subject_id (approval_mismatch "subject_id")
  require_eq claims.session_id context.session_id (approval_mismatch "session_id")
  require_eq claims.canonicalization_profile canonicalization_profile
      (approval_mismatch "canonicalization_profile")

-- its comparisons with the invocation
check_approval_invocation : PreparedInvocation → ApprovalClaimsV1 → Check
check_approval_invocation prepared claims = do
  reject
      ((claims.tool.tool_id != prepared.operation.tool_id)
        || (claims.tool.tool_version != prepared.operation.tool_version)
        || (claims.tool.operation != prepared.operation.operation_id))
      (approval_mismatch "tool")
  primary_resource ← required_primary_resource prepared
  require_eq claims.primary_resource primary_resource (approval_mismatch "primary_resource")
  first_mismatch approval_mismatch (
      ("component_digest", claims.component_digest, prepared.artifact.component_digest)
      ∷ ("manifest_digest", claims.manifest_digest, prepared.artifact.manifest_digest)
      ∷ ("canonical_input_digest", claims.canonical_input_digest, prepared.input_digest)
      ∷ ("resource_bindings_digest", claims.resource_bindings_digest, prepared.bindings_digest)
      ∷ [])

module _ (c : Crypto) (e : Cose) (j : Jcs) where
  -- `approval_id` and `approved_at_unix` are the fresh id and the clock's answer.
  pub approve_invocation :
      TypedSigner → ℤ → Uuid → ApprovalGrantRequest → Result CapabilityV2Error Bytes
  approve_invocation signer approved_at_unix approval_id request = do
    reject (leb_ℤ request.ttl_seconds (pos 0)) approval_lifetime_invalid
    reject (ltb_ℤ (pos approval_max_ttl_seconds) request.ttl_seconds) approval_lifetime_invalid
    reject
        ((request.approver_subject_id == "")
          || (trim (codes request.approver_subject_id) != codes request.approver_subject_id)
          || ltb 512 (len request.approver_subject_id))
        invalid_approval_claims
    let prepared = request.prepared_invocation
    let operation = prepared.operation
    primary_resource ← required_primary_resource prepared
    digest ← policy_decision_digest c j request.policy_decision
    expires_at_unix ←
        ok_or (checked_add approved_at_unix request.ttl_seconds) approval_lifetime_invalid
    let claims : ApprovalClaimsV1 = record {
      typ = approval_type;
      version = 1;
      approval_id = approval_id;
      approver_issuer = signer.issuer;
      approver_key_id = signer.key_id;
      approver_subject_id = request.approver_subject_id;
      audience = request.audience;
      venture_id = request.venture_id;
      subject_id = request.subject_id;
      session_id = request.session_id;
      tool = record {
        tool_id = operation.tool_id;
        tool_version = operation.tool_version;
        operation = operation.operation_id;
      };
      component_digest = prepared.artifact.component_digest;
      manifest_digest = prepared.artifact.manifest_digest;
      canonical_input_digest = prepared.input_digest;
      resource_bindings_digest = prepared.bindings_digest;
      primary_resource = primary_resource;
      policy_decision_id = request.policy_decision.decision_id;
      policy_decision_digest = digest;
      canonicalization_profile = canonicalization_profile;
      approved_at_unix = approved_at_unix;
      expires_at_unix = expires_at_unix;
    }
    canonical ← ok_or (j.approval_to_vec claims) canonicalization_failed
    reject (ltb approval_max_payload_bytes (length canonical)) invalid_approval_claims
    let cose_sign1 = sign_cose c e signer canonical
    reject (ltb approval_max_signed_bytes (length cose_sign1)) invalid_approval_claims
    ok cose_sign1

  -- `verify_approval` up to the canonical claims
  open_approval :
      Bytes
      → ApprovalVerificationContext
      → Result CapabilityV2Error (VerifiedCosePayload × ApprovalClaimsV1)
  open_approval approval context = do
    reject (ltb approval_max_signed_bytes (length approval)) invalid_approval_claims
    verified ←
        map_err map_approval_identity_error
          (verify c e context.trust approval context.expected_issuer context.now_unix)
    reject (ltb approval_max_payload_bytes (length verified.payload)) invalid_approval_claims
    claims ← ok_or (j.approval_from_slice verified.payload) invalid_approval_claims
    canonical ← ok_or (j.approval_to_vec claims) canonicalization_failed
    require_eq canonical verified.payload non_canonical_approval
    ok (verified, claims)

  -- its comparisons with the decision, and the times. The digest is computed only where the ids
  -- agree.
  check_approval_decision : PolicyAuthorizationV2 → ℤ → ApprovalClaimsV1 → Check
  check_approval_decision decision now_unix claims = do
    require_eq claims.policy_decision_id decision.decision_id (approval_mismatch "policy_decision")
    digest ← policy_decision_digest c j decision
    require_eq claims.policy_decision_digest digest (approval_mismatch "policy_decision")
    lifetime ←
        ok_or (checked_sub claims.expires_at_unix claims.approved_at_unix) approval_lifetime_invalid
    reject (leb_ℤ lifetime (pos 0)) approval_lifetime_invalid
    reject (ltb_ℤ (pos approval_max_ttl_seconds) lifetime) approval_lifetime_invalid
    reject (ltb_ℤ now_unix claims.approved_at_unix) approval_from_future
    reject (leb_ℤ claims.expires_at_unix now_unix) approval_expired
    reject (ltb_ℤ claims.approved_at_unix decision.evaluated_at_unix)
        (approval_mismatch "approved_at_unix")

  pub verify_approval :
      Bytes → ApprovalVerificationContext → Result CapabilityV2Error ApprovalClaimsV1
  verify_approval approval context = do
    opened ← open_approval approval context
    let claims = opened.1
    check_approver opened.0 claims
    check_approval_context context claims
    check_approval_invocation context.prepared claims
    check_approval_decision context.policy_decision context.now_unix claims
    ok claims
