-- ===== src/Capability/Approval/Sound.antt =====
-- What `verify_approval` of crates/capability/src/approval.rs accepts.
use soverign_founder_os.Base.{
  ◌≡◌, some, [], ◌∷◌, ok, arith, nat_eq, string_eq, list_eq, list_beq_iff, >>=-eq-ok, Option-cases,
  inl, inr, ◌≢◌,
}
use text.Mathlib.TextEquality.{eq_iff}
use soverign_founder_os.Base.Int.{ℤ, pos, ◌≤ℤ◌, ◌<ℤ◌, ◌+ℤ◌, -ℤ_parts, +ℤ_parts}
use soverign_founder_os.Base.Text.{Bytes}
use soverign_founder_os.External.{Crypto, Cose}
use soverign_founder_os.Identity.Trust.{VerifiedCosePayload}
use soverign_founder_os.Identity.Trust.Verify.{IsAuthentic, verify-IsAuthentic}
use soverign_founder_os.Artifact.{PreparedInvocation}
use soverign_founder_os.Policy.{PolicyAuthorizationV2}
use soverign_founder_os.Capability.Errors.{approval_mismatch}
use soverign_founder_os.Capability.Claims.{ApprovalClaimsV1, Jcs, approval_max_ttl_seconds}
use soverign_founder_os.Capability.Checks.Lemmas.{first_mismatch_iff}
use soverign_founder_os.Capability.Approval.{
  ApprovalVerificationContext, check_approver, check_approval_context, check_approval_invocation,
  check_approval_decision, open_approval, verify_approval,
}

-- The approval is of this invocation, with its resource and its digests.
pub record Approves (claims : ApprovalClaimsV1) (prepared : PreparedInvocation) : Type 0 where
  pub tool_id : claims.tool.tool_id ≡ prepared.operation.tool_id
  pub tool_version : claims.tool.tool_version ≡ prepared.operation.tool_version
  pub operation : claims.tool.operation ≡ prepared.operation.operation_id
  pub resource : prepared.primary_resource ≡ some claims.primary_resource
  pub component : claims.component_digest ≡ prepared.artifact.component_digest
  pub manifest : claims.manifest_digest ≡ prepared.artifact.manifest_digest
  pub input : claims.canonical_input_digest ≡ prepared.input_digest
  pub bindings : claims.resource_bindings_digest ≡ prepared.bindings_digest

check_approval_invocation_lem :
    (prepared : PreparedInvocation) (claims : ApprovalClaimsV1) {u : Unit}
    → check_approval_invocation prepared claims ≡ ok u
    → Approves claims prepared
unfolding check_approval_invocation
check_approval_invocation_lem prepared claims h = elim (Option-cases prepared.primary_resource) [
  | inl missing ↦ absurd (ground arith)
  | inr (resource, present) ↦ ground (
    arith,
    eq_iff claims.tool.tool_id prepared.operation.tool_id,
    eq_iff claims.tool.tool_version prepared.operation.tool_version,
    eq_iff claims.tool.operation prepared.operation.operation_id,
    eq_iff claims.primary_resource resource,
    first_mismatch_iff approval_mismatch (
        ("component_digest", claims.component_digest, prepared.artifact.component_digest)
        ∷ ("manifest_digest", claims.manifest_digest, prepared.artifact.manifest_digest)
        ∷ ("canonical_input_digest", claims.canonical_input_digest, prepared.input_digest)
        ∷ ("resource_bindings_digest", claims.resource_bindings_digest, prepared.bindings_digest)
        ∷ []),
  )
]

-- It was given after the decision, for at most ten minutes that hold the present.
pub record IsTimely (decision : PolicyAuthorizationV2) (now : ℤ) (claims : ApprovalClaimsV1)
    : Type 0 where
  pub decision_id : claims.policy_decision_id ≡ decision.decision_id
  pub after_decision : decision.evaluated_at_unix ≤ℤ claims.approved_at_unix
  pub given : claims.approved_at_unix ≤ℤ now
  pub lasting : now <ℤ claims.expires_at_unix
  pub short : claims.expires_at_unix ≤ℤ claims.approved_at_unix +ℤ pos approval_max_ttl_seconds

-- It is by this approver, for this audience, venture, subject and session.
pub record IsFor (context : ApprovalVerificationContext) (claims : ApprovalClaimsV1) : Type 0 where
  pub audience : claims.audience ≡ context.audience
  pub venture_id : claims.venture_id ≡ context.venture_id
  pub subject_id : claims.subject_id ≡ context.subject_id
  pub session_id : claims.session_id ≡ context.session_id

check_approval_context_lem :
    (context : ApprovalVerificationContext) (claims : ApprovalClaimsV1) {u : Unit}
    → check_approval_context context claims ≡ ok u
    → IsFor context claims
unfolding check_approval_context
check_approval_context_lem context claims h = ground (
  arith,
  eq_iff claims.audience context.audience,
  eq_iff claims.venture_id context.venture_id,
  eq_iff claims.subject_id context.subject_id,
)

check_approver_lem :
    (verified : VerifiedCosePayload) (claims : ApprovalClaimsV1) {u : Unit}
    → check_approver verified claims ≡ ok u
    → (claims.approver_issuer ≡ verified.issuer)
      × (claims.approver_key_id ≡ verified.key_id)
      × (claims.approver_subject_id ≢ "")
unfolding check_approver
check_approver_lem verified claims h = ground (
  arith,
  eq_iff claims.approver_issuer verified.issuer,
  list_beq_iff claims.approver_key_id verified.key_id,
  eq_iff claims.approver_subject_id "",
)

module _ (c : Crypto) (e : Cose) (j : Jcs) where
  check_approval_decision_lem :
      (decision : PolicyAuthorizationV2) (now : ℤ) (claims : ApprovalClaimsV1) {u : Unit}
      → check_approval_decision c e j decision now claims ≡ ok u
      → IsTimely decision now claims
  unfolding check_approval_decision
  check_approval_decision_lem decision now claims h = ground (
    arith,
    -ℤ_parts claims.expires_at_unix claims.approved_at_unix,
    +ℤ_parts claims.approved_at_unix (pos approval_max_ttl_seconds),
  )

  -- An approval that holds for a context: by a trusted key, of the invocation, in time.
  pub record IsApproved (context : ApprovalVerificationContext) (claims : ApprovalClaimsV1)
      : Type 0 where
    pub envelope : VerifiedCosePayload
    pub authentic : IsAuthentic c e context.trust context.expected_issuer context.now_unix envelope
    pub approver_issuer : claims.approver_issuer ≡ context.expected_issuer
    pub approver_key_id : claims.approver_key_id ≡ envelope.key_id
    pub named : claims.approver_subject_id ≢ ""
    pub is_for : IsFor context claims
    pub approves : Approves claims context.prepared
    pub timely : IsTimely context.policy_decision context.now_unix claims
    pub signed : j.approval_to_vec claims ≡ some envelope.payload

  open_approval_lem :
      (approval : Bytes) (context : ApprovalVerificationContext) {v : VerifiedCosePayload}
      {claims : ApprovalClaimsV1}
      → open_approval c e j approval context ≡ ok (v, claims)
      → IsAuthentic c e context.trust context.expected_issuer context.now_unix v
        × (j.approval_to_vec claims ≡ some v.payload)
  unfolding open_approval
  open_approval_lem approval context {v} {claims} h =
      let accepted =
        verify-IsAuthentic c e context.trust approval context.expected_issuer context.now_unix
          {v = v} in
      elim (Option-cases (j.approval_to_vec claims)) [
        | inl missing ↦ absurd (ground arith)
        | inr (canonical, encoded) ↦
            (accepted (ground arith), ground (arith, list_beq_iff canonical v.payload))
      ]

  -- An approval that passes is authentic for the expected issuer, names that issuer and the key that
  -- signed it, is for the context's audience, venture, subject and session, and for its invocation
  -- with all four digests, was given after the decision that it names, is in force now, for ten
  -- minutes at most, and is the canonical encoding of its claims.
  pub verify_approval-IsApproved :
      (approval : Bytes) (context : ApprovalVerificationContext) {claims : ApprovalClaimsV1}
      → verify_approval c e j approval context ≡ ok claims
      → IsApproved context claims
  unfolding verify_approval
  verify_approval-IsApproved approval context {claims} h =
      let (opened, parsed, rest) = >>=-eq-ok (open_approval c e j approval context) _ h in
      let same : opened.1 ≡ claims = ground arith in
      let envelope = open_approval_lem approval context {v = opened.0} {claims = opened.1} parsed in
      let approver = check_approver_lem opened.0 opened.1 {u = tt} (ground arith) in
      record {
        envelope = opened.0;
        authentic = envelope.0;
        approver_issuer = ground (arith, approver, envelope.0.same_issuer);
        approver_key_id = ground (arith, approver);
        named = ground (arith, approver);
        is_for = ground (arith, check_approval_context_lem context opened.1 {u = tt});
        approves = ground (arith, check_approval_invocation_lem context.prepared opened.1 {u = tt});
        timely = ground (
          arith,
          check_approval_decision_lem context.policy_decision context.now_unix opened.1 {u = tt},
        );
        signed = ground (arith, envelope.1);
      }
