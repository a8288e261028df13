-- ===== src/Capability/Validator/Bound.antt =====
-- What a token that `authorize` accepts is bound to: the checks of `authorize_and_consume_inner` of
-- crates/capability/src/v2.rs, all of them.
pub mod Authorized
use soverign_founder_os.Base.{
  ℕ, ◌≡◌, refl, sym, ap, require_eq-ok, String, Bool, true, false, not, ◌||◌, Option, some, none,
  List, [], ◌∷◌, Result, ok, err, reject, require_eq, ok_or, map_err, ◌>>=◌, ◌>>◌, arith, Eq, ◌==◌,
  ◌!=◌, nat_eq, string_eq, list_eq, list_beq_iff, >>=-eq-ok, Option-cases, inl, inr,
}
use text.Mathlib.TextEquality.{eq_iff}
use soverign_founder_os.Base.Int.{ℤ, pos, ◌≤ℤ◌, ◌<ℤ◌, ◌+ℤ◌}
use soverign_founder_os.Base.Text.{Bytes}
use soverign_founder_os.Contracts.{Uuid}
use soverign_founder_os.External.{Crypto, Cose}
use soverign_founder_os.Identity.{IdentityError}
use soverign_founder_os.Identity.Trust.{VerifiedCosePayload, verify}
use soverign_founder_os.Identity.Trust.Verify.{IsAuthentic, verify-IsAuthentic}
use soverign_founder_os.Artifact.{Digest, pure_compute, core_wasm, risk_class_eq, backend_eq}
use soverign_founder_os.Policy.{PolicyAuthorizationV2}
use soverign_founder_os.Capability.Claims.{
  ApprovalEvidenceV2, CapabilityClaimsV2, Jcs, capability_v2_max_ttl_seconds,
  policy_decision_digest,
}
use soverign_founder_os.Capability.Errors.{
  CapabilityV2Error, policy_authorization_mismatch, map_identity_error,
}
use soverign_founder_os.Capability.Issuer.{max_policy_age}
use soverign_founder_os.Capability.Checks.{
  validate_claim_lifetime, validate_supported_invocation, compare_invocation_claims,
  validate_policy_authorization, validate_policy_freshness,
}
use soverign_founder_os.Capability.Checks.Lemmas.{
  Names, Covers, validate_claim_lifetime_lem, validate_policy_freshness_lem,
  compare_invocation_claims_iff, validate_policy_authorization_iff,
}
use soverign_founder_os.Capability.Approval.{ApprovalVerificationContext, verify_approval}
use soverign_founder_os.Capability.Approval.Sound.{IsApproved, verify_approval-IsApproved}
use soverign_founder_os.Capability.Claims.{ApprovalClaimsV1}
use soverign_founder_os.Capability.Issuer.{ApprovalTrust}
use soverign_founder_os.Capability.Validator.{
  CapabilityValidatorV2, CapabilityV2ValidationContext, contains_uuid, check_claims,
  check_presenter, check_policy, check_evidence, check_idempotency, lookup_fingerprint, open_token,
  authorize,
}

-- The claims are for this validator, in force, for one use, of the supported risk and backend.
pub record IsCurrent (validator : CapabilityValidatorV2) (claims : CapabilityClaimsV2) (now : ℤ)
    : Type 0 where
  pub issuer : claims.issuer ≡ validator.expected_issuer
  pub audience : claims.audience ≡ validator.expected_audience
  pub issued : claims.issued_at_unix ≤ℤ now
  pub lasting : now <ℤ claims.expires_at_unix
  pub short : claims.expires_at_unix ≤ℤ claims.issued_at_unix +ℤ pos capability_v2_max_ttl_seconds
  pub one_use : claims.max_uses ≡ 1
  pub risk_class : claims.risk_class ≡ pure_compute
  pub backend : claims.backend ≡ core_wasm

check_claims_lem :
    (validator : CapabilityValidatorV2) (verified : VerifiedCosePayload)
    (claims : CapabilityClaimsV2) (now : ℤ) {u : Unit}
    → check_claims validator verified claims now ≡ ok u
    → IsCurrent validator claims now × (claims.issuer_key_id ≡ verified.key_id)
unfolding check_claims
check_claims_lem validator verified claims now h = ground (
  arith,
  eq_iff claims.issuer validator.expected_issuer,
  eq_iff claims.audience validator.expected_audience,
  list_beq_iff claims.issuer_key_id verified.key_id,
  validate_claim_lifetime_lem claims now {u = tt},
)

-- The claims are for this presenter and this invocation.
pub record IsPresented (context : CapabilityV2ValidationContext) (claims : CapabilityClaimsV2)
    : Type 0 where
  pub venture_id : claims.venture_id ≡ context.venture_id
  pub subject_id : claims.subject_id ≡ context.subject_id
  pub session_id : claims.session_id ≡ context.session_id
  pub names : Names claims context.prepared_invocation

check_presenter_lem :
    (context : CapabilityV2ValidationContext) (claims : CapabilityClaimsV2) {u : Unit}
    → check_presenter context claims ≡ ok u
    → IsPresented context claims
unfolding check_presenter
check_presenter_lem context claims h = ground (
  arith,
  eq_iff claims.venture_id context.venture_id,
  eq_iff claims.subject_id context.subject_id,
  compare_invocation_claims_iff claims context.prepared_invocation,
)

same_digest :
    (claimed : Digest) (r : Result CapabilityV2Error Digest) (error : CapabilityV2Error) {u : Unit}
    → (r >>= λ digest. require_eq claimed digest error) ≡ ok u
    → r ≡ ok claimed
same_digest claimed (err x) error h = cc
same_digest claimed (ok x) error h = ap ok (sym (require_eq-ok error h))

module _ (c : Crypto) (e : Cose) (j : Jcs) where
  -- The decision is fresh, allows the invocation, and is the one that the claims carry.
  pub record IsAllowed (validator : CapabilityValidatorV2) (context : CapabilityV2ValidationContext)
      (claims : CapabilityClaimsV2) (now : ℤ) : Type 0 where
    pub covers :
        Covers context.policy_decision validator.expected_audience context.venture_id
          context.subject_id context.session_id claims.idempotency_key context.prepared_invocation
    pub allowed : context.policy_decision.allowed ≡ true
    pub evaluated : context.policy_decision.evaluated_at_unix ≤ℤ now
    pub fresh :
        now
        ≤ℤ context.policy_decision.evaluated_at_unix
          +ℤ pos (max_policy_age claims.approval_evidence)
    pub decision : claims.policy_decision_id ≡ context.policy_decision.decision_id
    pub digest :
        policy_decision_digest c j context.policy_decision ≡ ok claims.policy_decision_digest

  check_policy_lem :
      (validator : CapabilityValidatorV2) (context : CapabilityV2ValidationContext)
      (claims : CapabilityClaimsV2) (now : ℤ) {u : Unit}
      → check_policy c e j validator context claims now ≡ ok u
      → IsAllowed validator context claims now
  unfolding check_policy
  check_policy_lem validator context claims now h = ground (
    arith,
    validate_policy_authorization_iff context.policy_decision validator.expected_audience
        context.venture_id context.subject_id context.session_id claims.idempotency_key
        context.prepared_invocation,
    validate_policy_freshness_lem context.policy_decision now
        (max_policy_age claims.approval_evidence) {u = tt},
    same_digest claims.policy_decision_digest (policy_decision_digest c j context.policy_decision)
        (policy_authorization_mismatch "decision_digest") {u = tt},
  )

  abbrev approval_context :
      CapabilityValidatorV2
      → CapabilityV2ValidationContext
      → ApprovalTrust
      → ℤ
      → ApprovalVerificationContext
  approval_context validator context trust now = record {
    trust = trust.trust;
    expected_issuer = trust.expected_issuer;
    audience = validator.expected_audience;
    venture_id = context.venture_id;
    subject_id = context.subject_id;
    session_id = context.session_id;
    policy_decision = context.policy_decision;
    prepared = context.prepared_invocation;
    now_unix = now;
  }

  -- A valid approval stands behind the evidence, and was not consumed here.
  pub record IsEvidenced (validator : CapabilityValidatorV2)
      (context : CapabilityV2ValidationContext) (now : ℤ) (evidence : ApprovalEvidenceV2)
      : Type 0 where
    pub trust : ApprovalTrust
    pub configured : validator.approvals ≡ some trust
    pub approval : ApprovalClaimsV1
    pub approved : IsApproved c e j (approval_context validator context trust now) approval
    pub same_id : approval.approval_id ≡ evidence.approval_id
    pub same_approver : approval.approver_subject_id ≡ evidence.approver_subject_id
    pub same_time : approval.approved_at_unix ≡ evidence.approved_at_unix
    pub unused : contains_uuid evidence.approval_id validator.consumed_approvals ≡ false

  -- Evidence is there exactly where the decision wants an approval, and then it is good.
  pub IsAnswered :
      CapabilityValidatorV2
      → CapabilityV2ValidationContext
      → ℤ
      → Bool
      → Option ApprovalEvidenceV2
      → Option Uuid
      → Type 0
  IsAnswered validator context now false none id = id ≡ none
  IsAnswered validator context now true (some evidence) id =
      (id ≡ some evidence.approval_id) × IsEvidenced validator context now evidence
  IsAnswered validator context now _ _ id = ⊥

  evidenced :
      (validator : CapabilityValidatorV2) (context : CapabilityV2ValidationContext) (now : ℤ)
      (evidence : ApprovalEvidenceV2) (approval : Bytes) {id : Option Uuid}
      → check_evidence c e j validator context now true (some evidence) (some approval) ≡ ok id
      → (id ≡ some evidence.approval_id) × IsEvidenced validator context now evidence
  unfolding check_evidence
  evidenced validator context now evidence approval h = elim (Option-cases validator.approvals) [
    | inl missing ↦ absurd (ground arith)
    | inr (trust, configured) ↦
        let here : ApprovalVerificationContext = approval_context validator context trust now in
        let (known, is_trust, rest) = >>=-eq-ok (ok_or validator.approvals _) _ h in
        let same : known ≡ trust = ground arith in
        let (verified, accepted, after) =
          >>=-eq-ok (verify_approval c e j approval (approval_context validator context known now))
            _ rest in
        let approved =
          verify_approval-IsApproved c e j approval (approval_context validator context known now)
            accepted in
        let texts = eq_iff verified.approver_subject_id evidence.approver_subject_id in
        (
          ground arith,
          record {
            trust = known;
            configured = ground arith;
            approval = verified;
            approved = approved;
            same_id = ground arith;
            same_approver = ground (arith, texts);
            same_time = ground arith;
            unused = ground arith;
          },
        )
  ]

  check_evidence_lem :
      (validator : CapabilityValidatorV2) (context : CapabilityV2ValidationContext) (now : ℤ)
      (required : Bool) (evidence : Option ApprovalEvidenceV2) (approval : Option Bytes)
      {id : Option Uuid}
      → check_evidence c e j validator context now required evidence approval ≡ ok id
      → IsAnswered validator context now required evidence id
  unfolding check_evidence IsAnswered
  check_evidence_lem validator context now false none none h = ground arith
  check_evidence_lem validator context now false none (some _) h = absurd (ground arith)
  check_evidence_lem validator context now false (some _) none h = absurd (ground arith)
  check_evidence_lem validator context now false (some _) (some _) h = absurd (ground arith)
  check_evidence_lem validator context now true none none h = absurd (ground arith)
  check_evidence_lem validator context now true none (some _) h = absurd (ground arith)
  check_evidence_lem validator context now true (some _) none h = absurd (ground arith)
  check_evidence_lem validator context now true (some evidence) (some approval) h =
      evidenced validator context now evidence approval h

  -- Evidence is used only as the answer to a decision that wants an approval.
  pub IsAnswered-some :
      (validator : CapabilityValidatorV2) (context : CapabilityV2ValidationContext) (now : ℤ)
      (required : Bool) (evidence : ApprovalEvidenceV2) (id : Option Uuid)
      → IsAnswered validator context now required (some evidence) id
      → (id ≡ some evidence.approval_id) × IsEvidenced validator context now evidence
  unfolding IsAnswered
  IsAnswered-some validator context now true evidence id answered = answered
  IsAnswered-some validator context now false evidence id answered = elim answered [ ]
