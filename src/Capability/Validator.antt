-- ===== src/Capability/Validator.antt =====
-- `CapabilityValidatorV2` of crates/capability/src/v2.rs. Fresh names and the answers of the file
-- system enter through the `ClaimIo` of each durable claim.
pub mod Bound
pub mod OneUse
pub mod Roundtrip
mod Tests
use soverign_founder_os.Base.{
  ℕ, ◌≡◌, String, Bool, true, false, not, ◌||◌, Option, some, none, List, [], ◌∷◌, Result, ok, err,
  reject, require_eq, ok_or, map_err, ◌>>=◌, ◌>>◌, ltb, length, any, Eq, ◌==◌, ◌!=◌, nat_eq,
  string_eq, list_eq, if◌then◌else◌,
}
use soverign_founder_os.Base.Int.{ℤ, int_eq}
use soverign_founder_os.Base.Text.{Bytes}
use soverign_founder_os.Contracts.{Uuid}
use soverign_founder_os.External.{Crypto, Cose}
use soverign_founder_os.Identity.Trust.{RoleTrustStore, VerifiedCosePayload, verify}
use soverign_founder_os.Authority.{
  AuthorityStore, ClaimIo, Formats, consume_token, bind_idempotency, consume_approval,
}
use soverign_founder_os.Artifact.{
  Digest, PreparedInvocation, pure_compute, core_wasm, risk_class_eq, backend_eq,
}
use soverign_founder_os.Policy.{PolicyAuthorizationV2}
use soverign_founder_os.Capability.Errors.{
  CapabilityV2Error, invalid_issuer, invalid_audience, token_too_large, claims_too_large,
  invalid_claims, non_canonical_payload, type_mismatch, unsupported_version, issuer_mismatch,
  issuer_key_mismatch, audience_mismatch, invalid_use_limit, unsupported_risk_class,
  backend_downgrade_denied, venture_mismatch, subject_mismatch, session_mismatch, policy_denied,
  policy_authorization_mismatch, replay, approval_evidence_unavailable,
  unexpected_approval_evidence, approval_evidence_mismatch, approval_trust_unavailable,
  approval_reused, idempotency_replay, idempotency_conflict, map_identity_error,
  map_authority_error_token, map_authority_error_idempotency, map_authority_error_approval,
}
use soverign_founder_os.Capability.Claims.{
  ApprovalEvidenceV2, CapabilityClaimsV2, Jcs, policy_decision_digest, canonical_claims,
  invocation_fingerprint, capability_v2_max_token_bytes, capability_v2_max_payload_bytes,
}
use soverign_founder_os.Capability.Checks.{
  Check, validate_identifier, validate_claim_lifetime, validate_supported_invocation,
  compare_invocation_claims, validate_policy_authorization, validate_policy_freshness,
}
use soverign_founder_os.Capability.Approval.{verify_approval}
use soverign_founder_os.Capability.Issuer.{ApprovalTrust, max_policy_age, capability_v2_type}

pub record CapabilityV2ValidationContext : Type 0 where
  pub venture_id : String
  pub subject_id : String
  pub session_id : Uuid
  pub policy_decision : PolicyAuthorizationV2
  pub prepared_invocation : PreparedInvocation

-- The sets and the map of the process are lists of what was inserted.
pub record CapabilityValidatorV2 : Type 0 where
  pub trust_store : RoleTrustStore
  pub expected_issuer : String
  pub expected_audience : String
  pub consumed_tokens : List Uuid
  pub idempotency : List (Uuid × Digest)
  pub approvals : Option ApprovalTrust
  pub consumed_approvals : List Uuid
  pub authority_store : Option AuthorityStore

-- `CapabilityValidatorV2::new`
pub new_validator :
    RoleTrustStore → String → String → Result CapabilityV2Error CapabilityValidatorV2
new_validator trust_store expected_issuer expected_audience = do
  validate_identifier expected_issuer invalid_issuer
  validate_identifier expected_audience invalid_audience
  ok (record {
    trust_store = trust_store;
    expected_issuer = expected_issuer;
    expected_audience = expected_audience;
    consumed_tokens = [];
    idempotency = [];
    approvals = none;
    consumed_approvals = [];
    authority_store = none;
  })

-- `CapabilityValidatorV2::with_approval_trust`
pub with_approval_trust :
    RoleTrustStore → String → CapabilityValidatorV2 → Result CapabilityV2Error CapabilityValidatorV2
with_approval_trust trust expected_issuer validator = do
  validate_identifier expected_issuer invalid_issuer
  ok (record validator {
    approvals = some (record { trust = trust; expected_issuer = expected_issuer });
  })

-- `CapabilityValidatorV2::with_authority_store`
pub with_authority_store : AuthorityStore → CapabilityValidatorV2 → CapabilityValidatorV2
with_authority_store store validator = record validator { authority_store = some store }

abbrev pub contains_uuid : Uuid → List Uuid → Bool
contains_uuid id ids = any (λ known. known == id) ids

abbrev pub lookup_fingerprint : Uuid → List (Uuid × Digest) → Option Digest
lookup_fingerprint key [] = none
lookup_fingerprint key ((k, d) ∷ rest) = if k == key then some d else lookup_fingerprint key rest

-- the comparisons of the opened claims with the envelope and with what this validator expects
check_claims : CapabilityValidatorV2 → VerifiedCosePayload → CapabilityClaimsV2 → ℤ → Check
check_claims validator verified claims now_unix = do
  require_eq claims.typ capability_v2_type type_mismatch
  require_eq claims.version 2 unsupported_version
  reject
      ((claims.issuer != validator.expected_issuer)
        || (verified.issuer != validator.expected_issuer))
      issuer_mismatch
  require_eq claims.issuer_key_id verified.key_id issuer_key_mismatch
  require_eq claims.audience validator.expected_audience audience_mismatch
  validate_claim_lifetime claims now_unix
  require_eq claims.max_uses 1 invalid_use_limit
  require_eq claims.risk_class pure_compute unsupported_risk_class
  require_eq claims.backend core_wasm backend_downgrade_denied

-- the comparisons with the context of the presenter
check_presenter : CapabilityV2ValidationContext → CapabilityClaimsV2 → Check
check_presenter context claims = do
  require_eq claims.venture_id context.venture_id venture_mismatch
  require_eq claims.subject_id context.subject_id subject_mismatch
  require_eq claims.session_id context.session_id session_mismatch
  validate_supported_invocation context.prepared_invocation
  compare_invocation_claims claims context.prepared_invocation

-- the test of the fingerprint that the process bound to the idempotency key
check_idempotency : Option Digest → Digest → Check
check_idempotency none fingerprint = ok tt
check_idempotency (some existing) fingerprint =
    if existing == fingerprint then err idempotency_replay else err idempotency_conflict

module _ (c : Crypto) (e : Cose) (j : Jcs) where
  open_token :
      CapabilityValidatorV2
      → Bytes
      → ℤ
      → Result CapabilityV2Error (VerifiedCosePayload × CapabilityClaimsV2)
  open_token validator token now_unix = do
    reject (ltb capability_v2_max_token_bytes (length token)) token_too_large
    verified ←
        map_err map_identity_error
          (verify c e validator.trust_store token validator.expected_issuer now_unix)
    reject (ltb capability_v2_max_payload_bytes (length verified.payload)) claims_too_large
    claims ← ok_or (j.claims_from_slice verified.payload) invalid_claims
    canonical ← canonical_claims c j claims
    require_eq canonical verified.payload non_canonical_payload
    ok (verified, claims)

  check_policy :
      CapabilityValidatorV2 → CapabilityV2ValidationContext → CapabilityClaimsV2 → ℤ → Check
  check_policy validator context claims now_unix = do
    validate_policy_authorization context.policy_decision validator.expected_audience
        context.venture_id context.subject_id context.session_id claims.idempotency_key
        context.prepared_invocation
    validate_policy_freshness context.policy_decision now_unix
        (max_policy_age claims.approval_evidence)
    reject (not context.policy_decision.allowed) policy_denied
    require_eq claims.policy_decision_id context.policy_decision.decision_id
        (policy_authorization_mismatch "decision_digest")
    digest ← policy_decision_digest c j context.policy_decision
    require_eq claims.policy_decision_digest digest
        (policy_authorization_mismatch "decision_digest")

  -- the three-way match on the requirement, the evidence in the claims and the presented approval;
  -- the answer is the approval to consume
  check_evidence :
      CapabilityValidatorV2
      → CapabilityV2ValidationContext
      → ℤ
      → Bool
      → Option ApprovalEvidenceV2
      → Option Bytes
      → Result CapabilityV2Error (Option Uuid)
  check_evidence validator context now false none none = ok none
  check_evidence validator context now true none _ = err approval_evidence_unavailable
  check_evidence validator context now false none (some _) = err unexpected_approval_evidence
  check_evidence validator context now false (some _) _ = err unexpected_approval_evidence
  check_evidence validator context now true (some _) none = err approval_evidence_mismatch
  check_evidence validator context now true (some evidence) (some approval) = do
    trust ← ok_or validator.approvals approval_trust_unavailable
    verified ← verify_approval c e j approval (record {
      trust = trust.trust;
      expected_issuer = trust.expected_issuer;
      audience = validator.expected_audience;
      venture_id = context.venture_id;
      subject_id = context.subject_id;
      session_id = context.session_id;
      policy_decision = context.policy_decision;
      prepared = context.prepared_invocation;
      now_unix = now;
    })
    reject
        ((verified.approval_id != evidence.approval_id)
          || (verified.approver_subject_id != evidence.approver_subject_id)
          || (verified.approved_at_unix != evidence.approved_at_unix))
        approval_evidence_mismatch
    reject (contains_uuid verified.approval_id validator.consumed_approvals) approval_reused
    ok (some verified.approval_id)

  -- What every check before the durable claims leaves: the claims, the approval and the fingerprint.
  pub authorize :
      CapabilityValidatorV2
      → ℤ
      → Bytes
      → CapabilityV2ValidationContext
      → Option Bytes
      → Result CapabilityV2Error (CapabilityClaimsV2 × Option Uuid × Digest)
  authorize validator now_unix token context approval = do
    opened ← open_token validator token now_unix
    let claims = opened.1
    check_claims validator opened.0 claims now_unix
    check_presenter context claims
    check_policy validator context claims now_unix
    reject (contains_uuid claims.token_id validator.consumed_tokens) replay
    approval_id ←
        check_evidence validator context now_unix context.policy_decision.requires_approval
          claims.approval_evidence approval
    fingerprint ← invocation_fingerprint c j claims
    check_idempotency (lookup_fingerprint claims.idempotency_key validator.idempotency) fingerprint
    ok (claims, approval_id, fingerprint)

abbrev insert_approval : Option Uuid → List Uuid → List Uuid
insert_approval none ids = ids
insert_approval (some id) ids = id ∷ ids

-- the bookkeeping of the process
abbrev consume :
    CapabilityClaimsV2 → Option Uuid → Digest → CapabilityValidatorV2 → CapabilityValidatorV2
consume claims approval_id fingerprint validator = record validator {
  consumed_tokens = claims.token_id ∷ validator.consumed_tokens;
  idempotency = (claims.idempotency_key, fingerprint) ∷ validator.idempotency;
  consumed_approvals = insert_approval approval_id validator.consumed_approvals;
}

module _ (f : Formats) where
  -- the durable claim of an approval, where there is one to consume
  claim_approval :
      ClaimIo
      → Option Uuid
      → ℤ
      → ℤ
      → AuthorityStore
      → Result CapabilityV2Error (Unit {0}) × AuthorityStore
  claim_approval io none now expires store = (ok tt, store)
  claim_approval io (some approval_id) now expires store =
      let (r, after) = consume_approval f io approval_id now expires store in
      (map_err map_authority_error_approval r, after)

  -- a claim is made only after the one before it, and each stays made if a later one fails
  after_claim :
      Result CapabilityV2Error (Unit {0}) × AuthorityStore
      → (AuthorityStore → Result CapabilityV2Error (Unit {0}) × AuthorityStore)
      → Result CapabilityV2Error (Unit {0}) × AuthorityStore
  after_claim (err error, store) next = (err error, store)
  after_claim (ok _, store) next = next store

  pub durable_claims :
      ClaimIo × ClaimIo × ClaimIo
      → CapabilityClaimsV2
      → Option Uuid
      → Digest
      → ℤ
      → AuthorityStore
      → Result CapabilityV2Error (Unit {0}) × AuthorityStore
  durable_claims (io_token, io_key, io_approval) claims approval_id fingerprint now store =
      let (token, s1) = consume_token f io_token claims.token_id now claims.expires_at_unix store in
      after_claim (map_err map_authority_error_token token, s1)
        λ s.
          let (key, s2) =
            bind_idempotency f io_key claims.idempotency_key fingerprint now claims.expires_at_unix
              s in
          after_claim (map_err map_authority_error_idempotency key, s2)
            (claim_approval io_approval approval_id now claims.expires_at_unix)

  pub finish :
      CapabilityClaimsV2
      → Option Uuid
      → Digest
      → CapabilityValidatorV2
      → Result CapabilityV2Error (Unit {0}) × AuthorityStore
      → Result CapabilityV2Error CapabilityClaimsV2 × CapabilityValidatorV2
  finish claims approval_id fingerprint validator (err error, store) =
      (err error, record validator { authority_store = some store })
  finish claims approval_id fingerprint validator (ok _, store) = (
    ok claims,
    consume claims approval_id fingerprint (record validator { authority_store = some store }),
  )

  unfoldable pub consume_durably :
      ClaimIo × ClaimIo × ClaimIo
      → ℤ
      → CapabilityValidatorV2
      → Option AuthorityStore
      → CapabilityClaimsV2 × Option Uuid × Digest
      → Result CapabilityV2Error CapabilityClaimsV2 × CapabilityValidatorV2
  consume_durably io now validator none (claims, approval_id, fingerprint) =
      (ok claims, consume claims approval_id fingerprint validator)
  consume_durably io now validator (some store) (claims, approval_id, fingerprint) =
      finish claims approval_id fingerprint validator
        (durable_claims io claims approval_id fingerprint now store)

  unfoldable pub and_consume :
      ClaimIo × ClaimIo × ClaimIo
      → ℤ
      → CapabilityValidatorV2
      → Result CapabilityV2Error (CapabilityClaimsV2 × Option Uuid × Digest)
      → Result CapabilityV2Error CapabilityClaimsV2 × CapabilityValidatorV2
  and_consume io now validator (err error) = (err error, validator)
  and_consume io now validator (ok authorized) =
      consume_durably io now validator validator.authority_store authorized

  module _ (c : Crypto) (e : Cose) (j : Jcs) where
    -- `authorize_and_consume` is this without an approval.
    unfoldable pub authorize_and_consume_approved :
        ClaimIo × ClaimIo × ClaimIo
        → ℤ
        → CapabilityValidatorV2
        → Bytes
        → CapabilityV2ValidationContext
        → Option Bytes
        → Result CapabilityV2Error CapabilityClaimsV2 × CapabilityValidatorV2
    authorize_and_consume_approved io now validator token context approval =
        and_consume io now validator (authorize c e j validator now token context approval)
