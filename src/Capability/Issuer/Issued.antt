-- ===== src/Capability/Issuer/Issued.antt =====
-- What `issue_inner` of crates/capability/src/v2.rs puts into a token without an approval.
use Prim.Native.String.{len}
use soverign_founder_os.Base.{
  refl, sym, ◌≢◌, All, any-false, !=-false, ◌==◌, String, ℕ, ◌≡◌, ◌≤◌, Bool, true, false, Option,
  some, none, ok, arith, nat_eq, string_eq, list_eq, >>=-eq-ok, Option-cases, inl, inr, length,
}
use soverign_founder_os.Base.Int.{ℤ, pos, ◌≤ℤ◌, ◌<ℤ◌, ◌+ℤ◌}
use soverign_founder_os.Base.Text.{Bytes, codes, trim, is_control}
use soverign_founder_os.Contracts.{Uuid}
use soverign_founder_os.External.{Crypto, Cose}
use soverign_founder_os.Identity.Trust.{sign_cose}
use soverign_founder_os.Policy.{malformed}
use soverign_founder_os.Artifact.{
  PreparedInvocation, pure_compute, core_wasm, risk_class_eq, backend_eq,
}
use soverign_founder_os.Capability.Claims.{
  ApprovalEvidenceV2, CapabilityClaimsV2, Jcs, policy_decision_digest,
  capability_v2_max_ttl_seconds, capability_v2_max_policy_age_seconds,
}
use soverign_founder_os.Capability.Checks.{
  validate_supported_invocation, validate_policy_authorization, validate_policy_freshness,
}
use soverign_founder_os.Capability.Checks.Lemmas.{
  Names, Covers, validate_policy_freshness_lem, validate_policy_authorization_iff,
}
use soverign_founder_os.Capability.Issuer.{
  CapabilityIssuerV2, CapabilityV2IssueRequest, issue_inner, issued_claims, sign_claims,
  check_request, issue_evidence,
}

-- A text that may name a party: it is not empty, does not begin or end with white space, has at most
-- 512 bytes, and has no control characters.
pub record IsIdentifier (value : String) : Type 0 where
  pub nonempty : value ≢ ""
  pub trimmed : trim (codes value) ≡ codes value
  pub short : len value ≤ 512
  pub printable : All (λ code. is_control code ≡ false) (codes value)

malformed-IsIdentifier : (value : String) → malformed value ≡ false → IsIdentifier value
malformed-IsIdentifier value h =
    let named : (value == "") ≢ true = λ e. cc in
    record {
      nonempty = λ empty. named (rw empty refl);
      trimmed = !=-false (ground arith);
      short = ground arith;
      printable = any-false is_control (codes value) (ground arith);
    }

-- Pure computation, by core WebAssembly, on a primary resource with a well-formed name.
pub record IsSupported (prepared : PreparedInvocation) : Type 0 where
  pub risk_class : prepared.artifact.manifest.risk_class ≡ pure_compute
  pub backend : prepared.artifact.manifest.backend ≡ core_wasm
  pub resource : String
  pub present : prepared.primary_resource ≡ some resource
  pub named : IsIdentifier resource

validate_supported_invocation-IsSupported :
    (prepared : PreparedInvocation)
    → validate_supported_invocation prepared ≡ ok tt
    → IsSupported prepared
unfolding validate_supported_invocation
validate_supported_invocation-IsSupported prepared h =
    elim (Option-cases prepared.primary_resource) [
      | inl missing ↦ absurd (ground arith)
      | inr (resource, present) ↦ record {
        risk_class = ground arith;
        backend = ground arith;
        resource = resource;
        present = present;
        named = malformed-IsIdentifier resource (ground arith);
      }
    ]

-- The checks of the request, all of them but that the decision allows it.
pub record IsIssuable (issuer : CapabilityIssuerV2) (request : CapabilityV2IssueRequest)
    (issued : ℤ) : Type 0 where
  pub venture : IsIdentifier request.venture_id
  pub subject : IsIdentifier request.subject_id
  pub supported : IsSupported request.prepared_invocation
  pub covers :
      Covers request.policy_decision issuer.audience request.venture_id request.subject_id
        request.session_id request.idempotency_key request.prepared_invocation
  pub evaluated : request.policy_decision.evaluated_at_unix ≤ℤ issued
  pub fresh :
      issued
      ≤ℤ request.policy_decision.evaluated_at_unix +ℤ pos capability_v2_max_policy_age_seconds

issue_evidence_lem :
    (c : Crypto) (e : Cose) (j : Jcs) (issuer : CapabilityIssuerV2)
    (request : CapabilityV2IssueRequest) (now : ℤ) (required : Bool)
    {evidence : Option ApprovalEvidenceV2}
    → issue_evidence c e j issuer request now required none ≡ ok evidence
    → (required ≡ false) × (evidence ≡ none)
unfolding issue_evidence
issue_evidence_lem c e j issuer request now true h = absurd (ground arith)
issue_evidence_lem c e j issuer request now false h = ground arith

module _ (c : Crypto) (e : Cose) (j : Jcs) where
  -- The facts about issued claims that the validator tests.
  pub record IsIssued (issuer : CapabilityIssuerV2) (request : CapabilityV2IssueRequest)
      (issued : ℤ) (token_id : Uuid) (claims : CapabilityClaimsV2) : Type 0 where
    pub typ : claims.typ ≡ "sovereign.capability"
    pub version : claims.version ≡ 2
    pub issuer_name : claims.issuer ≡ issuer.signer.issuer
    pub key : claims.issuer_key_id ≡ issuer.signer.key_id
    pub audience : claims.audience ≡ issuer.audience
    pub token : claims.token_id ≡ token_id
    pub venture_id : claims.venture_id ≡ request.venture_id
    pub subject_id : claims.subject_id ≡ request.subject_id
    pub session_id : claims.session_id ≡ request.session_id
    pub names : Names claims request.prepared_invocation
    pub decision : claims.policy_decision_id ≡ request.policy_decision.decision_id
    pub digest :
        policy_decision_digest c j request.policy_decision ≡ ok claims.policy_decision_digest
    pub evidence : claims.approval_evidence ≡ none
    pub idempotency_key : claims.idempotency_key ≡ request.idempotency_key
    pub issued_at : claims.issued_at_unix ≡ issued
    pub expires_at : claims.expires_at_unix ≡ issued +ℤ request.ttl_seconds
    pub positive : pos 0 <ℤ request.ttl_seconds
    pub short : request.ttl_seconds ≤ℤ pos capability_v2_max_ttl_seconds
    pub max_uses : claims.max_uses ≡ 1

  issued_claims_lem :
      (issuer : CapabilityIssuerV2) (request : CapabilityV2IssueRequest) (issued : ℤ)
      (token_id : Uuid) {claims : CapabilityClaimsV2}
      → issued_claims c e j issuer request issued token_id none ≡ ok claims
      → IsIssued issuer request issued token_id claims
  unfolding issued_claims
  issued_claims_lem issuer request issued token_id {claims} h =
      elim (Option-cases request.prepared_invocation.primary_resource) [
        | inl missing ↦ absurd (ground arith)
        | inr (resource, present) ↦ ground arith
      ]

  sign_claims_lem :
      (issuer : CapabilityIssuerV2) (claims : CapabilityClaimsV2) {token : Bytes}
      → sign_claims c e j issuer claims ≡ ok token
      → (payload : Bytes) × (j.claims_to_vec claims ≡ some payload)
        × (length payload ≤ 65536)
        × (token ≡ sign_cose c e issuer.signer payload)
        × (length token ≤ 73728)
  unfolding sign_claims
  sign_claims_lem issuer claims h = elim (Option-cases (j.claims_to_vec claims)) [
    | inl missing ↦ absurd (ground arith)
    | inr (payload, encoded) ↦ (payload, encoded, ground arith, ground arith, ground arith)
  ]

  check_request-IsIssuable :
      (issuer : CapabilityIssuerV2) (request : CapabilityV2IssueRequest) (issued : ℤ) (age : ℕ)
      {u : Unit}
      → check_request c e j issuer request issued age ≡ ok u
      → age ≡ capability_v2_max_policy_age_seconds
      → IsIssuable issuer request issued
  unfolding check_request
  check_request-IsIssuable issuer request issued age h same =
      let prepared = request.prepared_invocation in
      let decision = request.policy_decision in
      let supported : validate_supported_invocation prepared ≡ ok tt = ground arith in
      let covered : validate_policy_authorization decision issuer.audience request.venture_id
            request.subject_id request.session_id request.idempotency_key prepared
          ≡ ok tt =
        ground arith in
      let current : validate_policy_freshness decision issued age ≡ ok tt = ground arith in
      let times = validate_policy_freshness_lem decision issued age {u = tt} current in
      record {
        venture = malformed-IsIdentifier request.venture_id (ground arith);
        subject = malformed-IsIdentifier request.subject_id (ground arith);
        supported = validate_supported_invocation-IsSupported prepared supported;
        covers =
            (validate_policy_authorization_iff decision issuer.audience request.venture_id
                request.subject_id request.session_id request.idempotency_key prepared).0
              covered;
        evaluated = times.0;
        fresh = rw (sym same) times.1;
      }

  -- An issued token: the checks that were passed, and the signed encoding of the claims.
  pub record IsToken (issuer : CapabilityIssuerV2) (request : CapabilityV2IssueRequest) (issued : ℤ)
      (token_id : Uuid) (token : Bytes) : Type 0 where
    pub claims : CapabilityClaimsV2
    pub is_issued : IsIssued issuer request issued token_id claims
    pub payload : Bytes
    pub encoded : j.claims_to_vec claims ≡ some payload
    pub small : length payload ≤ 65536
    pub signed : token ≡ sign_cose c e issuer.signer payload
    pub small_token : length token ≤ 73728
    pub issuable : IsIssuable issuer request issued
    pub supported : validate_supported_invocation request.prepared_invocation ≡ ok tt
    pub covered :
        validate_policy_authorization request.policy_decision issuer.audience request.venture_id
          request.subject_id request.session_id request.idempotency_key request.prepared_invocation
        ≡ ok tt
    pub fresh :
        validate_policy_freshness request.policy_decision issued
          capability_v2_max_policy_age_seconds
        ≡ ok tt
    pub allowed : request.policy_decision.allowed ≡ true
    pub unsupervised : request.policy_decision.requires_approval ≡ false

  check_request_lem :
      (issuer : CapabilityIssuerV2) (request : CapabilityV2IssueRequest) (issued : ℤ) (age : ℕ)
      {u : Unit}
      → check_request c e j issuer request issued age ≡ ok u
      → (validate_supported_invocation request.prepared_invocation ≡ ok tt)
        × (validate_policy_authorization request.policy_decision issuer.audience request.venture_id
              request.subject_id request.session_id request.idempotency_key
              request.prepared_invocation
            ≡ ok tt)
        × (validate_policy_freshness request.policy_decision issued age ≡ ok tt)
        × (request.policy_decision.allowed ≡ true)
  unfolding check_request
  check_request_lem issuer request issued age h = ground arith

  -- A token issued without an approval is the signer's signature over the canonical form of claims
  -- that name the request and expire with its lifetime. Every check was passed: the venture and the
  -- subject are well-formed identifiers; the invocation is pure computation by core WebAssembly on a
  -- well-formed primary resource; the decision covers the request and the invocation, is not from the
  -- future and at most as old as a decision may be, allows the request, and does not want an approval.
  pub issue_inner-IsToken :
      (issuer : CapabilityIssuerV2) (issued : ℤ) (token_id : Uuid)
      (request : CapabilityV2IssueRequest) {token : Bytes}
      → issue_inner c e j issuer issued token_id request none ≡ ok token
      → IsToken issuer request issued token_id token
  unfolding issue_inner
  issue_inner-IsToken issuer issued token_id request {token} h =
      let checked =
        check_request_lem issuer request issued capability_v2_max_policy_age_seconds {u = tt}
          (ground arith) in
      let issuable =
        check_request-IsIssuable issuer request issued capability_v2_max_policy_age_seconds {u = tt}
          (ground arith) refl in
      let (_, passed, rest) =
        >>=-eq-ok (check_request c e j issuer request issued capability_v2_max_policy_age_seconds) _
          h in
      let (evidence, answered, rest') =
        >>=-eq-ok
          (issue_evidence c e j issuer request issued request.policy_decision.requires_approval
            none)
          _ rest in
      let unsupervised =
        issue_evidence_lem c e j issuer request issued request.policy_decision.requires_approval
          answered in
      let (claims, built, signing) =
        >>=-eq-ok (issued_claims c e j issuer request issued token_id evidence) _ rest' in
      let (payload, encoded, small, signed, small_token) = sign_claims_lem issuer claims signing in
      record {
        claims = claims;
        is_issued =
            issued_claims_lem issuer request issued token_id (ground (arith, unsupervised.1));
        payload = payload;
        encoded = encoded;
        small = small;
        signed = signed;
        small_token = small_token;
        issuable = issuable;
        supported = checked.0;
        covered = checked.1;
        fresh = checked.2;
        allowed = checked.3;
        unsupervised = unsupervised.0;
      }
