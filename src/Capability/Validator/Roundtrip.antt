-- ===== src/Capability/Validator/Roundtrip.antt =====
-- From `issue_inner` to `authorize_and_consume_inner` of crates/capability/src/v2.rs: what the issuer
-- signs, a matching validator authorizes.
use soverign_founder_os.Base.{
  ◌≡◌, sym, ap, ◌∙◌, false, some, none, ok, arith, nat_eq, string_eq, list_eq, ==-refl,
}
use text.Mathlib.TextEquality.{eq_iff}
use soverign_founder_os.Base.Int.{ℤ, pos, ◌≤ℤ◌, ◌<ℤ◌, ◌+ℤ◌}
use soverign_founder_os.Base.Text.{Bytes, codes}
use soverign_founder_os.Contracts.{Uuid}
use soverign_founder_os.External.{Crypto, Cose}
use soverign_founder_os.Identity.Trust.Verify.{Trusts, verify-sign_cose}
use soverign_founder_os.Artifact.{domain_separated, Digest, risk_class_eq, backend_eq}
use soverign_founder_os.Capability.Claims.{
  CapabilityClaimsV2, Jcs, Fingerprint, fingerprint_of, invocation_fingerprint,
  capability_v2_max_policy_age_seconds,
}
use soverign_founder_os.Capability.Checks.{validate_supported_invocation}
use soverign_founder_os.Capability.Checks.Lemmas.{
  validate_supported_invocation_lem, validate_claim_lifetime_ok, validate_policy_freshness_lem,
  validate_policy_freshness_ok, compare_invocation_claims_iff,
}
use soverign_founder_os.Capability.Issuer.{
  capability_v2_type, CapabilityIssuerV2, CapabilityV2IssueRequest, issue_inner,
}
use soverign_founder_os.Capability.Issuer.Issued.{IsIssued, IsToken, issue_inner-IsToken}
use soverign_founder_os.Capability.Validator.{
  CapabilityValidatorV2, CapabilityV2ValidationContext, contains_uuid, check_claims,
  check_presenter, check_policy, check_evidence, check_idempotency, lookup_fingerprint, open_token,
  authorize,
}

-- the context that the holder of an issued token presents
abbrev pub context_of : CapabilityV2IssueRequest → CapabilityV2ValidationContext
context_of request = record {
  venture_id = request.venture_id;
  subject_id = request.subject_id;
  session_id = request.session_id;
  policy_decision = request.policy_decision;
  prepared_invocation = request.prepared_invocation;
}

module _ (c : Crypto) (e : Cose) (j : Jcs) where
  check_claims_ok :
      (validator : CapabilityValidatorV2) (issuer : CapabilityIssuerV2)
      (request : CapabilityV2IssueRequest) (issued now : ℤ) (token_id : Uuid)
      (claims : CapabilityClaimsV2) (payload : Bytes)
      → IsIssued c e j issuer request issued token_id claims
      → validator.expected_issuer ≡ issuer.signer.issuer
      → validator.expected_audience ≡ issuer.audience
      → validate_supported_invocation request.prepared_invocation ≡ ok tt
      → issued ≤ℤ now
      → now <ℤ issued +ℤ request.ttl_seconds
      → check_claims validator
          (record {
            issuer = issuer.signer.issuer;
            key_id = issuer.signer.key_id;
            payload = payload;
          })
          claims
          now
        ≡ ok tt
  unfolding check_claims
  check_claims_ok validator issuer request issued now token_id claims payload i same_issuer
        same_audience supported started lasting =
      let timely =
        validate_claim_lifetime_ok claims now request.ttl_seconds
          (i.expires_at ∙ ap (λ t. t +ℤ request.ttl_seconds) (sym i.issued_at)) i.positive i.short
          (rw i.issued_at started) (rw i.expires_at lasting) in
      ground (
        arith,
        i,
        timely,
        eq_iff claims.typ capability_v2_type,
        ==-refl issuer.signer.issuer,
        ==-refl issuer.audience,
        ==-refl issuer.signer.key_id,
        validate_supported_invocation_lem request.prepared_invocation {u = tt},
      )

  check_presenter_ok :
      (issuer : CapabilityIssuerV2) (request : CapabilityV2IssueRequest) (issued : ℤ)
      (token_id : Uuid) (claims : CapabilityClaimsV2)
      → IsIssued c e j issuer request issued token_id claims
      → validate_supported_invocation request.prepared_invocation ≡ ok tt
      → check_presenter (context_of request) claims ≡ ok tt
  unfolding check_presenter
  check_presenter_ok issuer request issued token_id claims i supported = ground (
    arith,
    i,
    supported,
    (compare_invocation_claims_iff claims request.prepared_invocation).1 i.names,
    ==-refl request.venture_id,
    ==-refl request.subject_id,
  )

  check_policy_ok :
      (validator : CapabilityValidatorV2) (issuer : CapabilityIssuerV2)
      (request : CapabilityV2IssueRequest) (issued now : ℤ) (token_id : Uuid) (token : Bytes)
      (t : IsToken c e j issuer request issued token_id token)
      → validator.expected_audience ≡ issuer.audience
      → issued ≤ℤ now
      → now ≤ℤ request.policy_decision.evaluated_at_unix +ℤ pos capability_v2_max_policy_age_seconds
      → check_policy c e j validator (context_of request) t.claims now ≡ ok tt
  unfolding check_policy
  check_policy_ok validator issuer request issued now token_id token t same_audience started fresh =
      let evaluated =
        validate_policy_freshness_lem request.policy_decision issued
          capability_v2_max_policy_age_seconds t.fresh in
      let still =
        validate_policy_freshness_ok request.policy_decision now
          capability_v2_max_policy_age_seconds (ground arith) (ground arith) fresh in
      ground
        (arith, t.is_issued, t.covered, t.allowed, still, ==-refl t.claims.policy_decision_digest)

  open_token_ok :
      (validator : CapabilityValidatorV2) (issuer : CapabilityIssuerV2)
      (request : CapabilityV2IssueRequest) (issued now : ℤ) (token_id : Uuid) (token : Bytes)
      (t : IsToken c e j issuer request issued token_id token)
      → validator.expected_issuer ≡ issuer.signer.issuer
      → Trusts c e validator.trust_store issuer.signer now
      → open_token c e j validator token now
        ≡ ok (
          record {
            issuer = issuer.signer.issuer;
            key_id = issuer.signer.key_id;
            payload = t.payload;
          },
          t.claims,
        )
  unfolding open_token
  open_token_ok validator issuer request issued now token_id token t same_issuer trusts =
      let verified =
        verify-sign_cose c e validator.trust_store issuer.signer now trusts t.payload in
      ground (
        arith,
        verified,
        t.signed,
        t.small,
        t.small_token,
        t.encoded,
        j.claims-from-to t.claims t.payload t.encoded,
        ==-refl t.payload,
      )

  -- The validator expects the issuer and its audience, trusts its key at the time, and has met
  -- neither the token nor its idempotency key.
  pub record IsMatching (validator : CapabilityValidatorV2) (issuer : CapabilityIssuerV2) (now : ℤ)
      (token_id idempotency_key : Uuid) : Type 0 where
    pub same_issuer : validator.expected_issuer ≡ issuer.signer.issuer
    pub same_audience : validator.expected_audience ≡ issuer.audience
    pub trusts : Trusts c e validator.trust_store issuer.signer now
    pub unused : contains_uuid token_id validator.consumed_tokens ≡ false
    pub unbound : lookup_fingerprint idempotency_key validator.idempotency ≡ none

  -- A token issued without an approval is authorized by a matching validator, for the same context
  -- and with nothing to consume but the token and its key, at any time from its issue to its expiry
  -- at which the decision is not older than half a minute, where every fingerprint has an encoding.
  pub authorize-issue_inner :
      (issuer : CapabilityIssuerV2) (issued now : ℤ) (token_id : Uuid)
      (request : CapabilityV2IssueRequest) (validator : CapabilityValidatorV2) {token : Bytes}
      → issue_inner c e j issuer issued token_id request none ≡ ok token
      → IsMatching validator issuer now token_id request.idempotency_key
      → issued ≤ℤ now
      → now <ℤ issued +ℤ request.ttl_seconds
      → now ≤ℤ request.policy_decision.evaluated_at_unix +ℤ pos capability_v2_max_policy_age_seconds
      → ((x : Fingerprint) → (b : Bytes) × (j.fingerprint_to_vec x ≡ some b))
      → (claims : CapabilityClaimsV2) × (fingerprint : Digest) × (authorize c e j validator now
            token
            (context_of request)
            none
          ≡ ok (claims, none, fingerprint))
        × (claims.token_id ≡ token_id)
        × (claims.idempotency_key ≡ request.idempotency_key)
  unfolding authorize invocation_fingerprint check_evidence check_idempotency
  authorize-issue_inner issuer issued now token_id request validator {token} h m started lasting
        fresh encodes =
      let t = issue_inner-IsToken c e j issuer issued token_id request h in
      let i = t.is_issued in
      let (canonical, encoded) = encodes (fingerprint_of c j t.claims) in
      let opened =
        open_token_ok validator issuer request issued now token_id token t m.same_issuer m.trusts in
      let claimed =
        check_claims_ok validator issuer request issued now token_id t.claims t.payload i
          m.same_issuer m.same_audience t.supported started lasting in
      let presented = check_presenter_ok issuer request issued token_id t.claims i t.supported in
      let allowed =
        check_policy_ok validator issuer request issued now token_id token t m.same_audience started
          fresh in
      (
        t.claims,
        domain_separated c (codes "sovereign.capability.idempotency-binding.jcs.v2") canonical,
        ground (
          arith, opened, claimed, presented, allowed, encoded, m.unused, m.unbound, i,
          t.unsupervised,
        ),
        i.token,
        i.idempotency_key,
      )
