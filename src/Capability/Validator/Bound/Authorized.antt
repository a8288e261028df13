-- ===== src/Capability/Validator/Bound/Authorized.antt =====
-- What `authorize_and_consume_inner` of crates/capability/src/v2.rs has established before it
-- consumes anything.
use soverign_founder_os.Base.{
  ◌≡◌, refl, false, Option, some, none, ok, arith, nat_eq, string_eq, list_eq, list_beq_iff,
  >>=-eq-ok, Option-cases, inl, inr, sym,
}
use soverign_founder_os.Base.Int.{ℤ}
use soverign_founder_os.Base.Text.{Bytes}
use soverign_founder_os.Contracts.{Uuid}
use soverign_founder_os.External.{Crypto, Cose}
use soverign_founder_os.Identity.Trust.{VerifiedCosePayload}
use soverign_founder_os.Identity.Trust.Verify.{IsAuthentic, verify-IsAuthentic}
use soverign_founder_os.Artifact.{Digest}
use soverign_founder_os.Capability.Claims.{CapabilityClaimsV2, Jcs, invocation_fingerprint}
use soverign_founder_os.Capability.Validator.{
  CapabilityValidatorV2, CapabilityV2ValidationContext, contains_uuid, check_idempotency,
  lookup_fingerprint, open_token, authorize,
}
use soverign_founder_os.Capability.Validator.Bound.{
  IsCurrent, IsPresented, IsAllowed, IsAnswered, check_claims_lem, check_presenter_lem,
  check_policy_lem, check_evidence_lem,
}

check_idempotency_lem :
    (bound : Option Digest) (fingerprint : Digest) {u : Unit}
    → check_idempotency bound fingerprint ≡ ok u
    → bound ≡ none
unfolding check_idempotency
check_idempotency_lem none fingerprint h = refl
check_idempotency_lem (some existing) fingerprint h = absurd (ground arith)

module _ (c : Crypto) (e : Cose) (j : Jcs) where
  -- Everything that the checks establish of the claims and of the approval to consume.
  pub record IsAuthorized (validator : CapabilityValidatorV2) (now : ℤ)
      (context : CapabilityV2ValidationContext) (claims : CapabilityClaimsV2)
      (approval_id : Option Uuid) (fingerprint : Digest) : Type 0 where
    pub envelope : VerifiedCosePayload
    pub authentic : IsAuthentic c e validator.trust_store validator.expected_issuer now envelope
    pub signed : j.claims_to_vec claims ≡ some envelope.payload
    pub own_key : claims.issuer_key_id ≡ envelope.key_id
    pub current : IsCurrent validator claims now
    pub presented : IsPresented context claims
    pub allowed : IsAllowed c e j validator context claims now
    pub unused : contains_uuid claims.token_id validator.consumed_tokens ≡ false
    pub answered :
        IsAnswered c e j validator context now context.policy_decision.requires_approval
          claims.approval_evidence approval_id
    pub binding : invocation_fingerprint c j claims ≡ ok fingerprint
    pub unbound : lookup_fingerprint claims.idempotency_key validator.idempotency ≡ none

  open_token_lem :
      (validator : CapabilityValidatorV2) (token : Bytes) (now : ℤ) {v : VerifiedCosePayload}
      {claims : CapabilityClaimsV2}
      → open_token c e j validator token now ≡ ok (v, claims)
      → IsAuthentic c e validator.trust_store validator.expected_issuer now v
        × (j.claims_to_vec claims ≡ some v.payload)
  unfolding open_token
  open_token_lem validator token now {v} {claims} h =
      let accepted =
        verify-IsAuthentic c e validator.trust_store token validator.expected_issuer now {v = v} in
      elim (Option-cases (j.claims_to_vec claims)) [
        | inl missing ↦ absurd (ground arith)
        | inr (canonical, encoded) ↦
            (accepted (ground arith), ground (arith, list_beq_iff canonical v.payload))
      ]

  -- What is authorized is the canonical content of a token that is authentic for the expected issuer
  -- and names the key that signed it; it is for this audience, in force and for one use; it is for
  -- the presenter's venture, subject, session and invocation; the decision covers the invocation,
  -- allows it, is fresh and is the one that the token names by its id and its digest; the token and its idempotency key were
  -- not used here; and evidence of an approval is there exactly where the decision wants one, with a
  -- valid approval behind it that was not used here.
  pub authorize-IsAuthorized :
      (validator : CapabilityValidatorV2) (now : ℤ) (token : Bytes)
      (context : CapabilityV2ValidationContext) (approval : Option Bytes)
      {claims : CapabilityClaimsV2} {approval_id : Option Uuid} {fingerprint : Digest}
      → authorize c e j validator now token context approval ≡ ok (claims, approval_id, fingerprint)
      → IsAuthorized validator now context claims approval_id fingerprint
  unfolding authorize
  authorize-IsAuthorized validator now token context approval {claims} {approval_id} {fingerprint}
        h =
      let (opened, parsed, rest) = >>=-eq-ok (open_token c e j validator token now) _ h in
      let same : opened.1 ≡ claims = ground arith in
      let envelope = open_token_lem validator token now {v = opened.0} {claims = opened.1} parsed in
      let checked = check_claims_lem validator opened.0 opened.1 now {u = tt} (ground arith) in
      let answered =
        check_evidence_lem c e j validator context now context.policy_decision.requires_approval
          opened.1.approval_evidence approval {id = approval_id} (ground arith) in
      record {
        envelope = opened.0;
        authentic = envelope.0;
        signed = ground (arith, envelope.1);
        own_key = ground (arith, checked.1);
        current = rw (sym same) checked.0;
        presented = rw (sym same) (check_presenter_lem context opened.1 {u = tt} (ground arith));
        allowed =
            rw (sym same)
              (check_policy_lem c e j validator context opened.1 now {u = tt} (ground arith));
        unused = ground arith;
        answered = rw (sym same) answered;
        binding = ground arith;
        unbound = ground (
          arith,
          check_idempotency_lem (lookup_fingerprint opened.1.idempotency_key validator.idempotency)
              fingerprint {u = tt},
        );
      }
