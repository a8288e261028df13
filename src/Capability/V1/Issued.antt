-- ===== src/Capability/V1/Issued.antt =====
-- What V1 tokens are issued for, and that they are accepted for it, crates/capability/src/lib.rs.
use soverign_founder_os.Base.{
  ◌<◌, ◌≡◌, ◌⊎◌, refl, ap, ◌∙◌, String, Bool, true, false, Result, ok, err, arith, nat_eq,
  string_eq, ==-refl,
}
use soverign_founder_os.Base.Int.{◌+ℤ◌, ◌<ℤ◌}
use soverign_founder_os.Base.Text.{Bytes}
use soverign_founder_os.Contracts.{
  Uuid, DateTime, PolicyDecision, ActionRequest, CapabilityToken, CapabilityTokenBody,
}
use soverign_founder_os.External.{Crypto}
use soverign_founder_os.Identity.Device.{IsDevice, sign_legacy_v1, verify-sign_legacy_v1}
use soverign_founder_os.Capability.V1.{
  CapabilityError, CapabilityIssuer, CapabilityValidator, IssueOptions, ValidationContext, issue,
  unsigned, uses_of, check_token, count_use, after_checks, validate, token_signing_bytes,
}

-- the context of the request, at a time
abbrev pub context_at : ActionRequest → DateTime → ValidationContext
context_at request now = record {
  venture_id = request.venture_id;
  actor_id = request.actor_id;
  tool = request.tool;
  operation = request.operation;
  resource = request.resource;
  now = now;
}

module _ (c : Crypto) (body_to_vec : CapabilityTokenBody → Bytes) where
  -- A token that an issuer made and signed.
  record IsSigned (issuer : CapabilityIssuer) (now : DateTime) (token_id : Uuid)
      (decision : PolicyDecision) (options : IssueOptions) (token : CapabilityToken) : Type 0 where
    signature : String
    is_token : token ≡ record (unsigned c body_to_vec issuer now token_id decision options) {
      signature_b64 = signature;
    }
    signed : signature ≡ sign_legacy_v1 c issuer.identity (token_signing_bytes c body_to_vec token)

  issue-IsSigned :
      (issuer : CapabilityIssuer) (now : DateTime) (token_id : Uuid) (decision : PolicyDecision)
      (options : IssueOptions) (approved : Bool) {token : CapabilityToken}
      → issue c body_to_vec issuer now token_id decision options approved ≡ ok token
      → IsSigned issuer now token_id decision options token
  unfolding issue
  issue-IsSigned issuer now token_id decision options approved {token} h =
      let made = unsigned c body_to_vec issuer now token_id decision options in
      let text = sign_legacy_v1 c issuer.identity (token_signing_bytes c body_to_vec made) in
      let same : token ≡ record made { signature_b64 = text } = ground arith in
      record { signature = text; is_token = same; signed = rw same refl }

  -- A token names the request that was allowed, and approved where that is required.
  pub record IsGrant (issuer : CapabilityIssuer) (now : DateTime) (token_id : Uuid)
      (decision : PolicyDecision) (options : IssueOptions) (approved : Bool)
      (token : CapabilityToken) : Type 0 where
    pub allowed : decision.allowed ≡ true
    pub consented : (decision.requires_approval ≡ false) ⊎ (approved ≡ true)
    pub lasting : now <ℤ now +ℤ options.ttl
    pub usable : 0 < options.max_uses
    pub identified : token.token_id ≡ token_id
    pub venture_id : token.venture_id ≡ decision.request.venture_id
    pub actor_id : token.actor_id ≡ decision.request.actor_id
    pub tool : token.tool ≡ decision.request.tool
    pub operation : token.operation ≡ decision.request.operation
    pub resource : token.resource ≡ decision.request.resource
    pub decided : token.policy_decision_id ≡ decision.decision_id
    pub issued_at : token.issued_at ≡ now
    pub expires_at : token.expires_at ≡ now +ℤ options.ttl
    pub max_uses : token.max_uses ≡ options.max_uses
    pub key : token.issuer_public_key_b64 ≡ issuer.identity.public_key_b64
    pub signed :
        token.signature_b64
        ≡ sign_legacy_v1 c issuer.identity (
            body_to_vec (record {
              token_id = token.token_id;
              venture_id = token.venture_id;
              actor_id = token.actor_id;
              tool = token.tool;
              operation = token.operation;
              resource = token.resource;
              max_uses = token.max_uses;
              issued_at = token.issued_at;
              expires_at = token.expires_at;
              policy_decision_id = token.policy_decision_id;
              issuer_public_key_b64 = token.issuer_public_key_b64;
            }))

  -- A token is issued only for an allowed decision, which is approved where it must be, for a
  -- positive lifetime and at least one use. It carries the decision's id, and the venture, actor,
  -- tool, operation and resource of its request; the times of issue and expiry and the number of
  -- uses that were asked for; and the issuer's key and signature over all of them.
  pub issue-IsGrant :
      (issuer : CapabilityIssuer) (now : DateTime) (token_id : Uuid) (decision : PolicyDecision)
      (options : IssueOptions) (approved : Bool) {token : CapabilityToken}
      → issue c body_to_vec issuer now token_id decision options approved ≡ ok token
      → IsGrant issuer now token_id decision options approved token
  unfolding issue ◌+ℤ◌
  issue-IsGrant issuer now token_id decision options approved {token} h =
      let s = issue-IsSigned issuer now token_id decision options approved h in
      record {
        allowed = ground arith;
        consented = ground arith;
        lasting = ground arith;
        usable = ground arith;
        identified = rw s.is_token refl;
        venture_id = rw s.is_token refl;
        actor_id = rw s.is_token refl;
        tool = rw s.is_token refl;
        operation = rw s.is_token refl;
        resource = rw s.is_token refl;
        decided = rw s.is_token refl;
        issued_at = rw s.is_token refl;
        expires_at = rw s.is_token refl;
        max_uses = rw s.is_token refl;
        key = rw s.is_token refl;
        signed = ap (λ t. t.signature_b64) s.is_token ∙ s.signed;
      }

  accepted_checks :
      (token : CapabilityToken) (validator : CapabilityValidator)
      (checks : Result CapabilityError (Unit {0}))
      → checks ≡ ok tt
      → uses_of token.token_id validator.uses < token.max_uses
      → (after_checks c body_to_vec token validator checks).0 ≡ ok tt
  unfolding after_checks count_use
  accepted_checks token validator (err error) h below = cc
  accepted_checks token validator (ok _) h below = ground arith

  -- A token that a device issues is accepted by a validator that trusts the device, for the context
  -- of the request, before the token expires, while it has uses left.
  pub validate-issue :
      (issuer : CapabilityIssuer) (issued now : DateTime) (token_id : Uuid)
      (decision : PolicyDecision) (options : IssueOptions) (approved : Bool)
      (validator : CapabilityValidator) {token : CapabilityToken}
      → issue c body_to_vec issuer issued token_id decision options approved ≡ ok token
      → IsDevice c issuer.identity
      → validator.trusted_issuer_public_key_b64 ≡ issuer.identity.public_key_b64
      → now <ℤ issued +ℤ options.ttl
      → uses_of token_id validator.uses < options.max_uses
      → (validate c body_to_vec token (context_at decision.request now) validator).0 ≡ ok tt
  unfolding validate check_token
  validate-issue issuer issued now token_id decision options approved validator {token} h own trusts
        lasting below =
      let g = issue-IsSigned issuer issued token_id decision options approved h in
      let request = decision.request in
      let verified =
        verify-sign_legacy_v1 c issuer.identity (token_signing_bytes c body_to_vec token) own in
      accepted_checks token validator
        (check_token c body_to_vec token (context_at request now) validator)
        (ground (
          arith,
          verified,
          g.is_token,
          g.signed,
          ==-refl issuer.identity.public_key_b64,
          ==-refl request.venture_id,
          ==-refl request.actor_id,
          ==-refl request.tool,
          ==-refl request.operation,
          ==-refl request.resource,
        ))
        (rw g.is_token below)
