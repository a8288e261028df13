-- ===== src/Capability/Issuer/Sample.antt =====
-- A request and the token that is issued for it, for the witnesses.
use soverign_founder_os.Base.{
  ℕ, ◌≡◌, refl, String, Bool, true, false, Option, some, none, List, [], ◌∷◌, Result, ok, arith,
}
use soverign_founder_os.Base.Int.{pos, ◌+ℤ◌}
use soverign_founder_os.Base.Text.{Bytes, codes}
use soverign_founder_os.Contracts.{Uuid, green, l1_draft}
use soverign_founder_os.External.Toy.{toy_crypto, toy_cose}
use soverign_founder_os.External.Toy.Fields.{write_fields}
use soverign_founder_os.Identity.{authority}
use soverign_founder_os.Identity.Trust.{sign_cose}
use soverign_founder_os.Identity.Toy.{toy_signer}
use soverign_founder_os.Artifact.{domain_separated, pure_compute, core_wasm}
use soverign_founder_os.Artifact.Toy.{toy_prepared}
use soverign_founder_os.Policy.{PolicyAuthorizationV2}
use soverign_founder_os.Capability.Toy.{toy_jcs, claims_fields}
use soverign_founder_os.Capability.Claims.{CapabilityClaimsV2, policy_decision_digest}
use soverign_founder_os.Capability.Checks.{
  validate_supported_invocation, validate_policy_authorization,
}
use soverign_founder_os.Capability.Checks.Lemmas.{
  validate_policy_authorization_iff, validate_policy_freshness_ok,
}
use soverign_founder_os.Capability.Issuer.{
  CapabilityIssuerV2, CapabilityV2IssueRequest, issue_inner, check_request, issue_evidence,
  issued_claims, sign_claims,
}

abbrev pub sample_decision : Uuid → PolicyAuthorizationV2
sample_decision key = record {
  typ = "sovereign.policy-authorization";
  version = 2;
  decision_id = 4;
  allowed = true;
  reason = "allowed by default policy";
  requires_approval = false;
  evaluated_at_unix = pos 10;
  audience = "host";
  venture_id = "venture";
  subject_id = "founder";
  session_id = 5;
  data_class = green;
  automation_level = l1_draft;
  idempotency_key = key;
  tool = record { tool_id = "tool"; tool_version = "1"; operation = "run" };
  component_digest = 1 ∷ [];
  manifest_digest = 2 ∷ [];
  canonical_input_digest = 3 ∷ [];
  resource_bindings_digest = 4 ∷ [];
  canonicalization_profile = "rfc8785-jcs+sovereign-digest-v1";
  primary_resource = "notes";
  risk_class = pure_compute;
  backend = core_wasm;
}

abbrev pub sample_issuer : CapabilityIssuerV2
sample_issuer = record { signer = toy_signer authority; audience = "host"; approvals = none }

abbrev pub sample_request : Uuid → CapabilityV2IssueRequest
sample_request key = record {
  venture_id = "venture";
  subject_id = "founder";
  session_id = 5;
  policy_decision = sample_decision key;
  prepared_invocation = toy_prepared;
  ttl_seconds = pos 60;
  idempotency_key = key;
}

abbrev pub sample_claims : Uuid → Uuid → CapabilityClaimsV2
sample_claims id key = record {
  typ = "sovereign.capability";
  version = 2;
  issuer = "issuer";
  issuer_key_id = (toy_signer authority).key_id;
  audience = "host";
  token_id = id;
  venture_id = "venture";
  subject_id = "founder";
  session_id = 5;
  tool = record { tool_id = "tool"; tool_version = "1"; operation = "run" };
  component_digest = 1 ∷ [];
  manifest_digest = 2 ∷ [];
  canonical_input_digest = 3 ∷ [];
  resource_bindings_digest = 4 ∷ [];
  canonicalization_profile = "rfc8785-jcs+sovereign-digest-v1";
  primary_resource = "notes";
  policy_decision_id = 4;
  policy_decision_digest =
      domain_separated toy_crypto (codes "sovereign.capability.policy-authorization.jcs.v2")
        (4 ∷ 5 ∷ []);
  approval_evidence = none;
  idempotency_key = key;
  issued_at_unix = pos 10;
  expires_at_unix = pos 70;
  max_uses = 1;
  risk_class = pure_compute;
  backend = core_wasm;
}

abbrev pub sample_token : Uuid → Uuid → Bytes
sample_token id key =
    sign_cose toy_crypto toy_cose (toy_signer authority)
      (write_fields (claims_fields (sample_claims id key)))

pub sample_supported : validate_supported_invocation toy_prepared ≡ ok tt
unfolding validate_supported_invocation soverign_founder_os.Base.Text.trim
    soverign_founder_os.Artifact.RiskClass-discrete
    soverign_founder_os.Artifact.ArtifactBackend-discrete
sample_supported = refl

covered :
    (key : Uuid)
    → validate_policy_authorization
        (sample_decision key)
        "host"
        "venture"
        "founder"
        5
        key
        toy_prepared
      ≡ ok tt
covered key =
    (validate_policy_authorization_iff (sample_decision key) "host" "venture" "founder" 5 key
        toy_prepared).1
      (record {
        same_audience = refl;
        same_venture_id = refl;
        same_subject_id = refl;
        same_session_id = refl;
        same_idempotency_key = refl;
        tool_id = refl;
        operation = refl;
        tool_version = refl;
        resource = refl;
        component = refl;
        manifest = refl;
        input = refl;
        bindings = refl;
        profile = refl;
        risk_class = refl;
        backend = refl;
      })

checked :
    (key : Uuid)
    → check_request toy_crypto toy_cose toy_jcs sample_issuer (sample_request key) (pos 10) 30
      ≡ ok tt
unfolding check_request soverign_founder_os.Base.Text.trim ◌+ℤ◌
checked key =
    let fresh =
      validate_policy_freshness_ok (sample_decision key) (pos 10) 30 (ground arith) (ground arith)
        (ground arith) in
    rw (sample_supported, covered key, fresh) refl

built :
    (id key : Uuid)
    → issued_claims toy_crypto toy_cose toy_jcs sample_issuer (sample_request key) (pos 10) id none
      ≡ ok (sample_claims id key)
unfolding issued_claims policy_decision_digest ◌+ℤ◌
built id key = refl

signed :
    (id key : Uuid)
    → sign_claims toy_crypto toy_cose toy_jcs sample_issuer (sample_claims id key)
      ≡ ok (sample_token id key)
unfolding sign_claims sign_cose domain_separated
signed id key = refl

pub sample_issued :
    (id key : Uuid)
    → issue_inner toy_crypto toy_cose toy_jcs sample_issuer (pos 10) id (sample_request key) none
      ≡ ok (sample_token id key)
unfolding issue_inner issue_evidence
sample_issued id key = rw (checked key, built id key, signed id key) refl
