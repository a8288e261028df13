-- ===== src/Capability/V1/Tests.antt =====
-- The theorems on the V1 tokens of crates/capability/src/lib.rs at a concrete token.
use soverign_founder_os.Base.{◌≤◌, ◌≡◌, refl, inr, true, [], ◌∷◌, ok, arith}
use soverign_founder_os.Base.Int.{pos, ◌+ℤ◌, ◌<ℤ◌}
use soverign_founder_os.Base.Text.{Bytes}
use soverign_founder_os.Contracts.{
  ActionRequest, PolicyDecision, CapabilityToken, CapabilityTokenBody, green, l1_draft,
}
use soverign_founder_os.External.Toy.{toy_crypto}
use soverign_founder_os.Identity.Device.{sign_legacy_v1}
use soverign_founder_os.Identity.Toy.{toy_device}
use soverign_founder_os.Capability.V1.{
  CapabilityIssuer, IssueOptions, new_validator, issue, validate,
}
use soverign_founder_os.Capability.V1.Uses.{Use, accepted, accepted_limit}
use soverign_founder_os.Capability.V1.Issued.{IsGrant, issue-IsGrant, validate-issue, context_at}

abbrev body_to_vec : CapabilityTokenBody → Bytes
body_to_vec body = body.token_id ∷ body.max_uses ∷ []

abbrev request : ActionRequest
request = record {
  actor_id = "founder";
  venture_id = "venture";
  tool = "tool";
  operation = "run";
  resource = "notes";
  data_class = green;
  automation_level = l1_draft;
}

abbrev decision : PolicyDecision
decision = record {
  decision_id = 4;
  allowed = true;
  reason = "allowed by default policy";
  requires_approval = true;
  evaluated_at = pos 9;
  request = request;
}

abbrev issuer : CapabilityIssuer
issuer = record { identity = toy_device }

abbrev options : IssueOptions
options = record { ttl = pos 60; max_uses = 1 }

abbrev token : CapabilityToken
token = record {
  token_id = 7;
  venture_id = "venture";
  actor_id = "founder";
  tool = "tool";
  operation = "run";
  resource = "notes";
  max_uses = 1;
  issued_at = pos 10;
  expires_at = pos 10 +ℤ pos 60;
  policy_decision_id = 4;
  issuer_public_key_b64 = toy_device.public_key_b64;
  signature_b64 = sign_legacy_v1 toy_crypto toy_device (7 ∷ 1 ∷ []);
}

issued : issue toy_crypto body_to_vec issuer (pos 10) 7 decision options true ≡ ok token
unfolding issue
issued = refl

issue-IsGrant_example : IsGrant toy_crypto body_to_vec issuer (pos 10) 7 decision options true token
issue-IsGrant_example =
    issue-IsGrant toy_crypto body_to_vec issuer (pos 10) 7 decision options true issued

in_time : pos 20 <ℤ pos 10 +ℤ pos 60
unfolding ◌+ℤ◌
in_time = ground arith

validate-issue_example :
    (validate toy_crypto body_to_vec token
      (context_at request (pos 20))
      (new_validator toy_device.public_key_b64)).0
    ≡ ok tt
validate-issue_example =
    validate-issue toy_crypto body_to_vec issuer (pos 10) (pos 20) 7 decision options true
      (new_validator toy_device.public_key_b64) issued refl refl in_time (ground arith)

abbrev use_token : Use toy_crypto body_to_vec
use_token = record { token = token; context = context_at request (pos 20) }

-- The same token is presented twice.
accepted_limit_example :
    accepted toy_crypto body_to_vec 7
      (use_token ∷ use_token ∷ [])
      (new_validator toy_device.public_key_b64)
    ≤ 1
accepted_limit_example =
    accepted_limit toy_crypto body_to_vec 7 1 toy_device.public_key_b64 (use_token ∷ use_token ∷ [])
      (inr (ground arith), (inr (ground arith), tt))
