-- ===== src/Capability/Approval/Tests.antt =====
-- The theorem on `verify_approval` of crates/capability/src/approval.rs at a concrete approval.
use soverign_founder_os.Base.{length, ltb, false, ◌≡◌, refl, [], ◌∷◌, ok, arith, list_eq, nat_eq}
use soverign_founder_os.Base.Int.{pos, ◌-ℤ◌}
use soverign_founder_os.Base.Text.{Bytes, codes}
use soverign_founder_os.External.Toy.{toy_crypto, toy_cose}
use soverign_founder_os.External.Toy.Fields.{write_fields}
use soverign_founder_os.Identity.{approval}
use soverign_founder_os.Identity.Trust.{VerifiedCosePayload, sign_cose, verify}
use soverign_founder_os.Identity.Trust.Verify.{verify-sign_cose}
use soverign_founder_os.Identity.Toy.{toy_signer, toy_store, toy-Trusts}
use soverign_founder_os.Artifact.{domain_separated}
use soverign_founder_os.Artifact.Toy.{toy_prepared}
use soverign_founder_os.Capability.Toy.{toy_jcs, approval_fields}
use soverign_founder_os.Capability.Claims.{ApprovalClaimsV1, policy_decision_digest}
use soverign_founder_os.Capability.Issuer.Sample.{sample_decision}
use soverign_founder_os.Capability.Checks.{first_mismatch}
use soverign_founder_os.Capability.Approval.{
  ApprovalVerificationContext, verify_approval, open_approval, check_approver,
  check_approval_context, check_approval_invocation, check_approval_decision,
}
use soverign_founder_os.Capability.Approval.Sound.{IsApproved, verify_approval-IsApproved}

abbrev context : ApprovalVerificationContext
context = record {
  trust = toy_store approval;
  expected_issuer = "issuer";
  audience = "host";
  venture_id = "venture";
  subject_id = "founder";
  session_id = 5;
  policy_decision = sample_decision 6;
  prepared = toy_prepared;
  now_unix = pos 20;
}

abbrev claims : ApprovalClaimsV1
claims = record {
  typ = "sovereign.approval";
  version = 1;
  approval_id = 33;
  approver_issuer = "issuer";
  approver_key_id = (toy_signer approval).key_id;
  approver_subject_id = "owner";
  audience = "host";
  venture_id = "venture";
  subject_id = "founder";
  session_id = 5;
  tool = record { tool_id = "tool"; tool_version = "1"; operation = "run" };
  component_digest = 1 ∷ [];
  manifest_digest = 2 ∷ [];
  canonical_input_digest = 3 ∷ [];
  resource_bindings_digest = 4 ∷ [];
  primary_resource = "notes";
  policy_decision_id = 4;
  policy_decision_digest =
      domain_separated toy_crypto (codes "sovereign.capability.policy-authorization.jcs.v2")
        (4 ∷ 5 ∷ []);
  canonicalization_profile = "rfc8785-jcs+sovereign-digest-v1";
  approved_at_unix = pos 15;
  expires_at_unix = pos 100;
}

abbrev payload : Bytes
payload = write_fields (approval_fields claims)

abbrev signed : Bytes
signed = sign_cose toy_crypto toy_cose (toy_signer approval) payload

abbrev envelope : VerifiedCosePayload
envelope = record { issuer = "issuer"; key_id = (toy_signer approval).key_id; payload = payload }

authentic : verify toy_crypto toy_cose (toy_store approval) signed "issuer" (pos 20) ≡ ok envelope
authentic =
    verify-sign_cose toy_crypto toy_cose (toy_store approval) (toy_signer approval) (pos 20)
      (toy-Trusts approval 20 (ground arith)) payload

short : ltb 32768 (length signed) ≡ false
unfolding sign_cose domain_separated
short = refl

opened : open_approval toy_crypto toy_cose toy_jcs signed context ≡ ok (envelope, claims)
unfolding open_approval domain_separated
opened = rw (short, authentic) refl

by_approver : check_approver envelope claims ≡ ok tt
unfolding check_approver
by_approver = refl

for_context : check_approval_context context claims ≡ ok tt
unfolding check_approval_context
for_context = refl

of_invocation : check_approval_invocation toy_prepared claims ≡ ok tt
unfolding check_approval_invocation first_mismatch
of_invocation = refl

of_decision :
    check_approval_decision toy_crypto toy_cose toy_jcs (sample_decision 6) (pos 20) claims ≡ ok tt
unfolding check_approval_decision policy_decision_digest ◌-ℤ◌ domain_separated
of_decision = refl

verified : verify_approval toy_crypto toy_cose toy_jcs signed context ≡ ok claims
unfolding verify_approval
verified = rw (opened, by_approver, for_context, of_invocation, of_decision) refl

verify_approval-IsApproved_example : IsApproved toy_crypto toy_cose toy_jcs context claims
verify_approval-IsApproved_example =
    verify_approval-IsApproved toy_crypto toy_cose toy_jcs signed context verified
