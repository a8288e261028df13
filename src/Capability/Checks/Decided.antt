-- ===== src/Capability/Checks/Decided.antt =====
-- From crates/policy to crates/capability: what `evaluate_prepared` decides, the checks accept.
use soverign_founder_os.Base.{◌≡◌, ok, arith}
use soverign_founder_os.Base.Int.{ℤ}
use soverign_founder_os.Contracts.{Uuid}
use soverign_founder_os.Artifact.{PreparedInvocation}
use soverign_founder_os.Policy.{
  AuthenticatedPolicyContextV2, PolicyAuthorizationV2, evaluate_prepared,
}
use soverign_founder_os.Capability.Checks.{validate_policy_authorization}
use soverign_founder_os.Capability.Checks.Lemmas.{validate_policy_authorization_iff}

-- An authorization that the policy engine gives for a prepared invocation passes the check of the
-- issuer and of the validator for that invocation and the engine's context, allowed or not.
pub validate-evaluate_prepared :
    (id : Uuid) (now_unix : ℤ) (prepared : PreparedInvocation)
    (context : AuthenticatedPolicyContextV2) {auth : PolicyAuthorizationV2}
    → evaluate_prepared id now_unix prepared context ≡ ok auth
    → validate_policy_authorization auth context.audience context.venture_id context.subject_id
        context.session_id context.idempotency_key prepared
      ≡ ok tt
unfolding evaluate_prepared
validate-evaluate_prepared id now_unix prepared context {auth} h =
    (validate_policy_authorization_iff auth context.audience context.venture_id context.subject_id
        context.session_id context.idempotency_key prepared).1
      (ground arith)
