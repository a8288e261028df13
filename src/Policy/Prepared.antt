-- ===== src/Policy/Prepared.antt =====
-- Authorizations of prepared invocations: they agree with the V1 decision and bind the invocation.
use soverign_founder_os.Base.{◌≡◌, String, some, arith, ok}
use soverign_founder_os.Base.Int.{ℤ}
use soverign_founder_os.Contracts.{Uuid, DateTime, ActionRequest}
use soverign_founder_os.Artifact.{PreparedInvocation}
use soverign_founder_os.Policy.{
  AuthenticatedPolicyContextV2, PolicyAuthorizationV2, evaluate, evaluate_prepared,
}

-- The V1 request about the primary resource of a prepared invocation.
abbrev pub request_of : PreparedInvocation → AuthenticatedPolicyContextV2 → String → ActionRequest
request_of prepared context resource = record {
  actor_id = context.subject_id;
  venture_id = context.venture_id;
  tool = prepared.operation.tool_id;
  operation = prepared.operation.operation_id;
  resource = resource;
  data_class = context.data_class;
  automation_level = context.automation_level;
}

-- An authorization of a prepared invocation is about its primary resource, and it carries
-- the verdict, the approval requirement and the reason of the V1 decision on the same request.
pub evaluate_prepared-evaluate :
    (id : Uuid) (now_unix : ℤ) (now : DateTime) (prepared : PreparedInvocation)
    (context : AuthenticatedPolicyContextV2) {auth : PolicyAuthorizationV2}
    → evaluate_prepared id now_unix prepared context ≡ ok auth
    → (prepared.primary_resource ≡ some auth.primary_resource)
      × (let decision = evaluate id now (request_of prepared context auth.primary_resource) in
          (auth.allowed ≡ decision.allowed)
          × (auth.requires_approval ≡ decision.requires_approval)
          × (auth.reason ≡ decision.reason))
unfolding evaluate_prepared evaluate
evaluate_prepared-evaluate id now_unix now prepared context h = ground arith
