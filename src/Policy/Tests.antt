-- ===== src/Policy/Tests.antt =====
-- The theorems on crates/policy at concrete requests.
use soverign_founder_os.Base.{◌≡◌, ◌↔◌, ◌⊎◌, ◌≤◌, refl, true, some, [], ◌∷◌, ok}
use soverign_founder_os.Base.Int.{pos}
use soverign_founder_os.Contracts.{red, green, l1_draft, l2_approve_execute, discriminant}
use soverign_founder_os.Artifact.{pure_compute, core_wasm}
use soverign_founder_os.Artifact.Toy.{toy_prepared}
use soverign_founder_os.Policy.{
  evaluate, evaluate_rules, evaluate_prepared, AuthenticatedPolicyContextV2, PolicyAuthorizationV2,
}
use soverign_founder_os.Policy.Rules.{
  IsCloudLeak, IsEscape, IsHighRisk, evaluate_rules-allowed, evaluate_rules-requires_approval,
}
use soverign_founder_os.Policy.Prepared.{request_of, evaluate_prepared-evaluate}

evaluate_rules-allowed_example :
    ((evaluate_rules "cloud.llm" "send" "notes" red l1_draft).allowed ≡ true)
    ↔ (¬ IsCloudLeak "cloud.llm" red × ¬ IsEscape "notes")
evaluate_rules-allowed_example = evaluate_rules-allowed "cloud.llm" "notes" red "send" l1_draft

evaluate_rules-requires_approval_example :
    ((evaluate_rules "email" "send" "notes" green l1_draft).requires_approval ≡ true)
    ↔ ((2 ≤ discriminant l1_draft) ⊎ IsHighRisk "email" "send")
evaluate_rules-requires_approval_example =
    evaluate_rules-requires_approval "email" "send" "notes" green l1_draft

abbrev context : AuthenticatedPolicyContextV2
context = record {
  audience = "host";
  venture_id = "venture";
  subject_id = "founder";
  session_id = 5;
  data_class = green;
  automation_level = l2_approve_execute;
  idempotency_key = 6;
}

abbrev auth : PolicyAuthorizationV2
auth = record {
  typ = "sovereign.policy-authorization";
  version = 2;
  decision_id = 4;
  allowed = true;
  reason = "L2+ actions require human approval";
  requires_approval = true;
  evaluated_at_unix = pos 10;
  audience = "host";
  venture_id = "venture";
  subject_id = "founder";
  session_id = 5;
  data_class = green;
  automation_level = l2_approve_execute;
  idempotency_key = 6;
  tool = record { tool_id = "tool"; tool_version = "1"; operation = "run" };
  component_digest = 1 ∷ [];
  manifest_digest = 2 ∷ [];
  canonical_input_digest = 3 ∷ [];
  resource_bindings_digest = 4 ∷ [];
  canonicalization_profile = "rfc8785-jcs+sovereign-digest-v1";
  primary_resource = "notes";
  risk_class = pure_compute;
  backend = core_wasm;
}

evaluated : evaluate_prepared 4 (pos 10) toy_prepared context ≡ ok auth
unfolding evaluate_prepared evaluate_rules soverign_founder_os.Policy.DataClass-discrete
evaluated = refl

evaluate_prepared-evaluate_example :
    (toy_prepared.primary_resource ≡ some "notes")
    × (let decision = evaluate 4 (pos 10) (request_of toy_prepared context "notes") in
        (auth.allowed ≡ decision.allowed)
        × (auth.requires_approval ≡ decision.requires_approval)
        × (auth.reason ≡ decision.reason))
evaluate_prepared-evaluate_example =
    evaluate_prepared-evaluate 4 (pos 10) (pos 10) toy_prepared context evaluated
