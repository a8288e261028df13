-- ===== src/Capability/Checks/Tests.antt =====
-- The theorems on the checks of crates/capability/src/v2.rs at concrete claims and decisions.
use soverign_founder_os.Base.{◌≡◌, ◌↔◌, refl, ok}
use soverign_founder_os.Base.Int.{pos, ◌≤ℤ◌, ◌<ℤ◌, ◌+ℤ◌, ◌-ℤ◌}
use soverign_founder_os.Contracts.{green, l1_draft}
use soverign_founder_os.Artifact.Toy.{toy_prepared}
use soverign_founder_os.Policy.{
  PolicyAuthorizationV2, evaluate_prepared, AuthenticatedPolicyContextV2,
}
use soverign_founder_os.Capability.Checks.{
  compare_invocation_claims, validate_claim_lifetime, validate_policy_authorization,
}
use soverign_founder_os.Capability.Checks.Lemmas.{
  Names, Covers, compare_invocation_claims_iff, validate_policy_authorization_iff,
  validate_claim_lifetime_lem,
}
use soverign_founder_os.Capability.Checks.Decided.{validate-evaluate_prepared}
use soverign_founder_os.Capability.Issuer.Sample.{sample_decision, sample_claims}

compare_invocation_claims_iff_example :
    (compare_invocation_claims (sample_claims 77 6) toy_prepared ≡ ok tt)
    ↔ Names (sample_claims 77 6) toy_prepared
compare_invocation_claims_iff_example =
    compare_invocation_claims_iff (sample_claims 77 6) toy_prepared

validate_policy_authorization_iff_example :
    (validate_policy_authorization (sample_decision 6) "host" "venture" "founder" 5 6 toy_prepared
      ≡ ok tt)
    ↔ Covers (sample_decision 6) "host" "venture" "founder" 5 6 toy_prepared
validate_policy_authorization_iff_example =
    validate_policy_authorization_iff (sample_decision 6) "host" "venture" "founder" 5 6
      toy_prepared

in_time : validate_claim_lifetime (sample_claims 77 6) (pos 20) ≡ ok tt
unfolding validate_claim_lifetime ◌-ℤ◌
in_time = refl

validate_claim_lifetime_lem_example :
    (pos 10 ≤ℤ pos 20) × (pos 20 <ℤ pos 70) × (pos 70 ≤ℤ pos 10 +ℤ pos 300)
validate_claim_lifetime_lem_example =
    validate_claim_lifetime_lem (sample_claims 77 6) (pos 20) in_time

abbrev context : AuthenticatedPolicyContextV2
context = record {
  audience = "host";
  venture_id = "venture";
  subject_id = "founder";
  session_id = 5;
  data_class = green;
  automation_level = l1_draft;
  idempotency_key = 6;
}

decided :
    (auth : PolicyAuthorizationV2) × (evaluate_prepared 4 (pos 10) toy_prepared context ≡ ok auth)
unfolding evaluate_prepared
decided = (_, refl)

validate-evaluate_prepared_example :
    validate_policy_authorization decided.0 "host" "venture" "founder" 5 6 toy_prepared ≡ ok tt
validate-evaluate_prepared_example =
    validate-evaluate_prepared 4 (pos 10) toy_prepared context decided.1
