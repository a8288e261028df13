-- ===== src/Gateway/Tests.antt =====
-- The theorems on crates/model/src/lib.rs for a gateway of three of its deterministic providers.
use Prim.Native.String.{◌++◌ as str_append}
use mathlib.Core.Option.{some-injective}
use soverign_founder_os.Base.{
  sym, ap, ◌∙◌, ok-inj, ℕ, zero, suc, ◌≤◌, ◌≡◌, refl, some, get_elem?, length, String, arith, inl,
  inr, List, [], ◌∷◌, err, ok,
}
use soverign_founder_os.Base.Text.{codes}
use soverign_founder_os.Contracts.{red, green, DataClass}
use soverign_founder_os.Gateway.{
  ModelProvider, ModelGateway, ModelRequest, healthy, degraded, down, deterministic, local_provider,
  local_echo, cloud_provider, failing, complete_request, default_template, echo_template, classify,
  by_health, record_skip, note_skip, served, tried, route, run_pass, second_pass, after_passes,
  output_too_large, local, unhealthy, failed, red_data_confidentiality,
}
use soverign_founder_os.Gateway.Confidential.{Behaviour, gateway_with, IsLocal, red_stays-IsLocal}
use soverign_founder_os.Gateway.Failover.{CanServe, IsTextOf, IsAnswered, failover}

abbrev providers : List ModelProvider
providers =
    deterministic (cloud_provider "cloud" healthy)
    ∷ deterministic (failing (local_provider "flaky" healthy))
    ∷ deterministic (local_echo "echo" degraded)
    ∷ []

abbrev gateway : ModelGateway
gateway = record { providers = providers }

abbrev request : DataClass → ModelRequest
request data_class = record {
  task = "draft";
  prompt = "hello";
  data_class = data_class;
  max_output_chars = 5;
}

abbrev outage : ModelProvider → Behaviour
outage provider = (λ _. down, λ _ _. err "lost")

red_stays-IsLocal_example :
    (complete_request (gateway_with outage gateway) (request red)
      ≡ complete_request gateway (request red))
    × IsLocal (complete_request gateway (request red))
red_stays-IsLocal_example = red_stays-IsLocal (request red) refl outage gateway

echo_serves : CanServe (request red) (deterministic (local_echo "echo" degraded))
unfolding deterministic local_echo echo_template
echo_serves = record { permitted = inr refl; up = cc; text = "hello"; completes = refl }

-- the cloud may not have the request, the second provider fails, and the third one echoes
short_texts :
    (k : ℕ) (other : ModelProvider) (text : String)
    → get_elem? providers k ≡ some other
    → IsTextOf (request red) other text
    → length (codes text) ≤ 5
unfolding deterministic local_provider local_echo cloud_provider failing echo_template
short_texts zero other text found t = elim t.permitted [
  | inl other_class ↦ absurd (other_class refl)
  | inr is_local ↦ absurd (cc)
]
short_texts (suc zero) other text found t =
    let same =
      some-injective (deterministic (failing (local_provider "flaky" healthy))) other found in
    let refused : err (str_append "flaky" " simulated failure") ≡ ok text =
      ap (λ p. p.complete t.pass (request red)) same ∙ t.completed in
    absurd (cc)
short_texts (suc (suc zero)) other text found t =
    let same = some-injective (deterministic (local_echo "echo" degraded)) other found in
    let echoed : "hello" ≡ text =
      ok-inj (ap (λ p. p.complete t.pass (request red)) same ∙ t.completed) in
    rw (sym echoed) (omega arith)
short_texts (suc (suc (suc k))) other text found t = absurd (cc)

failover_example : IsAnswered (request red) providers (complete_request gateway (request red))
failover_example =
    failover (request red) gateway 2 (deterministic (local_echo "echo" degraded)) refl echo_serves
      short_texts

-- the trail of a route, and the error for a long completion of the cloud provider
red_answer :
    complete_request gateway (request red)
    ≡ ok (
      record { text = "hello"; provider_id = "echo"; provider_trust = local },
      record {
        task = "draft";
        provider_id = "echo";
        provider_trust = local;
        data_class = red;
        provider_index = 2;
        output_chars = 5;
        skipped =
            record { provider_id = "cloud"; reason = red_data_confidentiality }
            ∷ record { provider_id = "flaky"; reason = failed }
            ∷ record { provider_id = "echo"; reason = unhealthy }
            ∷ [];
      },
    )
unfolding complete_request deterministic local_provider local_echo cloud_provider failing
    default_template echo_template classify by_health record_skip note_skip served tried route
    run_pass second_pass after_passes
red_answer = refl

green_answer : complete_request gateway (request green) ≡ err output_too_large
unfolding complete_request deterministic local_provider local_echo cloud_provider failing
    default_template echo_template classify by_health record_skip note_skip served tried route
    run_pass second_pass after_passes
green_answer = refl
