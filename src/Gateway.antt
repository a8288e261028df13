-- ===== src/Gateway.antt =====
-- crates/model/src/lib.rs: the gateway that routes one request through an ordered list of providers.
-- A provider is a trait object, which may answer differently each time. It is asked for its health,
-- and for a completion, at most once in each of the two passes, so both are functions of the pass.
pub mod Confidential
pub mod Failover
mod Tests
use soverign_founder_os.Base.{
  ℕ, suc, String, Bool, true, false, not, ◌&&◌, List, [], ◌∷◌, ◌++◌, Result, ok, err, Eq,
  derived_eq, ◌==◌, ◌!=◌, string_eq, any, length, ltb, is_empty, if◌then◌else◌,
}
use soverign_founder_os.Base.Text.{codes}
use soverign_founder_os.Contracts.{DataClass, red}
use Prim.Native.String.{◌++◌ as str_append}

pub data ProviderTrust : Type 0 where
  local cloud : ProviderTrust

pub data Health : Type 0 where
  healthy degraded down : Health

pub record ModelRequest : Type 0 where
  pub task : String
  pub prompt : String
  pub data_class : DataClass
  pub max_output_chars : ℕ

pub record ModelResponse : Type 0 where
  pub text : String
  pub provider_id : String
  pub provider_trust : ProviderTrust

pub data SkipCause : Type 0 where
  red_data_confidentiality unhealthy failed : SkipCause

pub record SkipReason : Type 0 where
  pub provider_id : String
  pub reason : SkipCause

pub record DisclosureRecord : Type 0 where
  pub task : String
  pub provider_id : String
  pub provider_trust : ProviderTrust
  pub data_class : DataClass
  pub provider_index : ℕ
  pub output_chars : ℕ
  pub skipped : List SkipReason

pub data ModelError : Type 0 where
  all_providers_failed no_providers output_too_large : ModelError

-- The first argument of `health` and of `complete` is the pass: whether it allows degraded providers.
pub record ModelProvider : Type 0 where
  pub id : String
  pub trust : ProviderTrust
  pub health : Bool → Health
  pub complete : Bool → ModelRequest → Result String String

pub record ModelGateway : Type 0 where
  pub providers : List ModelProvider

pub data Eligibility : Type 0 where
  attempt : Eligibility
  skip : SkipCause → Eligibility

abbrev is_red : DataClass → Bool
is_red red = true
is_red _ = false

abbrev is_local : ProviderTrust → Bool
is_local local = true
is_local cloud = false

-- the health, once confidentiality permits the provider
by_health : Bool → Health → Eligibility
by_health allow_degraded healthy = attempt
by_health true degraded = attempt
by_health false degraded = skip unhealthy
by_health allow_degraded down = skip unhealthy

-- `ModelGateway::classify`
classify : ModelProvider → ModelRequest → Bool → Eligibility
classify provider request allow_degraded =
    if is_red request.data_class && not (is_local provider.trust)
    then skip red_data_confidentiality
    else by_health allow_degraded (provider.health allow_degraded)

record_skip : List SkipReason → String → SkipCause → List SkipReason
record_skip skipped provider_id reason =
    if any (λ (entry : SkipReason). entry.provider_id == provider_id) skipped
    then skipped
    else skipped ++ (record { provider_id = provider_id; reason = reason } ∷ [])

-- A provider that is unhealthy for the second time is not recorded again.
note_skip : Bool → List SkipReason → String → SkipCause → List SkipReason
note_skip true skipped provider_id unhealthy = skipped
note_skip _ skipped provider_id cause = record_skip skipped provider_id cause

abbrev pub Answer : Type 0
Answer = Result ModelError (ModelResponse × DisclosureRecord)

-- What one pass comes to: `complete` returns, or the loop ends with what was skipped.
pub data Pass : Type 0 where
  returned : Answer → Pass
  exhausted : List SkipReason → Pass

abbrev response : ModelProvider → String → ModelResponse
response provider text = record {
  text = text;
  provider_id = provider.id;
  provider_trust = provider.trust;
}

abbrev disclosure : ModelRequest → ModelProvider → ℕ → String → List SkipReason → DisclosureRecord
disclosure request provider index text skipped = record {
  task = request.task;
  provider_id = provider.id;
  provider_trust = provider.trust;
  data_class = request.data_class;
  provider_index = index;
  output_chars = length (codes text);
  skipped = skipped;
}

-- a text that a provider returned
served : ModelRequest → ModelProvider → ℕ → String → List SkipReason → Answer
served request provider index text skipped =
    if ltb request.max_output_chars (length (codes text))
    then err output_too_large
    else ok (response provider text, disclosure request provider index text skipped)

-- the arm of `Eligibility::Try`, once the provider answered
tried :
    ModelRequest
    → ℕ
    → ModelProvider
    → List SkipReason
    → (List SkipReason → Pass)
    → Result String String
    → Pass
tried request index provider skipped next (ok text) =
    returned (served request provider index text skipped)
tried request index provider skipped next (err _) = next (record_skip skipped provider.id failed)

-- the body of the loop; `next` is its rest
route :
    ModelRequest
    → Bool
    → ℕ
    → ModelProvider
    → List SkipReason
    → (List SkipReason → Pass)
    → Eligibility
    → Pass
route request allow_degraded index provider skipped next (skip cause) =
    next (note_skip allow_degraded skipped provider.id cause)
route request allow_degraded index provider skipped next attempt =
    tried request index provider skipped next (provider.complete allow_degraded request)

-- the loop over the providers
run_pass : ModelRequest → Bool → ℕ → List ModelProvider → List SkipReason → Pass
run_pass request allow_degraded index [] skipped = exhausted skipped
run_pass request allow_degraded index (provider ∷ providers) skipped =
    route request allow_degraded index provider skipped
      (run_pass request allow_degraded (suc index) providers)
      (classify provider request allow_degraded)

-- both passes
second_pass : ModelRequest → List ModelProvider → Pass → Pass
second_pass request providers (returned answer) = returned answer
second_pass request providers (exhausted skipped) = run_pass request true 0 providers skipped

after_passes : Pass → Answer
after_passes (returned answer) = answer
after_passes (exhausted skipped) = err all_providers_failed

-- `ModelGateway::complete`
pub complete_request : ModelGateway → ModelRequest → Answer
complete_request gateway request =
    if is_empty gateway.providers
    then err no_providers
    else after_passes
        (second_pass request gateway.providers (run_pass request false 0 gateway.providers []))

-- `DeterministicProvider`, whose health and template are fixed
pub record DeterministicProvider : Type 0 where
  pub id : String
  pub trust : ProviderTrust
  pub health : Health
  pub fail_on_call : Bool
  pub template : ModelRequest → String → String

echo_template : ModelRequest → String → String
echo_template request provider_id = request.prompt

default_template : ModelRequest → String → String
default_template request provider_id = str_append "[draft suggestion · " (
    str_append request.task
      (str_append " · via " (str_append provider_id (str_append "]\n" request.prompt))))

abbrev provider_of :
    String → ProviderTrust → Health → (ModelRequest → String → String) → DeterministicProvider
provider_of id trust health template = record {
  id = id;
  trust = trust;
  health = health;
  fail_on_call = false;
  template = template;
}

-- `DeterministicProvider::local`, `local_echo`, `cloud` and `failing`
local_provider : String → Health → DeterministicProvider
local_provider id health = provider_of id local health default_template

local_echo : String → Health → DeterministicProvider
local_echo id health = provider_of id local health echo_template

cloud_provider : String → Health → DeterministicProvider
cloud_provider id health = provider_of id cloud health default_template

failing : DeterministicProvider → DeterministicProvider
failing provider = record provider { fail_on_call = true }

-- `impl ModelProvider for DeterministicProvider`
deterministic : DeterministicProvider → ModelProvider
deterministic provider = record {
  id = provider.id;
  trust = provider.trust;
  health = λ _. provider.health;
  complete = λ _ request.
      if provider.fail_on_call
      then err (str_append provider.id " simulated failure")
      else ok (provider.template request provider.id);
}
