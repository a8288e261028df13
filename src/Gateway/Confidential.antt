-- ===== src/Gateway/Confidential.antt =====
-- Which providers a request with red data reaches in crates/model/src/lib.rs.
use soverign_founder_os.Base.{
  ℕ, suc, ◌≡◌, refl, ap, ◌∙◌, fun_ext, String, Bool, true, false, ◌⊎◌, inl, inr, List, [], ◌∷◌, map,
  Result, ok, err, arith, Bool-cases, ltb, length,
}
use soverign_founder_os.Base.Text.{codes}
use soverign_founder_os.Contracts.{red}
use soverign_founder_os.Gateway.{
  ProviderTrust, local, cloud, Health, ModelRequest, SkipReason, ModelProvider, ModelGateway,
  Eligibility, skip, note_skip, red_data_confidentiality, classify, Answer, Pass, returned,
  exhausted, served, tried, route, run_pass, second_pass, after_passes, complete_request, attempt,
}

-- a provider that keeps its name and place, with another health and other completions
abbrev pub Behaviour : Type 0
Behaviour = (Bool → Health) × (Bool → ModelRequest → Result String String)

abbrev by_trust : ProviderTrust → ModelProvider → Behaviour → ModelProvider
by_trust local provider other = provider
by_trust cloud provider other = record provider { health = other.0; complete = other.1 }

abbrev pub with_cloud : (ModelProvider → Behaviour) → ModelProvider → ModelProvider
with_cloud other provider = by_trust provider.trust provider (other provider)

abbrev pub gateway_with : (ModelProvider → Behaviour) → ModelGateway → ModelGateway
gateway_with other gateway = record { providers = map (with_cloud other) gateway.providers }

abbrev pub IsLocal : Answer → Type 0
IsLocal (err error) = Unit
IsLocal (ok (response, disclosure)) =
    (response.provider_trust ≡ local) × (disclosure.provider_trust ≡ local)

abbrev IsLocalPass : Pass → Type 0
IsLocalPass (returned answer) = IsLocal answer
IsLocalPass (exhausted skipped) = Unit

trust_cases : (t : ProviderTrust) → (t ≡ local) ⊎ (t ≡ cloud)
trust_cases local = inl refl
trust_cases cloud = inr refl

by_trust-local :
    (t : ProviderTrust) (p : ModelProvider) (o : Behaviour) → t ≡ local → by_trust t p o ≡ p
by_trust-local t p o e = rw e refl

id-by_trust : (t : ProviderTrust) (p : ModelProvider) (o : Behaviour) → (by_trust t p o).id ≡ p.id
id-by_trust local p o = refl
id-by_trust cloud p o = refl

trust-by_trust :
    (t : ProviderTrust) (p : ModelProvider) (o : Behaviour) → (by_trust t p o).trust ≡ p.trust
trust-by_trust local p o = refl
trust-by_trust cloud p o = refl

module _ (request : ModelRequest) (is_red : request.data_class ≡ red) where
  classify-cloud :
      (provider : ModelProvider) (allow_degraded : Bool)
      → provider.trust ≡ cloud
      → classify provider request allow_degraded ≡ skip red_data_confidentiality
  unfolding classify
  classify-cloud provider allow_degraded e = ground (arith, is_red, e)

  module _ (other : ModelProvider → Behaviour) (allow_degraded : Bool) where
    route-with_cloud :
        (index : ℕ) (provider : ModelProvider) (skipped : List SkipReason)
        (next : List SkipReason → Pass)
        → route request allow_degraded index
            (with_cloud other provider)
            skipped
            next
            (classify (with_cloud other provider) request allow_degraded)
          ≡ route request allow_degraded index provider skipped next
              (classify provider request allow_degraded)
    unfolding route
    route-with_cloud index provider skipped next = elim (trust_cases provider.trust) [
      | inl e ↦ rw (by_trust-local provider.trust provider (other provider) e) refl
      | inr e ↦
          let changed = trust-by_trust provider.trust provider (other provider) ∙ e in
          rw (classify-cloud (with_cloud other provider) allow_degraded changed) (
            rw (classify-cloud provider allow_degraded e) (
              ap (λ id. next (note_skip allow_degraded skipped id red_data_confidentiality))
                (id-by_trust provider.trust provider (other provider))))
    ]

    run_pass-map :
        (index : ℕ) (providers : List ModelProvider) (skipped : List SkipReason)
        → run_pass request allow_degraded index (map (with_cloud other) providers) skipped
          ≡ run_pass request allow_degraded index providers skipped
    unfolding run_pass
    run_pass-map index [] skipped = refl
    run_pass-map index (provider ∷ providers) skipped =
        route-with_cloud index provider skipped _
        ∙ ap
            (λ next.
              route request allow_degraded index provider skipped next
                (classify provider request allow_degraded))
            (fun_ext (run_pass-map (suc index) providers))

  second_pass-map :
      (other : ModelProvider → Behaviour) (providers : List ModelProvider) (first : Pass)
      → second_pass request (map (with_cloud other) providers) first
        ≡ second_pass request providers first
  unfolding second_pass
  second_pass-map other providers (returned answer) = refl
  second_pass-map other providers (exhausted skipped) = run_pass-map other true 0 providers skipped

  served-IsLocal :
      (index : ℕ) (provider : ModelProvider) (text : String) (skipped : List SkipReason)
      → provider.trust ≡ local
      → IsLocal (served request provider index text skipped)
  unfolding served
  served-IsLocal index provider text skipped e =
      elim (Bool-cases (ltb request.max_output_chars (length (codes text)))) [
        | inl long ↦ rw long tt
        | inr fits ↦ rw fits (e, e)
      ]

  tried-IsLocal :
      (index : ℕ) (provider : ModelProvider) (skipped : List SkipReason)
      (next : List SkipReason → Pass) (answer : Result String String)
      → provider.trust ≡ local
      → ((s : List SkipReason) → IsLocalPass (next s))
      → IsLocalPass (tried request index provider skipped next answer)
  unfolding tried
  tried-IsLocal index provider skipped next (ok text) e rest =
      served-IsLocal index provider text skipped e
  tried-IsLocal index provider skipped next (err _) e rest = rest _

  route-IsLocal :
      (allow_degraded : Bool) (index : ℕ) (provider : ModelProvider) (skipped : List SkipReason)
      (next : List SkipReason → Pass) (eligibility : Eligibility)
      → classify provider request allow_degraded ≡ eligibility
      → ((s : List SkipReason) → IsLocalPass (next s))
      → IsLocalPass (route request allow_degraded index provider skipped next eligibility)
  unfolding route
  route-IsLocal allow_degraded index provider skipped next (skip cause) c rest = rest _
  route-IsLocal allow_degraded index provider skipped next attempt c rest =
      elim (trust_cases provider.trust) [
        | inl e ↦ tried-IsLocal index provider skipped next _ e rest
        | inr e ↦ absurd (cc (classify-cloud provider allow_degraded e))
      ]

  run_pass-IsLocal :
      (allow_degraded : Bool) (index : ℕ) (providers : List ModelProvider)
      (skipped : List SkipReason)
      → IsLocalPass (run_pass request allow_degraded index providers skipped)
  unfolding run_pass
  run_pass-IsLocal allow_degraded index [] skipped = tt
  run_pass-IsLocal allow_degraded index (provider ∷ providers) skipped =
      route-IsLocal allow_degraded index provider skipped _ _ refl
        (run_pass-IsLocal allow_degraded (suc index) providers)

  second_pass-IsLocal :
      (providers : List ModelProvider) (first : Pass)
      → IsLocalPass first
      → IsLocalPass (second_pass request providers first)
  unfolding second_pass
  second_pass-IsLocal providers (returned answer) h = h
  second_pass-IsLocal providers (exhausted skipped) h = run_pass-IsLocal true 0 providers skipped

  after_passes-IsLocal : (pass : Pass) → IsLocalPass pass → IsLocal (after_passes pass)
  unfolding after_passes
  after_passes-IsLocal (returned answer) h = h
  after_passes-IsLocal (exhausted skipped) h = tt

  answer_of : List ModelProvider → Answer
  answer_of providers = complete_request (record { providers = providers }) request

  answer_of-map :
      (other : ModelProvider → Behaviour) (providers : List ModelProvider)
      → answer_of (map (with_cloud other) providers) ≡ answer_of providers
  unfolding answer_of complete_request
  answer_of-map other [] = refl
  answer_of-map other (provider ∷ providers) =
      let all = provider ∷ providers in
      ap after_passes (
        second_pass-map other all (run_pass request false 0 (map (with_cloud other) all) [])
        ∙ ap (second_pass request all) (run_pass-map other false 0 all []))

  answer_of-IsLocal : (providers : List ModelProvider) → IsLocal (answer_of providers)
  unfolding answer_of complete_request
  answer_of-IsLocal [] = tt
  answer_of-IsLocal (provider ∷ providers) =
      let all = provider ∷ providers in
      after_passes-IsLocal _ (second_pass-IsLocal all _ (run_pass-IsLocal false 0 all []))

  -- Red data stays on the device: whatever the cloud providers would do and whatever health they
  -- report, a request with red data has the same outcome, and a response to it is one of a local
  -- provider, as is the provider that the disclosure names.
  pub red_stays-IsLocal :
      (other : ModelProvider → Behaviour) (gateway : ModelGateway)
      → (complete_request (gateway_with other gateway) request ≡ complete_request gateway request)
        × IsLocal (complete_request gateway request)
  unfolding answer_of
  red_stays-IsLocal other gateway =
      (answer_of-map other gateway.providers, answer_of-IsLocal gateway.providers)
