-- ===== src/Gateway/Failover.antt =====
-- When a request is answered in crates/model/src/lib.rs, and what the answer says.
use soverign_founder_os.Base.{
  ℕ, zero, suc, ◌+◌, ◌≤◌, ◌<◌, ◌≡◌, ◌≢◌, refl, ap, ◌∙◌, sym, subst, String, Bool, true, false, ◌⊎◌,
  inl, inr, some, false≢true, List, [], ◌∷◌, Result, ok, err, arith, Bool-cases, ltb, ltb→lt,
  ltb-false, length, get_elem?,
}
use soverign_founder_os.Base.Text.{codes}
use soverign_founder_os.Contracts.{red, DataClass}
use soverign_founder_os.Gateway.{
  local, cloud, ProviderTrust, Health, healthy, degraded, is_red, is_local, no_providers,
  all_providers_failed, down, ModelRequest, ModelResponse, DisclosureRecord, SkipReason,
  ModelProvider, ModelGateway, output_too_large, Eligibility, skip, attempt, by_health, classify,
  Answer, Pass, returned, exhausted, served, tried, route, run_pass, second_pass, after_passes,
  complete_request,
}

module _ (request : ModelRequest) where
  -- the provider may have the request, is up in the second pass, and then completes the request
  pub record CanServe (provider : ModelProvider) : Type 0 where
    pub permitted : (request.data_class ≢ red) ⊎ (provider.trust ≡ local)
    pub up : provider.health true ≢ down
    pub text : String
    pub completes : provider.complete true request ≡ ok text

  -- a text of a provider that may have the request, and is not down, in one of the passes
  pub record IsTextOf (provider : ModelProvider) (text : String) : Type 0 where
    pub pass : Bool
    pub permitted : (request.data_class ≢ red) ⊎ (provider.trust ≡ local)
    pub up : provider.health pass ≢ down
    pub completed : provider.complete pass request ≡ ok text

  by_health-up : (pass : Bool) (health : Health) → by_health pass health ≡ attempt → health ≢ down
  unfolding by_health
  by_health-up pass healthy h = λ e. cc
  by_health-up true degraded h = λ e. cc
  by_health-up false degraded h = λ e. cc
  by_health-up pass down h = absurd (cc)

  local_if : (trust : ProviderTrust) → is_local trust ≡ true → trust ≡ local
  local_if local h = refl
  local_if cloud h = absurd (cc)

  red_unless : (data_class : DataClass) → is_red data_class ≡ false → data_class ≢ red
  red_unless data_class h = λ e. absurd (false≢true (sym h ∙ ap is_red e))

  permitted-up :
      (provider : ModelProvider) (pass : Bool)
      → classify provider request pass ≡ attempt
      → ((request.data_class ≢ red) ⊎ (provider.trust ≡ local)) × (provider.health pass ≢ down)
  unfolding classify
  permitted-up provider pass h = elim (Bool-cases (is_red request.data_class)) [
    | inr other ↦ (inl (red_unless _ other), by_health-up pass _ (ground arith))
    | inl is ↦ elim (Bool-cases (is_local provider.trust)) [
      | inl here ↦ (inr (local_if _ here), by_health-up pass _ (ground arith))
      | inr away ↦ absurd (ground arith)
    ]
  ]

  module _ (providers : List ModelProvider) where
    pub record IsDisclosed (response : ModelResponse) (disclosure : DisclosureRecord) : Type 0 where
      pub provider : ModelProvider
      pub at_index : get_elem? providers disclosure.provider_index ≡ some provider
      pub text_of : IsTextOf provider response.text
      pub fits : length (codes response.text) ≤ request.max_output_chars
      pub response_id : response.provider_id ≡ provider.id
      pub response_trust : response.provider_trust ≡ provider.trust
      pub disclosed_id : disclosure.provider_id ≡ provider.id
      pub disclosed_trust : disclosure.provider_trust ≡ provider.trust
      pub disclosed_task : disclosure.task ≡ request.task
      pub disclosed_class : disclosure.data_class ≡ request.data_class
      pub disclosed_chars : disclosure.output_chars ≡ length (codes response.text)

    -- a provider completed the request with a text above the ceiling
    pub record IsOverlong : Type 0 where
      pub index : ℕ
      pub provider : ModelProvider
      pub at_index : get_elem? providers index ≡ some provider
      pub text : String
      pub text_of : IsTextOf provider text
      pub long : request.max_output_chars < length (codes text)

    -- the answer is a response
    abbrev pub IsAnswered : Answer → Type 0
    IsAnswered (ok (response, disclosure)) = IsDisclosed response disclosure
    IsAnswered (err _) = ⊥

    -- every text of a configured provider that may have the request is within the ceiling
    abbrev IsShort : Type 0
    IsShort =
        (k : ℕ) (provider : ModelProvider) (text : String)
        → get_elem? providers k ≡ some provider
        → IsTextOf provider text
        → length (codes text) ≤ request.max_output_chars

    abbrev IsServed : Answer → Type 0
    IsServed (ok (response, disclosure)) = IsDisclosed response disclosure
    IsServed (err output_too_large) = IsOverlong
    IsServed (err _) = ⊥

    served-IsAnswered : (answer : Answer) → IsServed answer → IsShort → IsAnswered answer
    served-IsAnswered (ok (response, disclosure)) h short = h
    served-IsAnswered (err output_too_large) h short =
        let fits = short h.index h.provider h.text h.at_index h.text_of in
        let over = h.long in absurd (omega arith)
    served-IsAnswered (err all_providers_failed) h short = h
    served-IsAnswered (err no_providers) h short = h

    abbrev IsSound : Pass → Type 0
    IsSound (returned answer) = IsServed answer
    IsSound (exhausted skipped) = Unit

    served-IsServed :
        (index : ℕ) (provider : ModelProvider) (text : String) (skipped : List SkipReason)
        → get_elem? providers index ≡ some provider
        → IsTextOf provider text
        → IsServed (served request provider index text skipped)
    unfolding served
    served-IsServed index provider text skipped found of_provider =
        elim (Bool-cases (ltb request.max_output_chars (length (codes text)))) [
          | inl over ↦ rw over (record {
            index = index;
            provider = provider;
            at_index = found;
            text = text;
            text_of = of_provider;
            long = ltb→lt _ _ over;
          })
          | inr within ↦ rw within (record {
            provider = provider;
            at_index = found;
            text_of = of_provider;
            fits = ltb-false _ _ within;
            response_id = refl;
            response_trust = refl;
            disclosed_id = refl;
            disclosed_trust = refl;
            disclosed_task = refl;
            disclosed_class = refl;
            disclosed_chars = refl;
          })
        ]

    tried-IsSound :
        (pass : Bool) (index : ℕ) (provider : ModelProvider) (skipped : List SkipReason)
        (next : List SkipReason → Pass) (answer : Result String String)
        → provider.complete pass request ≡ answer
        → classify provider request pass ≡ attempt
        → get_elem? providers index ≡ some provider
        → ((s : List SkipReason) → IsSound (next s))
        → IsSound (tried request index provider skipped next answer)
    unfolding tried
    tried-IsSound pass index provider skipped next (ok text) e may found rest =
        let (permitted, up) = permitted-up provider pass may in
        served-IsServed index provider text skipped found
          (record { pass = pass; permitted = permitted; up = up; completed = e })
    tried-IsSound pass index provider skipped next (err _) e may found rest = rest _

    route-IsSound :
        (pass : Bool) (index : ℕ) (provider : ModelProvider) (skipped : List SkipReason)
        (next : List SkipReason → Pass) (eligibility : Eligibility)
        → classify provider request pass ≡ eligibility
        → get_elem? providers index ≡ some provider
        → ((s : List SkipReason) → IsSound (next s))
        → IsSound (route request pass index provider skipped next eligibility)
    unfolding route
    route-IsSound pass index provider skipped next (skip cause) may found rest = rest _
    route-IsSound pass index provider skipped next attempt may found rest =
        tried-IsSound pass index provider skipped next _ refl may found rest

    run_pass-IsSound :
        (pass : Bool) (index : ℕ) (rest : List ModelProvider) (skipped : List SkipReason)
        → ((k : ℕ) → get_elem? providers (index + k) ≡ get_elem? rest k)
        → IsSound (run_pass request pass index rest skipped)
    unfolding run_pass
    run_pass-IsSound pass index [] skipped at = tt
    run_pass-IsSound pass index (provider ∷ rest) skipped at =
        route-IsSound pass index provider skipped _ _ refl
          (ap (get_elem? providers) (omega arith) ∙ at 0)
          (λ s.
            run_pass-IsSound pass (suc index) rest s
              (λ k. ap (get_elem? providers) (omega arith) ∙ at (suc k)))

    second_pass-IsSound :
        (first : Pass) → IsSound first → IsSound (second_pass request providers first)
    unfolding second_pass
    second_pass-IsSound (returned answer) h = h
    second_pass-IsSound (exhausted skipped) h =
        run_pass-IsSound true 0 providers skipped (λ k. ap (get_elem? providers) (omega arith))

  -- the pass returns
  abbrev Returns : Pass → Type 0
  Returns (returned answer) = Unit
  Returns (exhausted skipped) = ⊥

  classify-CanServe :
      (provider : ModelProvider) → CanServe provider → classify provider request true ≡ attempt
  unfolding classify by_health
  classify-CanServe provider can = ground arith

  tried-Returns :
      (index : ℕ) (provider : ModelProvider) (skipped : List SkipReason)
      (next : List SkipReason → Pass) (answer : Result String String)
      → ((s : List SkipReason) → Returns (next s))
      → Returns (tried request index provider skipped next answer)
  unfolding tried
  tried-Returns index provider skipped next (ok text) rest = tt
  tried-Returns index provider skipped next (err _) rest = rest _

  route-Returns :
      (index : ℕ) (provider : ModelProvider) (skipped : List SkipReason)
      (next : List SkipReason → Pass) (eligibility : Eligibility)
      → ((s : List SkipReason) → Returns (next s))
      → Returns (route request true index provider skipped next eligibility)
  unfolding route
  route-Returns index provider skipped next (skip cause) rest = rest _
  route-Returns index provider skipped next attempt rest =
      tried-Returns index provider skipped next _ rest

  route-CanServe :
      (index : ℕ) (provider : ModelProvider) (skipped : List SkipReason)
      (next : List SkipReason → Pass)
      → CanServe provider
      → Returns (route request true index provider skipped next (classify provider request true))
  unfolding route tried
  route-CanServe index provider skipped next can =
      rw (classify-CanServe provider can) (rw (can.completes) tt)

  run_pass-Returns :
      (index i : ℕ) (rest : List ModelProvider) (skipped : List SkipReason)
      (provider : ModelProvider)
      → get_elem? rest i ≡ some provider
      → CanServe provider
      → Returns (run_pass request true index rest skipped)
  unfolding run_pass
  run_pass-Returns index i [] skipped provider found can = cc
  run_pass-Returns index zero (first ∷ rest) skipped provider found can =
      let same : first ≡ provider = cc in
      subst
        (λ p. Returns (
          route request true index p skipped (run_pass request true (suc index) rest)
            (classify p request true)))
        (sym same) (route-CanServe index provider skipped _ can)
  run_pass-Returns index (suc i) (first ∷ rest) skipped provider found can =
      route-Returns index first skipped _ _
        (λ s. run_pass-Returns (suc index) i rest s provider found can)

  second_pass-Returns :
      (i : ℕ) (providers : List ModelProvider) (provider : ModelProvider) (first : Pass)
      → get_elem? providers i ≡ some provider
      → CanServe provider
      → Returns (second_pass request providers first)
  unfolding second_pass
  second_pass-Returns i providers provider (returned answer) found can = tt
  second_pass-Returns i providers provider (exhausted skipped) found can =
      run_pass-Returns 0 i providers skipped provider found can

  after_passes-IsServed :
      (providers : List ModelProvider) (pass : Pass)
      → IsSound providers pass
      → Returns pass
      → IsServed providers (after_passes pass)
  unfolding after_passes
  after_passes-IsServed providers (returned answer) sound returns = sound
  after_passes-IsServed providers (exhausted _) sound returns = elim returns [ ]

  answer_of-IsServed :
      (i : ℕ) (providers : List ModelProvider) (provider : ModelProvider)
      → get_elem? providers i ≡ some provider
      → CanServe provider
      → IsServed providers (complete_request (record { providers = providers }) request)
  unfolding complete_request
  answer_of-IsServed i [] provider found can = absurd (cc)
  answer_of-IsServed i (first ∷ rest) provider found can =
      let all = first ∷ rest in
      after_passes-IsServed all _
        (second_pass-IsSound all _
          (run_pass-IsSound all false 0 all [] (λ k. ap (get_elem? all) (omega arith))))
        (second_pass-Returns i all provider _ found can)

  -- A configured provider may have the request, is not down, and completes it when it is asked in the
  -- second pass; and every text that a configured provider that may have the request and is not down
  -- returns in either pass is within the ceiling. Then the request is answered with a response: it is
  -- such a text of the provider at the disclosed index, and the disclosure tells its name, its trust,
  -- the task, the class of the data and the length.
  pub failover :
      (gateway : ModelGateway) (i : ℕ) (provider : ModelProvider)
      → get_elem? gateway.providers i ≡ some provider
      → CanServe provider
      → ((k : ℕ) (other : ModelProvider) (text : String)
          → get_elem? gateway.providers k ≡ some other
          → IsTextOf other text
          → length (codes text) ≤ request.max_output_chars)
      → IsAnswered gateway.providers (complete_request gateway request)
  failover gateway i provider found can short =
      served-IsAnswered gateway.providers _
        (answer_of-IsServed i gateway.providers provider found can) short
