-- ===== src/Artifact/Invocation/Granted/Prepared.antt =====
-- What `PreparedInvocation::prepare` of crates/artifact/src/invocation.rs returns.
use soverign_founder_os.Base.{
  ◌≤◌, ◌≡◌, refl, subst, String, ◌⊎◌, inl, inr, Option, some, none, List, [], ◌∷◌, All, Elem, ok,
  reject, ok_or, >>=-eq-ok, ok-inj, ok_or-ok, reject-ok, length, ltb, ltb-false, string_eq,
}
use soverign_founder_os.Base.Sorted.{get}
use soverign_founder_os.Base.Text.{utf8, Bytes, codes}
use soverign_founder_os.External.{Crypto}
use soverign_founder_os.Artifact.{
  OperationSelector, OperationDefinition, ResourceBindingRule, VerifiedArtifact, GrantCommitment,
  PreparedInvocation, domain_separated,
}
use soverign_founder_os.Artifact.Errors.{
  operation_not_declared, input_canonicalization_failed, input_too_large,
}
use soverign_founder_os.Artifact.Json.{Value}
use soverign_founder_os.Artifact.Input.{validate_value, parse_strict_input}
use soverign_founder_os.Artifact.Input.Typed.{HasType}
use soverign_founder_os.Artifact.Input.Typed.Complete.{validate_value-HasType}
use soverign_founder_os.Artifact.Manifest.{find_operation}
use soverign_founder_os.Artifact.Manifest.Valid.{IsDefinition, find_operation-IsDefinition}
use soverign_founder_os.Artifact.Serde.{Serde}
use soverign_founder_os.Artifact.Invocation.{
  RawResourceGrant, Grants, Gathered, collect_grants, commitment, gather, sorted, no_grant_left,
  prepare_grants, prepare,
}
use soverign_founder_os.Artifact.Invocation.Granted.{
  Supplies, Names, collect_complete, collect_sound,
}
use soverign_founder_os.Artifact.Invocation.Granted.Gather.{
  IsBound, IsMet, gather_meets, gather_uses, IsPrimary, gather-IsPrimary, Elem-sorted,
}

pair_eq :
    {A B : Type 0} (a a' : A) (b b' : B) → ◌≡◌ {A = A × B} (a, b) (a', b') → (a ≡ a') × (b ≡ b')
pair_eq a a' b b' h = (cc, cc)

module _ (c : Crypto) (s : Serde) where
  -- the id of the rule, its mark, and the digest of the resource in the domain of grants
  abbrev pub grant_commitment : ResourceBindingRule → String → GrantCommitment
  grant_commitment rule resource = record {
    binding_id = rule.binding_id;
    resource_digest =
        domain_separated c (codes "sovereign.resource-grant.exact-utf8.v1") (utf8 (codes resource));
    primary = rule.primary;
  }

  -- the rule has a resource in the input, which is granted and committed to
  pub record IsGranted (input : Value) (grants : List RawResourceGrant)
      (commitments : List GrantCommitment) (rule : ResourceBindingRule) : Type 0 where
    pub resource : String
    pub names : Names c s input rule resource
    pub supplied : Supplies rule.binding_id resource grants
    pub committed : Elem (grant_commitment rule resource) commitments

  pub record IsPrepared (artifact : VerifiedArtifact) (operation : OperationSelector)
      (raw_json : Bytes) (grants : List RawResourceGrant) (prepared : PreparedInvocation)
      : Type 0 where
    pub definition : OperationDefinition
    pub is_definition : IsDefinition operation artifact.manifest.operations definition
    pub same_artifact : prepared.artifact ≡ artifact
    pub same_operation : prepared.operation ≡ operation
    pub input : Value
    pub parsed : parse_strict_input s.reader raw_json definition.input_limits ≡ ok input
    pub typed : HasType definition.input_schema input
    pub canonical : s.value_to_vec input ≡ some prepared.canonical_input
    pub fits : length prepared.canonical_input ≤ definition.input_limits.max_bytes
    pub input_digest :
        prepared.input_digest
        ≡ domain_separated c (codes "sovereign.invocation.input.jcs.v1") prepared.canonical_input
    pub all_granted :
        All (IsGranted input grants prepared.grant_commitments) definition.resource_bindings
    pub all_bound :
        All (λ (g : RawResourceGrant). IsBound g.binding_id definition.resource_bindings) grants
    pub primary : IsPrimary c s input definition.resource_bindings none prepared.primary_resource
    pub commitments : Bytes
    pub commitments_to_vec : s.commitments_to_vec prepared.grant_commitments ≡ some commitments
    pub bindings_digest :
        prepared.bindings_digest
        ≡ domain_separated c (codes "sovereign.invocation.bindings.jcs.v1") commitments

  record AreGranted (input : Value) (rules : List ResourceBindingRule)
      (grants : List RawResourceGrant) (commitments : List GrantCommitment)
      (primary_resource : Option String) : Type 0 where
    pub all_granted : All (IsGranted input grants commitments) rules
    pub all_bound : All (λ (g : RawResourceGrant). IsBound g.binding_id rules) grants
    pub primary : IsPrimary c s input rules none primary_resource

  met-IsGranted :
      (input : Value) (grants : List RawResourceGrant) (supplied : Grants)
      (found : List GrantCommitment) (rules : List ResourceBindingRule)
      → collect_grants grants [] ≡ ok supplied
      → All (IsMet c s input supplied found) rules
      → All (IsGranted input grants (sorted found [])) rules
  unfolding get commitment
  met-IsGranted input grants supplied found [] h met = tt
  met-IsGranted input grants supplied found (rule ∷ rules) h met =
      let m = met.0 in
      (
        record {
          resource = m.resource;
          names = m.names;
          supplied =
              from_collected rule.binding_id m.resource
                (collect_sound grants [] supplied rule.binding_id m.resource h m.granted);
          committed = Elem-sorted (commitment c s rule m.resource) found [] (inl m.committed);
        },
        met-IsGranted input grants supplied found rules h met.1,
      )
    where
      from_collected :
          (id resource : String)
          → (get {V = String} id [] ≡ some resource) ⊎ Supplies id resource grants
          → Supplies id resource grants
      from_collected id resource (inl e) = absurd (cc)
      from_collected id resource (inr m) = m

  none_left : (m : Grants) → no_grant_left m ≡ ok tt → (id : String) → get id m ≡ none
  unfolding no_grant_left get
  none_left [] h id = refl
  none_left (grant ∷ m) h id = cc

  uses_all :
      (input : Value) (rules : List ResourceBindingRule) (g g' : Gathered) (id resource : String)
      → gather c s input rules g ≡ ok g'
      → no_grant_left g'.supplied ≡ ok tt
      → get id g.supplied ≡ some resource
      → IsBound id rules
  uses_all input rules g g' id resource h left e =
      used (gather_uses c s input rules g g' id resource h e)
    where
      used : (get id g'.supplied ≡ some resource) ⊎ IsBound id rules → IsBound id rules
      used (inl still) = absurd (cc (none_left g'.supplied left id))
      used (inr bound) = bound

  All-IsBound_of :
      (grants : List RawResourceGrant) (rules : List ResourceBindingRule)
      → ((id resource : String) → Supplies id resource grants → IsBound id rules)
      → All (λ (g : RawResourceGrant). IsBound g.binding_id rules) grants
  All-IsBound_of [] rules h = tt
  All-IsBound_of (grant ∷ grants) rules h = (
    h grant.binding_id grant.resource (inl (refl, refl)),
    All-IsBound_of grants rules (λ id r m. h id r (inr m)),
  )

  prepare_grants-AreGranted :
      (input : Value) (rules : List ResourceBindingRule) (grants : List RawResourceGrant)
      (supplied : Grants) (commitments : List GrantCommitment) (primary_resource : Option String)
      → collect_grants grants [] ≡ ok supplied
      → prepare_grants c s input rules supplied ≡ ok (commitments, primary_resource)
      → AreGranted input rules grants commitments primary_resource
  unfolding prepare_grants
  prepare_grants-AreGranted input rules grants supplied commitments primary_resource collects h =
      let start : Gathered = record {
        commitments = [];
        primary_resource = none;
        supplied = supplied;
      } in
      let (g', gathers, h1) = >>=-eq-ok (gather c s input rules start) _ h in
      let (_, left, h2) = >>=-eq-ok (no_grant_left g'.supplied) _ h1 in
      let met = gather_meets c s input rules start g' supplied gathers (λ id r e. e) in
      let (same_commitments, same_primary) =
        pair_eq (sorted g'.commitments []) commitments g'.primary_resource primary_resource
          (ok-inj h2) in
      record {
        all_granted =
            subst (λ cs. All (IsGranted input grants cs) rules) same_commitments
              (met-IsGranted input grants supplied g'.commitments rules collects met);
        all_bound = All-IsBound_of grants rules (λ id r m.
            uses_all input rules start g' id r gathers left
              (collect_complete grants [] supplied id r collects m));
        primary =
            subst (λ p. IsPrimary c s input rules none p) same_primary
              (gather-IsPrimary c s input rules start g' gathers);
      }

  -- A prepared invocation is of an operation of the manifest with the selector. Its input is the
  -- strict JSON of the raw text, has the type of the operation's schema, and fits in canonical form.
  -- Each rule of the operation is for a supported normalization, names a text of the input, and has a
  -- grant of that text and a commitment to it; each grant is of a rule; the primary resource is that
  -- of the last primary rule; and the digests are those of the canonical input and of the commitments.
  pub prepare-IsPrepared :
      (artifact : VerifiedArtifact) (operation : OperationSelector) (raw_json : Bytes)
      (grants : List RawResourceGrant) (prepared : PreparedInvocation)
      → prepare c s artifact operation raw_json grants ≡ ok prepared
      → IsPrepared artifact operation raw_json grants prepared
  unfolding prepare
  prepare-IsPrepared artifact operation raw_json grants prepared h =
      let (definition, found, h1) =
        >>=-eq-ok
          (ok_or (find_operation operation artifact.manifest.operations) operation_not_declared) _
          h in
      let (input, parsed, h2) =
        >>=-eq-ok (parse_strict_input s.reader raw_json definition.input_limits) _ h1 in
      let (_, typed, h3) = >>=-eq-ok (validate_value definition.input_schema input) _ h2 in
      let (canonical, encoded, h4) =
        >>=-eq-ok (ok_or (s.value_to_vec input) input_canonicalization_failed) _ h3 in
      let (_, small, h5) =
        >>=-eq-ok
          (reject (ltb definition.input_limits.max_bytes (length canonical)) input_too_large) _
          h4 in
      let (supplied, collected, h6) = >>=-eq-ok (collect_grants grants []) _ h5 in
      let (granted, prepares, h7) =
        >>=-eq-ok (prepare_grants c s input definition.resource_bindings supplied) _ h6 in
      let (commitments, primary_resource) = granted in
      let (bindings, commits, h8) =
        >>=-eq-ok (ok_or (s.commitments_to_vec commitments) input_canonicalization_failed) _ h7 in
      let are =
        prepare_grants-AreGranted input definition.resource_bindings grants supplied commitments
          primary_resource collected prepares in
      subst (IsPrepared artifact operation raw_json grants) (ok-inj h8) (record {
        definition = definition;
        is_definition =
            find_operation-IsDefinition operation artifact.manifest.operations definition
              (ok_or-ok (find_operation operation artifact.manifest.operations) _ found);
        same_artifact = refl;
        same_operation = refl;
        input = input;
        parsed = parsed;
        typed = (validate_value-HasType definition.input_schema input).0 typed;
        canonical = ok_or-ok (s.value_to_vec input) _ encoded;
        fits =
            ltb-false _ _
              (reject-ok (ltb definition.input_limits.max_bytes (length canonical)) _ small);
        input_digest = refl;
        all_granted = are.all_granted;
        all_bound = are.all_bound;
        primary = are.primary;
        commitments = bindings;
        commitments_to_vec = ok_or-ok (s.commitments_to_vec commitments) _ commits;
        bindings_digest = refl;
      })
