-- ===== src/Capability/Checks/Lemmas.antt =====
-- What each check accepts, as equations; and that it accepts what satisfies them.
use soverign_founder_os.Base.{
  List, [], ◌∷◌, All, Eq, ℕ, ◌≡◌, ◌≤◌, ◌↔◌, String, some, ok, arith, nat_eq, string_eq, list_eq,
  Option-cases, inl, inr,
}
use text.Mathlib.TextEquality.{eq_iff}
use soverign_founder_os.Base.Int.{ℤ, pos, ◌≤ℤ◌, ◌<ℤ◌, ◌+ℤ◌, -ℤ_parts, +ℤ_parts}
use soverign_founder_os.Contracts.{Uuid}
use soverign_founder_os.Artifact.{
  PreparedInvocation, canonicalization_profile, pure_compute, core_wasm, risk_class_eq, backend_eq,
}
use soverign_founder_os.Policy.{PolicyAuthorizationV2}
use soverign_founder_os.Capability.Errors.{
  CapabilityV2Error, invocation_mismatch, policy_authorization_mismatch,
}
use soverign_founder_os.Capability.Claims.{CapabilityClaimsV2, capability_v2_max_ttl_seconds}
use soverign_founder_os.Capability.Checks.{
  first_mismatch, check_context, check_operation, check_artifact, validate_claim_lifetime,
  validate_supported_invocation, validate_policy_authorization, validate_policy_freshness,
  compare_invocation_claims,
}

-- The times of claims pass only where they are a window of at most five minutes that holds the
-- present.
pub validate_claim_lifetime_lem :
    (claims : CapabilityClaimsV2) (now : ℤ) {u : Unit}
    → validate_claim_lifetime claims now ≡ ok u
    → (claims.issued_at_unix ≤ℤ now)
      × (now <ℤ claims.expires_at_unix)
      × (claims.expires_at_unix ≤ℤ claims.issued_at_unix +ℤ pos capability_v2_max_ttl_seconds)
unfolding validate_claim_lifetime
validate_claim_lifetime_lem claims now h = ground (
  arith,
  -ℤ_parts claims.expires_at_unix claims.issued_at_unix,
  +ℤ_parts claims.issued_at_unix (pos capability_v2_max_ttl_seconds),
)

pub validate_policy_freshness_lem :
    (decision : PolicyAuthorizationV2) (now : ℤ) (age : ℕ) {u : Unit}
    → validate_policy_freshness decision now age ≡ ok u
    → (decision.evaluated_at_unix ≤ℤ now) × (now ≤ℤ decision.evaluated_at_unix +ℤ pos age)
unfolding validate_policy_freshness
validate_policy_freshness_lem decision now age h =
    ground (
      arith,
      -ℤ_parts now decision.evaluated_at_unix,
      +ℤ_parts decision.evaluated_at_unix (pos age),
    )

-- A loop over pairs passes exactly when every pair agrees.
pub first_mismatch_iff :
    {A : Type 0} ⦃e : Eq A⦄ (error : String → CapabilityV2Error) (checks : List (String × A × A))
    → (first_mismatch error checks ≡ ok tt) ↔ All (λ check. check.1 ≡ check.2) checks
unfolding first_mismatch
first_mismatch_iff error [] = ground arith
first_mismatch_iff ⦃e⦄ error ((name, claim, actual) ∷ rest) =
    ground (arith, e.beq_iff claim actual, first_mismatch_iff error rest)

-- The claims name this invocation: its operation, its resource, its digests, its risk and backend.
pub record Names (claims : CapabilityClaimsV2) (prepared : PreparedInvocation) : Type 0 where
  pub tool_id : claims.tool.tool_id ≡ prepared.operation.tool_id
  pub tool_version : claims.tool.tool_version ≡ prepared.operation.tool_version
  pub operation : claims.tool.operation ≡ prepared.operation.operation_id
  pub profile : claims.canonicalization_profile ≡ canonicalization_profile
  pub resource : prepared.primary_resource ≡ some claims.primary_resource
  pub component : claims.component_digest ≡ prepared.artifact.component_digest
  pub manifest : claims.manifest_digest ≡ prepared.artifact.manifest_digest
  pub input : claims.canonical_input_digest ≡ prepared.input_digest
  pub bindings : claims.resource_bindings_digest ≡ prepared.bindings_digest
  pub risk_class : claims.risk_class ≡ prepared.artifact.manifest.risk_class
  pub backend : claims.backend ≡ prepared.artifact.manifest.backend

-- The comparison of claims with a prepared invocation passes exactly where the claims name it: its
-- operation, its primary resource, its four digests, its risk class and backend, and the profile of
-- canonicalization.
pub compare_invocation_claims_iff :
    (claims : CapabilityClaimsV2) (prepared : PreparedInvocation)
    → (compare_invocation_claims claims prepared ≡ ok tt) ↔ Names claims prepared
unfolding compare_invocation_claims
compare_invocation_claims_iff claims prepared = elim (Option-cases prepared.primary_resource) [
  | inl missing ↦ ground arith
  | inr (resource, present) ↦ ground (
    arith,
    first_mismatch_iff invocation_mismatch (
        ("tool_id", claims.tool.tool_id, prepared.operation.tool_id)
        ∷ ("tool_version", claims.tool.tool_version, prepared.operation.tool_version)
        ∷ ("operation", claims.tool.operation, prepared.operation.operation_id)
        ∷ ("canonicalization_profile", claims.canonicalization_profile, canonicalization_profile)
        ∷ ("primary_resource", claims.primary_resource, resource)
        ∷ []),
    first_mismatch_iff invocation_mismatch (
        ("component_digest", claims.component_digest, prepared.artifact.component_digest)
        ∷ ("manifest_digest", claims.manifest_digest, prepared.artifact.manifest_digest)
        ∷ ("canonical_input_digest", claims.canonical_input_digest, prepared.input_digest)
        ∷ ("resource_bindings_digest", claims.resource_bindings_digest, prepared.bindings_digest)
        ∷ []),
  )
]

-- The decision is about this invocation, for this audience, venture, subject, session and key.
pub record Covers (decision : PolicyAuthorizationV2) (audience venture_id subject_id : String)
    (session_id idempotency_key : Uuid) (prepared : PreparedInvocation) : Type 0 where
  pub same_audience : decision.audience ≡ audience
  pub same_venture_id : decision.venture_id ≡ venture_id
  pub same_subject_id : decision.subject_id ≡ subject_id
  pub same_session_id : decision.session_id ≡ session_id
  pub same_idempotency_key : decision.idempotency_key ≡ idempotency_key
  pub tool_id : decision.tool.tool_id ≡ prepared.operation.tool_id
  pub operation : decision.tool.operation ≡ prepared.operation.operation_id
  pub tool_version : decision.tool.tool_version ≡ prepared.operation.tool_version
  pub resource : prepared.primary_resource ≡ some decision.primary_resource
  pub component : decision.component_digest ≡ prepared.artifact.component_digest
  pub manifest : decision.manifest_digest ≡ prepared.artifact.manifest_digest
  pub input : decision.canonical_input_digest ≡ prepared.input_digest
  pub bindings : decision.resource_bindings_digest ≡ prepared.bindings_digest
  pub profile : decision.canonicalization_profile ≡ canonicalization_profile
  pub risk_class : decision.risk_class ≡ prepared.artifact.manifest.risk_class
  pub backend : decision.backend ≡ prepared.artifact.manifest.backend

module _ (decision : PolicyAuthorizationV2) where
  check_context_iff :
      (audience venture_id subject_id : String) (session_id idempotency_key : Uuid)
      → (check_context decision audience venture_id subject_id session_id idempotency_key ≡ ok tt)
        ↔ ((decision.audience ≡ audience)
            × (decision.venture_id ≡ venture_id)
            × (decision.subject_id ≡ subject_id)
            × (decision.session_id ≡ session_id)
            × (decision.idempotency_key ≡ idempotency_key))
  unfolding check_context
  check_context_iff audience venture_id subject_id session_id idempotency_key = ground (
    arith,
    eq_iff decision.audience audience,
    eq_iff decision.venture_id venture_id,
    eq_iff decision.subject_id subject_id,
  )

  check_operation_iff :
      (prepared : PreparedInvocation)
      → (check_operation decision prepared ≡ ok tt) ↔ (
          (decision.tool.tool_id ≡ prepared.operation.tool_id)
          × (decision.tool.operation ≡ prepared.operation.operation_id)
          × (decision.tool.tool_version ≡ prepared.operation.tool_version))
  unfolding check_operation
  check_operation_iff prepared = ground (
    arith,
    eq_iff decision.tool.tool_id prepared.operation.tool_id,
    eq_iff decision.tool.tool_version prepared.operation.tool_version,
    eq_iff decision.tool.operation prepared.operation.operation_id,
  )

  check_artifact_iff :
      (prepared : PreparedInvocation)
      → (check_artifact decision prepared ≡ ok tt) ↔ (
          (prepared.primary_resource ≡ some decision.primary_resource)
          × (decision.component_digest ≡ prepared.artifact.component_digest)
          × (decision.manifest_digest ≡ prepared.artifact.manifest_digest)
          × (decision.canonical_input_digest ≡ prepared.input_digest)
          × (decision.resource_bindings_digest ≡ prepared.bindings_digest)
          × (decision.canonicalization_profile ≡ canonicalization_profile)
          × (decision.risk_class ≡ prepared.artifact.manifest.risk_class)
          × (decision.backend ≡ prepared.artifact.manifest.backend))
  unfolding check_artifact
  check_artifact_iff prepared = elim (Option-cases prepared.primary_resource) [
    | inl missing ↦ ground arith
    | inr (resource, present) ↦ ground (
      arith,
      eq_iff decision.canonicalization_profile canonicalization_profile,
      eq_iff decision.primary_resource resource,
      first_mismatch_iff policy_authorization_mismatch (
          ("component_digest", decision.component_digest, prepared.artifact.component_digest)
          ∷ ("manifest_digest", decision.manifest_digest, prepared.artifact.manifest_digest)
          ∷ ("canonical_input_digest", decision.canonical_input_digest, prepared.input_digest)
          ∷ (
            "resource_bindings_digest", decision.resource_bindings_digest, prepared.bindings_digest,
          )
          ∷ []),
    )
  ]

-- The check of an authorization passes exactly where it covers the invocation: the audience, the
-- context and the idempotency key, and the operation, resource, digests, profile, risk class and
-- backend of the invocation.
pub validate_policy_authorization_iff :
    (decision : PolicyAuthorizationV2) (audience venture_id subject_id : String)
    (session_id idempotency_key : Uuid) (prepared : PreparedInvocation)
    → (validate_policy_authorization decision audience venture_id subject_id session_id
          idempotency_key prepared
        ≡ ok tt)
      ↔ Covers decision audience venture_id subject_id session_id idempotency_key prepared
unfolding validate_policy_authorization
validate_policy_authorization_iff decision audience venture_id subject_id session_id idempotency_key
      prepared =
    ground (
      arith,
      check_context_iff decision audience venture_id subject_id session_id idempotency_key,
      check_operation_iff decision prepared,
      check_artifact_iff decision prepared,
    )

pub validate_supported_invocation_lem :
    (prepared : PreparedInvocation) {u : Unit}
    → validate_supported_invocation prepared ≡ ok u
    → (prepared.artifact.manifest.risk_class ≡ pure_compute)
      × (prepared.artifact.manifest.backend ≡ core_wasm)
unfolding validate_supported_invocation
validate_supported_invocation_lem prepared h = ground arith

pub validate_claim_lifetime_ok :
    (claims : CapabilityClaimsV2) (now ttl : ℤ)
    → claims.expires_at_unix ≡ claims.issued_at_unix +ℤ ttl
    → pos 0 <ℤ ttl
    → ttl ≤ℤ pos capability_v2_max_ttl_seconds
    → claims.issued_at_unix ≤ℤ now
    → now <ℤ claims.expires_at_unix
    → validate_claim_lifetime claims now ≡ ok tt
unfolding validate_claim_lifetime
validate_claim_lifetime_ok claims now ttl expires positive short started lasting = ground (
  arith,
  -ℤ_parts claims.expires_at_unix claims.issued_at_unix,
  +ℤ_parts claims.issued_at_unix ttl,
)

pub validate_policy_freshness_ok :
    (decision : PolicyAuthorizationV2) (now : ℤ) (age : ℕ)
    → age ≤ 600
    → decision.evaluated_at_unix ≤ℤ now
    → now ≤ℤ decision.evaluated_at_unix +ℤ pos age
    → validate_policy_freshness decision now age ≡ ok tt
unfolding validate_policy_freshness
validate_policy_freshness_ok decision now age small evaluated fresh =
    ground (
      arith,
      -ℤ_parts now decision.evaluated_at_unix,
      +ℤ_parts decision.evaluated_at_unix (pos age),
    )
