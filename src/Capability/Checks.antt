-- ===== src/Capability/Checks.antt =====
-- The checks of crates/capability/src/v2.rs that both sides run. Each stops at its first failure.
pub mod Lemmas
pub mod Decided
mod Tests
use soverign_founder_os.Base.{
  ℕ, ◌≡◌, String, Bool, Option, some, none, List, [], ◌∷◌, Result, ok, err, reject, require_eq,
  ok_or, ◌>>=◌, ◌>>◌, Eq, ◌!=◌, nat_eq, string_eq, list_eq,
}
use soverign_founder_os.Base.Int.{ℤ, pos, checked_sub, ltb_ℤ, leb_ℤ}
use soverign_founder_os.Contracts.{Uuid}
use soverign_founder_os.Artifact.{
  Digest, RiskClass, ArtifactBackend, pure_compute, core_wasm, risk_class_eq, backend_eq,
  PreparedInvocation, canonicalization_profile,
}
use soverign_founder_os.Policy.{PolicyAuthorizationV2, malformed}
use soverign_founder_os.Capability.Errors.{
  CapabilityV2Error, missing_primary_resource, unsupported_risk_class, backend_downgrade_denied,
  policy_authorization_mismatch, policy_authorization_from_future, policy_authorization_stale,
  invocation_mismatch, invalid_lifetime, not_yet_valid, expired,
}
use soverign_founder_os.Capability.Claims.{CapabilityClaimsV2, capability_v2_max_ttl_seconds}

abbrev pub Check : Type 0
Check = Result CapabilityV2Error (Unit {0})

-- The test of `validate_identifier` is that of the policy crate.
abbrev pub validate_identifier : String → CapabilityV2Error → Check
validate_identifier value error = reject (malformed value) error

-- the loops over arrays of a field's name, a claimed and an actual value
unfoldable pub first_mismatch :
    {A : Type 0} ⦃e : Eq A⦄ → (String → CapabilityV2Error) → List (String × A × A) → Check
first_mismatch error [] = ok tt
first_mismatch error ((name, claim, actual) ∷ rest) =
    require_eq claim actual (error name) >> first_mismatch error rest

abbrev pub required_primary_resource : PreparedInvocation → Result CapabilityV2Error String
required_primary_resource prepared = ok_or prepared.primary_resource missing_primary_resource

pub validate_claim_lifetime : CapabilityClaimsV2 → ℤ → Check
validate_claim_lifetime claims now_unix = do
  lifetime ← ok_or (checked_sub claims.expires_at_unix claims.issued_at_unix) invalid_lifetime
  reject (leb_ℤ lifetime (pos 0)) invalid_lifetime
  reject (ltb_ℤ (pos capability_v2_max_ttl_seconds) lifetime) invalid_lifetime
  reject (ltb_ℤ now_unix claims.issued_at_unix) not_yet_valid
  reject (leb_ℤ claims.expires_at_unix now_unix) expired

unfoldable pub validate_supported_invocation : PreparedInvocation → Check
validate_supported_invocation prepared = do
  require_eq prepared.artifact.manifest.risk_class pure_compute unsupported_risk_class
  require_eq prepared.artifact.manifest.backend core_wasm backend_downgrade_denied
  primary_resource ← required_primary_resource prepared
  validate_identifier primary_resource missing_primary_resource

-- the first five comparisons of `validate_policy_authorization`
check_context : PolicyAuthorizationV2 → String → String → String → Uuid → Uuid → Check
check_context decision audience venture_id subject_id session_id idempotency_key = do
  require_eq decision.audience audience (policy_authorization_mismatch "audience")
  require_eq decision.venture_id venture_id (policy_authorization_mismatch "venture_id")
  require_eq decision.subject_id subject_id (policy_authorization_mismatch "subject_id")
  require_eq decision.session_id session_id (policy_authorization_mismatch "session_id")
  require_eq decision.idempotency_key idempotency_key
      (policy_authorization_mismatch "idempotency_key")

-- the next three
check_operation : PolicyAuthorizationV2 → PreparedInvocation → Check
check_operation decision prepared = do
  require_eq decision.tool.tool_id prepared.operation.tool_id
      (policy_authorization_mismatch "tool_id")
  require_eq decision.tool.operation prepared.operation.operation_id
      (policy_authorization_mismatch "operation")
  require_eq decision.tool.tool_version prepared.operation.tool_version
      (policy_authorization_mismatch "tool_version")

-- and the rest
check_artifact : PolicyAuthorizationV2 → PreparedInvocation → Check
check_artifact decision prepared = do
  primary_resource ← required_primary_resource prepared
  require_eq decision.primary_resource primary_resource
      (policy_authorization_mismatch "primary_resource")
  first_mismatch policy_authorization_mismatch (
      ("component_digest", decision.component_digest, prepared.artifact.component_digest)
      ∷ ("manifest_digest", decision.manifest_digest, prepared.artifact.manifest_digest)
      ∷ ("canonical_input_digest", decision.canonical_input_digest, prepared.input_digest)
      ∷ ("resource_bindings_digest", decision.resource_bindings_digest, prepared.bindings_digest)
      ∷ [])
  require_eq decision.canonicalization_profile canonicalization_profile
      (policy_authorization_mismatch "canonicalization_profile")
  require_eq decision.risk_class prepared.artifact.manifest.risk_class
      (policy_authorization_mismatch "risk_class")
  require_eq decision.backend prepared.artifact.manifest.backend
      (policy_authorization_mismatch "backend")

pub validate_policy_authorization :
    PolicyAuthorizationV2 → String → String → String → Uuid → Uuid → PreparedInvocation → Check
validate_policy_authorization decision audience venture_id subject_id session_id idempotency_key
      prepared =
    do
      check_context decision audience venture_id subject_id session_id idempotency_key
      check_operation decision prepared
      check_artifact decision prepared

pub validate_policy_freshness : PolicyAuthorizationV2 → ℤ → ℕ → Check
validate_policy_freshness decision now_unix max_age_seconds = do
  age ← ok_or (checked_sub now_unix decision.evaluated_at_unix) policy_authorization_from_future
  reject (ltb_ℤ age (pos 0)) policy_authorization_from_future
  reject (ltb_ℤ (pos max_age_seconds) age) policy_authorization_stale

pub compare_invocation_claims : CapabilityClaimsV2 → PreparedInvocation → Check
compare_invocation_claims claims prepared = do
  primary_resource ← required_primary_resource prepared
  first_mismatch invocation_mismatch (
      ("tool_id", claims.tool.tool_id, prepared.operation.tool_id)
      ∷ ("tool_version", claims.tool.tool_version, prepared.operation.tool_version)
      ∷ ("operation", claims.tool.operation, prepared.operation.operation_id)
      ∷ ("canonicalization_profile", claims.canonicalization_profile, canonicalization_profile)
      ∷ ("primary_resource", claims.primary_resource, primary_resource)
      ∷ [])
  first_mismatch invocation_mismatch (
      ("component_digest", claims.component_digest, prepared.artifact.component_digest)
      ∷ ("manifest_digest", claims.manifest_digest, prepared.artifact.manifest_digest)
      ∷ ("canonical_input_digest", claims.canonical_input_digest, prepared.input_digest)
      ∷ ("resource_bindings_digest", claims.resource_bindings_digest, prepared.bindings_digest)
      ∷ [])
  require_eq claims.risk_class prepared.artifact.manifest.risk_class
      (invocation_mismatch "risk_class")
  require_eq claims.backend prepared.artifact.manifest.backend (invocation_mismatch "backend")
