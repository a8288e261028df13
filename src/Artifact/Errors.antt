-- ===== src/Artifact/Errors.antt =====
-- crates/artifact/src/error.rs and the errors of selector.rs and schema.rs.
use soverign_founder_os.Base.{ℕ, String}
use soverign_founder_os.Artifact.{Digest}

pub data SelectorError : Type 0 where
  -- the field, its maximum and its length
  invalid_length : String → ℕ → ℕ → SelectorError
  invalid_characters : String → SelectorError

pub data StrictJsonError : Type 0 where
  duplicate_key invalid : String → StrictJsonError

pub data ArtifactError : Type 0 where
  invalid_verification_limits invalid_verification_intent : ArtifactError
  manifest_too_large component_too_large : ArtifactError
  -- a mismatch carries what was expected and what was found
  signed_envelope_digest_mismatch component_digest_mismatch : Digest → Digest → ArtifactError
  unknown_publisher_key publisher_issuer_mismatch publisher_key_revoked : ArtifactError
  publisher_key_not_yet_valid publisher_key_expired invalid_publisher_signature : ArtifactError
  invalid_publisher_envelope publisher_verification_failed non_canonical_manifest : ArtifactError
  invalid_manifest : String → ArtifactError
  unsupported_protocol_version : ℕ → ArtifactError
  publisher_key_id_mismatch unsupported_risk_class unsupported_backend : ArtifactError
  unsupported_abi host_capabilities_forbidden missing_operations duplicate_operation : ArtifactError
  invalid_operation_selector : SelectorError → ArtifactError
  manifest_digest_mismatch : ArtifactError
  invalid_input_schema invalid_resource_binding : String → ArtifactError
  operation_not_declared input_too_large input_too_deep : ArtifactError
  invalid_input_json duplicate_input_key : String → ArtifactError
  -- the path and the reason
  input_schema_mismatch : String → String → ArtifactError
  input_canonicalization_failed : ArtifactError
  resource_binding_not_found resource_binding_not_string : String → ArtifactError
  unsupported_resource_normalization : ArtifactError
  missing_resource_grant duplicate_resource_grant : String → ArtifactError
  unexpected_resource_grant resource_grant_mismatch : String → ArtifactError
  input_digest_mismatch resource_bindings_digest_mismatch : ArtifactError
  admission_store_io : String → ArtifactError
  stored_entry_not_regular_file : ArtifactError
  stored_component_corrupted : Digest → Digest → ArtifactError
  stored_manifest_corrupted admission_record_exists admission_record_not_found : ArtifactError
  admission_record_too_large admission_signing_failed : ArtifactError
  invalid_admission_record : String → ArtifactError
  non_canonical_admission_record : ArtifactError
  admission_record_mismatch : String → ArtifactError
  unknown_admission_key admission_issuer_mismatch admission_key_revoked : ArtifactError
  admission_key_not_yet_valid admission_key_expired invalid_admission_signature : ArtifactError
  invalid_admission_envelope admission_verification_failed : ArtifactError
