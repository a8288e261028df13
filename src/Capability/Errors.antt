-- ===== src/Capability/Errors.antt =====
-- `CapabilityV2Error` of crates/capability/src/v2.rs, and the maps of the errors of other crates.
use soverign_founder_os.Base.{String}
use soverign_founder_os.Authority.{AuthorityError}
use soverign_founder_os.Identity.{IdentityError}

pub data CapabilityV2Error : Type 0 where
  policy_denied approval_evidence_unavailable unsupported_approval_evidence : CapabilityV2Error
  policy_authorization_mismatch : String → CapabilityV2Error
  policy_authorization_from_future policy_authorization_stale : CapabilityV2Error
  policy_authorization_reused : CapabilityV2Error
  invalid_issuer invalid_audience invalid_subject invalid_venture : CapabilityV2Error
  missing_primary_resource unsupported_risk_class backend_downgrade_denied : CapabilityV2Error
  invalid_lifetime invalid_use_limit canonicalization_failed signing_failed : CapabilityV2Error
  unknown_authority_key authority_key_revoked authority_key_not_yet_valid : CapabilityV2Error
  authority_key_expired authority_issuer_mismatch invalid_authority_signature : CapabilityV2Error
  invalid_capability_envelope authority_trust_failure token_too_large : CapabilityV2Error
  claims_too_large invalid_claims non_canonical_payload type_mismatch : CapabilityV2Error
  unsupported_version issuer_mismatch issuer_key_mismatch audience_mismatch : CapabilityV2Error
  not_yet_valid expired venture_mismatch subject_mismatch session_mismatch : CapabilityV2Error
  invocation_mismatch : String → CapabilityV2Error
  replay idempotency_replay idempotency_conflict unexpected_approval_evidence : CapabilityV2Error
  approval_trust_unavailable approval_lifetime_invalid invalid_approval_claims : CapabilityV2Error
  non_canonical_approval : CapabilityV2Error
  approval_mismatch : String → CapabilityV2Error
  approval_expired approval_from_future approval_reused : CapabilityV2Error
  approval_evidence_mismatch unknown_approval_key approval_issuer_mismatch : CapabilityV2Error
  approval_key_revoked approval_key_not_yet_valid approval_key_expired : CapabilityV2Error
  invalid_approval_signature invalid_approval_envelope : CapabilityV2Error
  approval_verification_failed authority_store_unavailable : CapabilityV2Error

abbrev pub map_authority_error_token : AuthorityError → CapabilityV2Error
map_authority_error_token AuthorityError.already_consumed = replay
map_authority_error_token _ = authority_store_unavailable

abbrev pub map_authority_error_idempotency : AuthorityError → CapabilityV2Error
map_authority_error_idempotency AuthorityError.idempotency_replay = idempotency_replay
map_authority_error_idempotency AuthorityError.idempotency_conflict = idempotency_conflict
map_authority_error_idempotency _ = authority_store_unavailable

abbrev pub map_authority_error_approval : AuthorityError → CapabilityV2Error
map_authority_error_approval AuthorityError.already_consumed = approval_reused
map_authority_error_approval _ = authority_store_unavailable

abbrev pub map_identity_error : IdentityError → CapabilityV2Error
map_identity_error IdentityError.unknown_key_id = unknown_authority_key
map_identity_error IdentityError.issuer_mismatch = authority_issuer_mismatch
map_identity_error IdentityError.invalid_issuer = authority_issuer_mismatch
map_identity_error IdentityError.key_revoked = authority_key_revoked
map_identity_error IdentityError.key_not_yet_valid = authority_key_not_yet_valid
map_identity_error IdentityError.key_expired = authority_key_expired
map_identity_error IdentityError.verification_failed = invalid_authority_signature
map_identity_error IdentityError.invalid_protected_headers = invalid_capability_envelope
map_identity_error IdentityError.unprotected_headers_forbidden = invalid_capability_envelope
map_identity_error IdentityError.missing_payload = invalid_capability_envelope
map_identity_error IdentityError.non_canonical_cose = invalid_capability_envelope
map_identity_error (IdentityError.cose _) = invalid_capability_envelope
map_identity_error _ = authority_trust_failure

abbrev pub map_approval_identity_error : IdentityError → CapabilityV2Error
map_approval_identity_error IdentityError.unknown_key_id = unknown_approval_key
map_approval_identity_error IdentityError.issuer_mismatch = approval_issuer_mismatch
map_approval_identity_error IdentityError.invalid_issuer = approval_issuer_mismatch
map_approval_identity_error IdentityError.key_revoked = approval_key_revoked
map_approval_identity_error IdentityError.key_not_yet_valid = approval_key_not_yet_valid
map_approval_identity_error IdentityError.key_expired = approval_key_expired
map_approval_identity_error IdentityError.verification_failed = invalid_approval_signature
map_approval_identity_error IdentityError.invalid_protected_headers = invalid_approval_envelope
map_approval_identity_error IdentityError.unprotected_headers_forbidden = invalid_approval_envelope
map_approval_identity_error IdentityError.missing_payload = invalid_approval_envelope
map_approval_identity_error IdentityError.non_canonical_cose = invalid_approval_envelope
map_approval_identity_error (IdentityError.cose _) = invalid_approval_envelope
map_approval_identity_error _ = approval_verification_failed
