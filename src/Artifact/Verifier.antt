-- ===== src/Artifact/Verifier.antt =====
-- crates/artifact/src/manifest.rs: the limits, the intent and the verifier of a publisher's artifact.
pub mod Verified
use Prim.Native.String.{len, ◌++◌ as str_append}
use soverign_founder_os.Base.{
  ℕ, ◌*◌, String, Bool, ◌||◌, Option, Result, ok, err, reject, ok_or, map_err, ◌>>=◌, ◌>>◌, ◌==◌,
  ◌!=◌, string_eq, nat_eq, list_eq, ltb, length,
}
use soverign_founder_os.Base.Int.{ℤ}
use soverign_founder_os.Base.Text.{Bytes, codes, trim}
use soverign_founder_os.External.{Crypto, Cose}
use soverign_founder_os.Identity.{
  IdentityError, unknown_key_id, issuer_mismatch, invalid_issuer, key_revoked, key_not_yet_valid,
  key_expired, verification_failed, invalid_protected_headers, unprotected_headers_forbidden,
  missing_payload, non_canonical_cose, cose, bad_issuer,
}
use soverign_founder_os.Identity.Trust.{RoleTrustStore, VerifiedCosePayload, verify}
use soverign_founder_os.Artifact.{Digest, PluginManifest, VerifiedArtifact, domain_separated}
use soverign_founder_os.Artifact.Errors.{
  ArtifactError, StrictJsonError, duplicate_key, invalid, invalid_verification_limits,
  invalid_verification_intent, manifest_too_large, component_too_large,
  signed_envelope_digest_mismatch, component_digest_mismatch, unknown_publisher_key,
  publisher_issuer_mismatch, publisher_key_revoked, publisher_key_not_yet_valid,
  publisher_key_expired, invalid_publisher_signature, invalid_publisher_envelope,
  publisher_verification_failed, non_canonical_manifest, invalid_manifest,
  input_canonicalization_failed,
}
use soverign_founder_os.Artifact.Json.{Value, parse_strict_json}
use soverign_founder_os.Artifact.Schema.{outside}
use soverign_founder_os.Artifact.Manifest.{validate_manifest}
use soverign_founder_os.Artifact.Serde.{Serde}

abbrev pub hard_max_signed_manifest_bytes : ℕ
hard_max_signed_manifest_bytes = 256 * 1024

abbrev pub hard_max_manifest_payload_bytes : ℕ
hard_max_manifest_payload_bytes = 192 * 1024

abbrev pub hard_max_component_bytes : ℕ
hard_max_component_bytes = 2 * 1024 * 1024

abbrev pub manifest_digest_domain : Bytes
manifest_digest_domain = codes "sovereign.plugin-manifest.jcs.v1"

pub record AdmissionLimits : Type 0 where
  pub max_signed_manifest_bytes : ℕ
  pub max_manifest_payload_bytes : ℕ
  pub max_component_bytes : ℕ

-- `AdmissionLimits::new` and `AdmissionLimits::default`
pub new_admission_limits : ℕ → ℕ → ℕ → Result ArtifactError AdmissionLimits
new_admission_limits signed payload component = do
  reject
      (outside hard_max_signed_manifest_bytes signed
        || outside hard_max_manifest_payload_bytes payload
        || ltb signed payload
        || outside hard_max_component_bytes component)
      invalid_verification_limits
  ok (record {
    max_signed_manifest_bytes = signed;
    max_manifest_payload_bytes = payload;
    max_component_bytes = component;
  })

abbrev pub default_limits : AdmissionLimits
default_limits = record {
  max_signed_manifest_bytes = hard_max_signed_manifest_bytes;
  max_manifest_payload_bytes = hard_max_manifest_payload_bytes;
  max_component_bytes = hard_max_component_bytes;
}

pub record ArtifactVerificationIntent : Type 0 where
  pub expected_publisher_issuer : String
  pub signed_envelope_digest : Digest
  pub component_digest : Digest

-- `ArtifactVerificationIntent::new`
pub new_intent : String → Digest → Digest → Result ArtifactError ArtifactVerificationIntent
new_intent issuer signed_envelope_digest component_digest = do
  reject (issuer == "" || trim (codes issuer) != codes issuer || ltb 256 (len issuer))
      invalid_verification_intent
  ok (record {
    expected_publisher_issuer = issuer;
    signed_envelope_digest = signed_envelope_digest;
    component_digest = component_digest;
  })

abbrev pub map_publisher_error : IdentityError → ArtifactError
map_publisher_error unknown_key_id = unknown_publisher_key
map_publisher_error issuer_mismatch = publisher_issuer_mismatch
map_publisher_error invalid_issuer = publisher_issuer_mismatch
map_publisher_error key_revoked = publisher_key_revoked
map_publisher_error key_not_yet_valid = publisher_key_not_yet_valid
map_publisher_error key_expired = publisher_key_expired
map_publisher_error verification_failed = invalid_publisher_signature
map_publisher_error invalid_protected_headers = invalid_publisher_envelope
map_publisher_error unprotected_headers_forbidden = invalid_publisher_envelope
map_publisher_error missing_payload = invalid_publisher_envelope
map_publisher_error non_canonical_cose = invalid_publisher_envelope
map_publisher_error (cose _) = invalid_publisher_envelope
map_publisher_error _ = publisher_verification_failed

abbrev pub json_error : (String → ArtifactError) → StrictJsonError → ArtifactError
json_error wrap (duplicate_key key) = wrap (str_append "duplicate JSON key `" (str_append key "`"))
json_error wrap (invalid message) = wrap message

module _ (c : Crypto) (e : Cose) (s : Serde) where
  -- the digests of the intent, before any signature is read
  unfoldable pub check_intent :
      AdmissionLimits → ArtifactVerificationIntent → Bytes → Bytes → Result ArtifactError (Unit {0})
  check_intent limits intent signed_manifest component = do
    reject (ltb limits.max_signed_manifest_bytes (length signed_manifest)) manifest_too_large
    reject (ltb limits.max_component_bytes (length component)) component_too_large
    reject (c.sha256 signed_manifest != intent.signed_envelope_digest)
        (signed_envelope_digest_mismatch intent.signed_envelope_digest (c.sha256 signed_manifest))
    reject (c.sha256 component != intent.component_digest)
        (component_digest_mismatch intent.component_digest (c.sha256 component))

  -- the payload as a manifest
  unfoldable pub read_manifest : Bytes → Result ArtifactError PluginManifest
  read_manifest payload = do
    value ← map_err (json_error invalid_manifest) (parse_strict_json s.reader payload)
    canonical ← ok_or (s.value_to_vec value) input_canonicalization_failed
    reject (canonical != payload) non_canonical_manifest
    map_err invalid_manifest (s.manifest_from_value value)

  -- `ArtifactVerifier::verify`; the verifier is its store, its limits and its clock
  unfoldable pub verify_artifact :
      RoleTrustStore
      → AdmissionLimits
      → ℤ
      → ArtifactVerificationIntent
      → Bytes
      → Bytes
      → Result ArtifactError VerifiedArtifact
  verify_artifact publishers limits now_unix intent signed_manifest component = do
    check_intent limits intent signed_manifest component
    verified ←
        map_err map_publisher_error
          (verify c e publishers signed_manifest intent.expected_publisher_issuer now_unix)
    reject (ltb limits.max_manifest_payload_bytes (length verified.payload)) manifest_too_large
    manifest ← read_manifest verified.payload
    validate_manifest manifest intent.expected_publisher_issuer verified.key_id
    reject (c.sha256 component != manifest.component_digest)
        (component_digest_mismatch manifest.component_digest (c.sha256 component))
    ok (record {
      manifest_digest = domain_separated c manifest_digest_domain verified.payload;
      component_digest = c.sha256 component;
      manifest = manifest;
      bytes = component;
      canonical_manifest = verified.payload;
    })
