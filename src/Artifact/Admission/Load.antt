-- ===== src/Artifact/Admission/Load.antt =====
-- `ArtifactStore::load` of crates/artifact/src/admission.rs.
pub mod Roundtrip
use soverign_founder_os.Base.{
  ℕ, ◌≡◌, String, Bool, not, ◌||◌, Option, some, none, Result, ok, err, reject, require_eq, ok_or,
  map_err, ◌>>=◌, ◌>>◌, ◌==◌, ◌!=◌, string_eq, nat_eq, list_eq, is_empty, ltb, length,
}
use soverign_founder_os.Base.Int.{ℤ, ltb_ℤ}
use soverign_founder_os.Base.Files.{Entry, lookup}
use soverign_founder_os.Base.Text.{Bytes}
use soverign_founder_os.External.{Crypto, Cose}
use soverign_founder_os.Identity.Trust.{RoleTrustStore, VerifiedCosePayload, verify}
use soverign_founder_os.Artifact.{
  Digest, PluginManifest, VerifiedArtifact, domain_separated, canonicalization_profile, backend_eq,
  risk_class_eq, abi_eq,
}
use soverign_founder_os.Artifact.Errors.{
  ArtifactError, invalid_manifest, component_digest_mismatch, stored_component_corrupted,
  stored_manifest_corrupted, admission_record_not_found, admission_record_too_large,
  admission_signing_failed, invalid_admission_record, non_canonical_admission_record,
  admission_record_mismatch,
}
use soverign_founder_os.Artifact.Json.{parse_strict_json}
use soverign_founder_os.Artifact.Manifest.{validate_structural}
use soverign_founder_os.Artifact.Serde.{admitted, AdmissionRecordClaimsV1, Serde}
use soverign_founder_os.Artifact.Verifier.{
  hard_max_component_bytes, hard_max_manifest_payload_bytes, json_error,
}
use soverign_founder_os.Artifact.Admission.{
  Check, AdmittedArtifact, ArtifactStore, Reads, admission_record_type,
  hard_max_signed_admission_bytes, max_admission_payload_bytes, read_bounded, map_admission_error,
  state_eq, manifest_hash,
}

module _ (c : Crypto) (e : Cose) (s : Serde) where
  abbrev has_record : Option Entry → Check
  has_record none = err admission_record_not_found
  has_record (some entry) = ok tt

  -- the payload as a record
  read_record : Bytes → Result ArtifactError AdmissionRecordClaimsV1
  read_record payload = do
    reject (ltb max_admission_payload_bytes (length payload)) admission_record_too_large
    value ← map_err (json_error invalid_admission_record) (parse_strict_json s.reader payload)
    canonical ← ok_or (s.value_to_vec value) admission_signing_failed
    require_eq canonical payload non_canonical_admission_record
    map_err invalid_admission_record (s.record_from_value value)

  -- the comparisons of the record with what was verified and what is asked for
  check_record : VerifiedCosePayload → Digest → Digest → ℤ → AdmissionRecordClaimsV1 → Check
  check_record verified component_digest manifest_digest now_unix claims = do
    require_eq claims.typ admission_record_type (admission_record_mismatch "typ")
    require_eq claims.version 1 (admission_record_mismatch "version")
    require_eq claims.admitting_issuer verified.issuer
        (admission_record_mismatch "admitting_issuer")
    require_eq claims.admitting_key_id verified.key_id
        (admission_record_mismatch "admitting_key_id")
    require_eq claims.component_digest component_digest
        (admission_record_mismatch "component_digest")
    require_eq claims.manifest_digest manifest_digest (admission_record_mismatch "manifest_digest")
    require_eq claims.installation_state admitted (admission_record_mismatch "installation_state")
    reject (not (is_empty claims.effective_host_capabilities))
        (admission_record_mismatch "effective_host_capabilities")
    require_eq claims.canonicalization_profile canonicalization_profile
        (admission_record_mismatch "canonicalization_profile")
    reject (ltb_ℤ now_unix claims.admitted_at_unix) (admission_record_mismatch "admitted_at_unix")

  -- the stored manifest
  load_manifest :
      Digest → Result ArtifactError Bytes → Result ArtifactError (Bytes × PluginManifest)
  load_manifest manifest_digest stored = do
    canonical_manifest ← stored
    require_eq (manifest_hash c e s canonical_manifest) manifest_digest stored_manifest_corrupted
    value ← map_err (json_error invalid_manifest) (parse_strict_json s.reader canonical_manifest)
    manifest ← map_err invalid_manifest (s.manifest_from_value value)
    validate_structural manifest
    ok (canonical_manifest, manifest)

  -- the comparisons of the manifest with what is asked for and with the record
  check_manifest : Digest → AdmissionRecordClaimsV1 → PluginManifest → Check
  check_manifest component_digest claims manifest = do
    require_eq manifest.component_digest component_digest
        (component_digest_mismatch manifest.component_digest component_digest)
    reject
        (manifest.backend != claims.backend
          || manifest.risk_class != claims.risk_class
          || manifest.abi != claims.abi)
        (admission_record_mismatch "runtime_profile")

  -- the stored component
  load_object : Digest → Result ArtifactError Bytes → Result ArtifactError Bytes
  load_object component_digest stored = do
    bytes ← stored
    require_eq (c.sha256 bytes) component_digest
        (stored_component_corrupted component_digest (c.sha256 bytes))
    ok bytes

  -- `ArtifactStore::load`, with the errors of the file system, if any, at its three reads
  pub load :
      Reads
      → Digest
      → Digest
      → RoleTrustStore
      → String
      → ℤ
      → ArtifactStore
      → Result ArtifactError AdmittedArtifact
  load reads component_digest manifest_digest trust expected_issuer now_unix store = do
    let admission = lookup (c.hex_encode manifest_digest) store.admissions
    has_record admission
    signed ← read_bounded reads.admission admission hard_max_signed_admission_bytes
    verified ← map_err map_admission_error (verify c e trust signed expected_issuer now_unix)
    claims ← read_record verified.payload
    check_record verified component_digest manifest_digest now_unix claims
    (canonical_manifest, manifest) ← load_manifest manifest_digest (
        read_bounded reads.manifest (lookup (c.hex_encode manifest_digest) store.manifests)
          hard_max_manifest_payload_bytes)
    check_manifest component_digest claims manifest
    bytes ← load_object component_digest (
        read_bounded reads.object (lookup (c.hex_encode component_digest) store.objects)
          hard_max_component_bytes)
    ok (record {
      artifact = record {
        manifest_digest = manifest_digest;
        component_digest = component_digest;
        manifest = manifest;
        bytes = bytes;
        canonical_manifest = canonical_manifest;
      };
      admission = claims;
    })
