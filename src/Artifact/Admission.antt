-- ===== src/Artifact/Admission.antt =====
-- crates/artifact/src/admission.rs: the content-addressed store of admitted artifacts. Each of its three
-- directories is a list of entries. An entry that is no regular file is taken to exist; a temporary
-- file has a fresh name and is read by nothing, so it is left out.
pub mod Load
pub mod Stored
use soverign_founder_os.Base.{
  ℕ, ◌*◌, ◌≡◌, String, Bool, true, false, not, ◌||◌, Option, some, none, List, [], Result, ok, err,
  reject, require_eq, ok_or, map_err, ◌>>=◌, ◌>>◌, Eq, derived_eq, ◌==◌, ◌!=◌, string_eq, nat_eq,
  list_eq, is_empty, ltb, length, if◌then◌else◌,
}
use soverign_founder_os.Base.Int.{ℤ, ltb_ℤ}
use soverign_founder_os.Base.Files.{Entry, file, special, Dir, lookup, insert}
use soverign_founder_os.Base.Text.{Bytes}
use soverign_founder_os.Contracts.{Uuid}
use soverign_founder_os.External.{Crypto, Cose}
use soverign_founder_os.Identity.{
  IdentityError, unknown_key_id, issuer_mismatch, invalid_issuer, key_revoked, key_not_yet_valid,
  key_expired, verification_failed, invalid_protected_headers, unprotected_headers_forbidden,
  missing_payload, non_canonical_cose, cose,
}
use soverign_founder_os.Identity.Trust.{
  RoleTrustStore, VerifiedCosePayload, TypedSigner, sign_cose, verify,
}
use soverign_founder_os.Artifact.{
  Digest, PluginManifest, VerifiedArtifact, domain_separated, canonicalization_profile, backend_eq,
  risk_class_eq, abi_eq,
}
use soverign_founder_os.Artifact.Errors.{
  ArtifactError, invalid_manifest, component_digest_mismatch, admission_store_io,
  stored_entry_not_regular_file, stored_component_corrupted, stored_manifest_corrupted,
  admission_record_exists, admission_record_not_found, admission_record_too_large,
  admission_signing_failed, invalid_admission_record, non_canonical_admission_record,
  admission_record_mismatch, unknown_admission_key, admission_issuer_mismatch,
  admission_key_revoked, admission_key_not_yet_valid, admission_key_expired,
  invalid_admission_signature, invalid_admission_envelope, admission_verification_failed,
}
use soverign_founder_os.Artifact.Json.{parse_strict_json}
use soverign_founder_os.Artifact.Manifest.{validate_structural}
use soverign_founder_os.Artifact.Serde.{InstallationState, admitted, AdmissionRecordClaimsV1, Serde}
use soverign_founder_os.Artifact.Verifier.{
  hard_max_component_bytes, hard_max_manifest_payload_bytes, manifest_digest_domain, json_error,
}

abbrev pub hard_max_signed_admission_bytes : ℕ
hard_max_signed_admission_bytes = 64 * 1024

abbrev pub max_admission_payload_bytes : ℕ
max_admission_payload_bytes = 32 * 1024

abbrev pub admission_record_type : String
admission_record_type = "sovereign.artifact-admission"

abbrev pub Check : Type 0
Check = Result ArtifactError (Unit {0})

pub record AdmittedArtifact : Type 0 where
  pub artifact : VerifiedArtifact
  pub admission : AdmissionRecordClaimsV1

pub record ArtifactStore : Type 0 where
  pub objects : Dir
  pub manifests : Dir
  pub admissions : Dir

-- What the file system does with one atomic write: it fails before the name is there, or after, when
-- the directory is flushed, or it succeeds.
pub data Fault : Type 0 where
  before_rename after_rename : String → Fault
  no_fault : Fault

unfoldable pub write_exclusive_atomic : Fault → Dir → String → Bytes → Check × Dir
write_exclusive_atomic (before_rename reason) dir name bytes =
    (err (admission_store_io reason), dir)
write_exclusive_atomic (after_rename reason) dir name bytes =
    (err (admission_store_io reason), insert name (file bytes) dir)
write_exclusive_atomic no_fault dir name bytes = (ok tt, insert name (file bytes) dir)

-- `read_bounded`; the first argument is the error of the file system, if it has one
unfoldable pub read_bounded : Option String → Option Entry → ℕ → Result ArtifactError Bytes
read_bounded (some reason) entry max_bytes = err (admission_store_io reason)
read_bounded none none max_bytes = err (admission_store_io "NotFound")
read_bounded none (some special) max_bytes = err stored_entry_not_regular_file
read_bounded none (some (file bytes)) max_bytes = do
  reject (ltb max_bytes (length bytes))
      (admission_store_io "stored entry exceeds its protocol size ceiling")
  ok bytes

abbrev pub map_admission_error : IdentityError → ArtifactError
map_admission_error unknown_key_id = unknown_admission_key
map_admission_error issuer_mismatch = admission_issuer_mismatch
map_admission_error invalid_issuer = admission_issuer_mismatch
map_admission_error key_revoked = admission_key_revoked
map_admission_error key_not_yet_valid = admission_key_not_yet_valid
map_admission_error key_expired = admission_key_expired
map_admission_error verification_failed = invalid_admission_signature
map_admission_error invalid_protected_headers = invalid_admission_envelope
map_admission_error unprotected_headers_forbidden = invalid_admission_envelope
map_admission_error missing_payload = invalid_admission_envelope
map_admission_error non_canonical_cose = invalid_admission_envelope
map_admission_error (cose _) = invalid_admission_envelope
map_admission_error _ = admission_verification_failed

unfoldable pub InstallationState-discrete : Discrete InstallationState
InstallationState-discrete = hlevel

instance abbrev pub state_eq : Eq InstallationState
state_eq = derived_eq InstallationState-discrete

-- the answers of the file system to the three reads of `load`
pub record Reads : Type 0 where
  pub admission : Option String
  pub manifest : Option String
  pub object : Option String

module _ (c : Crypto) (e : Cose) (s : Serde) where
  -- the record of an admission, signed
  unfoldable pub signed_record : TypedSigner → AdmissionRecordClaimsV1 → Result ArtifactError Bytes
  signed_record signer claims = do
    canonical ← ok_or (s.record_to_vec claims) admission_signing_failed
    reject (ltb max_admission_payload_bytes (length canonical)) admission_record_too_large
    let signed = sign_cose c e signer canonical
    reject (ltb hard_max_signed_admission_bytes (length signed)) admission_record_too_large
    ok signed

  unfoldable pub claims_of : VerifiedArtifact → TypedSigner → Uuid → ℤ → AdmissionRecordClaimsV1
  claims_of artifact signer admission_id now_unix = record {
    typ = admission_record_type;
    version = 1;
    admission_id = admission_id;
    admitting_issuer = signer.issuer;
    admitting_key_id = signer.key_id;
    component_digest = artifact.component_digest;
    manifest_digest = artifact.manifest_digest;
    backend = artifact.manifest.backend;
    risk_class = artifact.manifest.risk_class;
    abi = artifact.manifest.abi;
    effective_host_capabilities = [];
    installation_state = admitted;
    canonicalization_profile = canonicalization_profile;
    admitted_at_unix = now_unix;
  }

  -- an entry that exists is trusted once its bytes hash to the digest
  unfoldable pub reuse :
      (Bytes → Digest) → Digest → (Digest → ArtifactError) → Result ArtifactError Bytes → Check
  reuse hash digest corruption (err error) = err error
  reuse hash digest corruption (ok existing) =
      reject (hash existing != digest) (corruption (hash existing))

  -- where the entry is there, the fault is that of its read
  abbrev pub read_error : Fault → Option String
  read_error (before_rename reason) = some reason
  read_error _ = none

  -- `store_content_addressed` and `store_manifest_payload`, on the entry that there is
  unfoldable pub store_entry :
      (Bytes → Digest)
      → ℕ
      → (Digest → ArtifactError)
      → Fault
      → Digest
      → Bytes
      → Dir
      → Option Entry
      → Check × Dir
  store_entry hash ceiling corruption fault digest bytes dir none =
      write_exclusive_atomic fault dir (c.hex_encode digest) bytes
  store_entry hash ceiling corruption fault digest bytes dir (some entry) =
      (reuse hash digest corruption (read_bounded (read_error fault) (some entry) ceiling), dir)

  unfoldable pub store_content_addressed : Fault → Digest → Bytes → Dir → Check × Dir
  store_content_addressed fault digest bytes dir =
      store_entry c.sha256 hard_max_component_bytes (stored_component_corrupted digest) fault digest
        bytes dir (lookup (c.hex_encode digest) dir)

  unfoldable pub manifest_hash : Bytes → Digest
  manifest_hash bytes = domain_separated c manifest_digest_domain bytes

  unfoldable pub store_manifest_payload : Fault → Digest → Bytes → Dir → Check × Dir
  store_manifest_payload fault digest bytes dir =
      store_entry manifest_hash hard_max_manifest_payload_bytes (λ _. stored_manifest_corrupted)
        fault digest bytes dir (lookup (c.hex_encode digest) dir)

  -- the checks of `admit` before anything is written
  unfoldable pub check_digests : VerifiedArtifact → Option Entry → Check
  check_digests artifact existing = do
    reject (c.sha256 artifact.bytes != artifact.component_digest)
        (stored_component_corrupted artifact.component_digest (c.sha256 artifact.bytes))
    reject (manifest_hash artifact.canonical_manifest != artifact.manifest_digest)
        stored_manifest_corrupted
    elim existing [ none ↦ ok tt | some _ ↦ err admission_record_exists ]

  -- the last part of `admit`: the record, once both entries are stored
  unfoldable pub publish :
      Fault
      → VerifiedArtifact
      → AdmissionRecordClaimsV1
      → ArtifactStore
      → Result ArtifactError Bytes
      → Result ArtifactError AdmittedArtifact × ArtifactStore
  publish fault artifact claims store (err error) = (err error, store)
  publish fault artifact claims store (ok signed) =
      let (written, admissions) =
        write_exclusive_atomic fault store.admissions (c.hex_encode artifact.manifest_digest)
          signed in
      (
        written >> ok (record { artifact = artifact; admission = claims }),
        record store { admissions = admissions },
      )

  -- `?` after a write: the store that it left, and the rest of `admit`
  unfoldable pub then_store :
      Check
      → ArtifactStore
      → (ArtifactStore → Result ArtifactError AdmittedArtifact × ArtifactStore)
      → Result ArtifactError AdmittedArtifact × ArtifactStore
  then_store (err error) store next = (err error, store)
  then_store (ok _) store next = next store

  unfoldable pub store_manifest :
      Fault
      → Fault
      → VerifiedArtifact
      → TypedSigner
      → AdmissionRecordClaimsV1
      → ArtifactStore
      → Result ArtifactError AdmittedArtifact × ArtifactStore
  store_manifest manifest_fault record_fault artifact signer claims store =
      let (written, manifests) =
        store_manifest_payload manifest_fault artifact.manifest_digest artifact.canonical_manifest
          store.manifests in
      then_store written (record store { manifests = manifests })
        (λ store'. publish record_fault artifact claims store' (signed_record signer claims))

  unfoldable pub store_object :
      Fault
      → Fault
      → Fault
      → VerifiedArtifact
      → TypedSigner
      → AdmissionRecordClaimsV1
      → ArtifactStore
      → Result ArtifactError AdmittedArtifact × ArtifactStore
  store_object object_fault manifest_fault record_fault artifact signer claims store =
      let (written, objects) =
        store_content_addressed object_fault artifact.component_digest artifact.bytes
          store.objects in
      then_store written (record store { objects = objects })
        (store_manifest manifest_fault record_fault artifact signer claims)

  -- `ArtifactStore::admit`; the three faults are those of its writes
  unfoldable pub admit :
      Fault
      → Fault
      → Fault
      → VerifiedArtifact
      → TypedSigner
      → Uuid
      → ℤ
      → ArtifactStore
      → Result ArtifactError AdmittedArtifact × ArtifactStore
  admit object_fault manifest_fault record_fault artifact signer admission_id now_unix store =
      then_store
        (check_digests artifact (lookup (c.hex_encode artifact.manifest_digest) store.admissions))
        store
        (store_object object_fault manifest_fault record_fault artifact signer
          (claims_of artifact signer admission_id now_unix))
