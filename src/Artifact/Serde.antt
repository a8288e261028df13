-- ===== src/Artifact/Serde.antt =====
-- The signed records of crates/artifact/src/admission.rs, and what serde_json and
-- serde_json_canonicalizer do for the crate, as a parameter.
use soverign_founder_os.Base.{ℕ, ◌≡◌, String, Option, some, List, Result, ok}
use soverign_founder_os.Base.Int.{ℤ}
use soverign_founder_os.Base.Text.{Bytes}
use soverign_founder_os.Contracts.{Uuid}
use soverign_founder_os.Artifact.{
  Digest, ArtifactBackend, RiskClass, ArtifactAbi, PluginManifest, GrantCommitment,
}
use soverign_founder_os.Artifact.Json.{Value, Reader, parse_strict_json}

pub data InstallationState : Type 0 where
  admitted revoked unsupported : InstallationState

pub record AdmissionRecordClaimsV1 : Type 0 where
  pub typ : String
  pub version : ℕ
  pub admission_id : Uuid
  pub admitting_issuer : String
  pub admitting_key_id : Digest
  pub component_digest : Digest
  pub manifest_digest : Digest
  pub backend : ArtifactBackend
  pub risk_class : RiskClass
  pub abi : ArtifactAbi
  pub effective_host_capabilities : List String
  pub installation_state : InstallationState
  pub canonicalization_profile : String
  pub admitted_at_unix : ℤ

pub record Serde : Type 0 where
  pub reader : Reader
  -- `canonicalize` of a value, of the commitments and of a record
  pub value_to_vec : Value → Option Bytes
  pub commitments_to_vec : List GrantCommitment → Option Bytes
  pub record_to_vec : AdmissionRecordClaimsV1 → Option Bytes
  -- `serde_json::from_value`
  pub manifest_from_value : Value → Result String PluginManifest
  pub record_from_value : Value → Result String AdmissionRecordClaimsV1
  -- `Value::pointer`, RFC 6901
  pub pointer : Value → String → Option Value
  -- The canonical form of a record is JSON without repeated keys, is its own canonical form, and is
  -- read back as the record.
  pub record_value :
      (r : AdmissionRecordClaimsV1) (b : Bytes)
      → record_to_vec r ≡ some b
      → (v : Value) × (parse_strict_json reader b ≡ ok v)
        × (value_to_vec v ≡ some b)
        × (record_from_value v ≡ ok r)
