-- ===== src/Artifact.antt =====
-- crates/artifact/src: the data of digest.rs, selector.rs, schema.rs, manifest.rs and invocation.rs.
-- The fields of the source are private and read through getters of the same name.
mod Tests
pub mod Toy
pub mod Errors
pub mod Json
pub mod Schema
pub mod Input
pub mod Manifest
pub mod Serde
pub mod Verifier
pub mod Invocation
pub mod Admission
use soverign_founder_os.Base.{
  ℕ, String, Bool, ◌==◌, Option, List, Eq, derived_eq, nat_eq, list_eq, string_eq, Result,
  require_eq, ◌>>◌, ◌>>=◌, zero, suc, ◌^◌, [], ◌∷◌, ◌++◌, length,
}
use Prim.Native.Nat.{◌/◌, ◌%◌}
use soverign_founder_os.External.{Crypto}
use soverign_founder_os.Base.Text.{Bytes, codes}
use soverign_founder_os.Base.Int.{ℤ}

-- A `Digest` is its 32 bytes.
abbrev pub Digest : Type 0
Digest = Bytes

-- `CANONICALIZATION_PROFILE`
abbrev pub canonicalization_profile : String
canonicalization_profile = "rfc8785-jcs+sovereign-digest-v1"

pub data ArtifactBackend : Type 0 where
  core_wasm component_wasm native unsupported : ArtifactBackend

pub data RiskClass : Type 0 where
  pure_compute low_risk_effectful high_risk_native unsupported : RiskClass

pub data ArtifactAbi : Type 0 where
  sovereign_core_wasm_v1 sovereign_core_wasm_v2 sovereign_component_v1 unsupported : ArtifactAbi

unfoldable pub ArtifactBackend-discrete : Discrete ArtifactBackend
ArtifactBackend-discrete = hlevel

unfoldable pub RiskClass-discrete : Discrete RiskClass
RiskClass-discrete = hlevel

unfoldable pub ArtifactAbi-discrete : Discrete ArtifactAbi
ArtifactAbi-discrete = hlevel

instance abbrev pub abi_eq : Eq ArtifactAbi
abi_eq = derived_eq ArtifactAbi-discrete

instance abbrev pub backend_eq : Eq ArtifactBackend
backend_eq = derived_eq ArtifactBackend-discrete

instance abbrev pub risk_class_eq : Eq RiskClass
risk_class_eq = derived_eq RiskClass-discrete

pub record OperationSelector : Type 0 where
  pub tool_id : String
  pub tool_version : String
  pub operation_id : String

pub record InputLimits : Type 0 where
  pub max_bytes : ℕ
  pub max_depth : ℕ

-- The properties of an object schema are a map in key order.
mutual
  pub data InputSchema : Type 0 where
    object : Properties → List String → ℕ → InputSchema
    array : InputSchema → ℕ → InputSchema
    string : ℕ → InputSchema
    integer : Option ℤ → Option ℤ → InputSchema
    boolean null : InputSchema

  pub data Properties : Type 0 where
    end : Properties
    property : String → InputSchema → Properties → Properties

pub record ResourceBindingRule : Type 0 where
  pub binding_id : String
  pub json_pointer : String
  pub normalization : String
  pub primary : Bool

pub record OperationDefinition : Type 0 where
  pub selector : OperationSelector
  pub input_limits : InputLimits
  pub input_schema : InputSchema
  pub resource_bindings : List ResourceBindingRule

pub record PluginManifest : Type 0 where
  pub protocol_version : ℕ
  pub publisher_issuer : String
  pub publisher_key_id : Digest
  pub component_digest : Digest
  pub backend : ArtifactBackend
  pub risk_class : RiskClass
  pub abi : ArtifactAbi
  pub entrypoint : String
  pub requested_host_capabilities : List String
  pub operations : List OperationDefinition

pub record VerifiedArtifact : Type 0 where
  pub manifest_digest : Digest
  pub component_digest : Digest
  pub manifest : PluginManifest
  pub bytes : Bytes
  pub canonical_manifest : Bytes

pub record GrantCommitment : Type 0 where
  pub binding_id : String
  pub resource_digest : Digest
  pub primary : Bool

pub record PreparedInvocation : Type 0 where
  pub artifact : VerifiedArtifact
  pub operation : OperationSelector
  pub canonical_input : Bytes
  pub input_digest : Digest
  pub bindings_digest : Digest
  pub primary_resource : Option String
  pub grant_commitments : List GrantCommitment

-- the `width` bytes of a number, the most significant first
abbrev be_bytes : ℕ → ℕ → Bytes
be_bytes zero n = []
be_bytes (suc width) n = (n / 256 ^ width % 256) ∷ be_bytes width n

-- `Digest::domain_separated`
unfoldable pub domain_separated : Crypto → Bytes → Bytes → Digest
domain_separated c domain bytes = c.sha256 (
    codes "sovereign-founder-os\0digest\0v1\0"
    ++ (be_bytes 8 (length domain) ++ (domain ++ (be_bytes 8 (length bytes) ++ bytes))))
