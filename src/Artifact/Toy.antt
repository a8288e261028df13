-- ===== src/Artifact/Toy.antt =====
-- A prepared invocation of a pure computation, and encodings of the enumerations, for the witnesses.
pub mod Serde
use soverign_founder_os.Base.{zero, suc, ◌≡◌, refl, some, [], ◌∷◌}
use soverign_founder_os.Base.Text.{Bytes}
use soverign_founder_os.Artifact.{
  PluginManifest, PreparedInvocation, ArtifactBackend, core_wasm, component_wasm, native, RiskClass,
  pure_compute, low_risk_effectful, high_risk_native, ArtifactAbi, sovereign_core_wasm_v1,
  sovereign_core_wasm_v2, sovereign_component_v1,
}

abbrev toy_manifest : PluginManifest
toy_manifest = record {
  protocol_version = 1;
  publisher_issuer = "publisher";
  publisher_key_id = 9 ∷ [];
  component_digest = 1 ∷ [];
  backend = core_wasm;
  risk_class = pure_compute;
  abi = sovereign_core_wasm_v1;
  entrypoint = "run";
  requested_host_capabilities = [];
  operations = [];
}

abbrev pub toy_prepared : PreparedInvocation
toy_prepared = record {
  artifact = record {
    manifest_digest = 2 ∷ [];
    component_digest = 1 ∷ [];
    manifest = toy_manifest;
    bytes = [];
    canonical_manifest = [];
  };
  operation = record { tool_id = "tool"; tool_version = "1"; operation_id = "run" };
  canonical_input = [];
  input_digest = 3 ∷ [];
  bindings_digest = 4 ∷ [];
  primary_resource = some "notes";
  grant_commitments = [];
}

abbrev pub risk_bytes : RiskClass → Bytes
risk_bytes pure_compute = 0 ∷ []
risk_bytes low_risk_effectful = 1 ∷ []
risk_bytes high_risk_native = 2 ∷ []
risk_bytes RiskClass.unsupported = []

abbrev pub risk_of : Bytes → RiskClass
risk_of [] = RiskClass.unsupported
risk_of (zero ∷ _) = pure_compute
risk_of (suc zero ∷ _) = low_risk_effectful
risk_of (suc (suc _) ∷ _) = high_risk_native

pub risk_of-risk_bytes : (r : RiskClass) → risk_of (risk_bytes r) ≡ r
risk_of-risk_bytes pure_compute = refl
risk_of-risk_bytes low_risk_effectful = refl
risk_of-risk_bytes high_risk_native = refl
risk_of-risk_bytes RiskClass.unsupported = refl

abbrev pub backend_bytes : ArtifactBackend → Bytes
backend_bytes core_wasm = 0 ∷ []
backend_bytes component_wasm = 1 ∷ []
backend_bytes native = 2 ∷ []
backend_bytes ArtifactBackend.unsupported = []

abbrev pub backend_of : Bytes → ArtifactBackend
backend_of [] = ArtifactBackend.unsupported
backend_of (zero ∷ _) = core_wasm
backend_of (suc zero ∷ _) = component_wasm
backend_of (suc (suc _) ∷ _) = native

pub backend_of-backend_bytes : (b : ArtifactBackend) → backend_of (backend_bytes b) ≡ b
backend_of-backend_bytes core_wasm = refl
backend_of-backend_bytes component_wasm = refl
backend_of-backend_bytes native = refl
backend_of-backend_bytes ArtifactBackend.unsupported = refl

abbrev pub abi_bytes : ArtifactAbi → Bytes
abi_bytes sovereign_core_wasm_v1 = 0 ∷ []
abi_bytes sovereign_core_wasm_v2 = 1 ∷ []
abi_bytes sovereign_component_v1 = 2 ∷ []
abi_bytes ArtifactAbi.unsupported = []

abbrev pub abi_of : Bytes → ArtifactAbi
abi_of [] = ArtifactAbi.unsupported
abi_of (zero ∷ _) = sovereign_core_wasm_v1
abi_of (suc zero ∷ _) = sovereign_core_wasm_v2
abi_of (suc (suc _) ∷ _) = sovereign_component_v1

pub abi_of-abi_bytes : (a : ArtifactAbi) → abi_of (abi_bytes a) ≡ a
abi_of-abi_bytes sovereign_core_wasm_v1 = refl
abi_of-abi_bytes sovereign_core_wasm_v2 = refl
abi_of-abi_bytes sovereign_component_v1 = refl
abi_of-abi_bytes ArtifactAbi.unsupported = refl
