-- ===== src/Artifact/Manifest.antt =====
-- crates/artifact/src: the checks of selector.rs, and those of manifest.rs on a parsed manifest.
pub mod Valid
pub mod Structural
use Prim.Native.String.{len}
use soverign_founder_os.Base.{
  ℕ, zero, suc, ◌+◌, ◌*◌, String, Bool, true, false, not, ◌&&◌, ◌||◌, Option, some, none, List, [],
  ◌∷◌, Result, ok, err, reject, map_err, require_eq, ◌>>=◌, ◌>>◌, ◌==◌, ◌!=◌, string_eq, nat_eq,
  list_eq, any, all, is_empty, ltb, leb, drop, if◌then◌else◌,
}
use soverign_founder_os.Base.Text.{codes, trim, starts_with}
use soverign_founder_os.Artifact.{
  Digest, ArtifactBackend, core_wasm, RiskClass, pure_compute, ArtifactAbi, sovereign_core_wasm_v1,
  sovereign_core_wasm_v2, OperationSelector, ResourceBindingRule, OperationDefinition,
  PluginManifest, VerifiedArtifact, backend_eq, risk_class_eq,
}
use soverign_founder_os.Artifact.Errors.{
  SelectorError, invalid_length, invalid_characters, ArtifactError, invalid_operation_selector,
  invalid_resource_binding, unsupported_resource_normalization, publisher_issuer_mismatch,
  publisher_key_id_mismatch, unsupported_protocol_version, unsupported_risk_class,
  unsupported_backend, unsupported_abi, host_capabilities_forbidden, missing_operations,
  duplicate_operation, invalid_verification_limits, invalid_verification_intent,
  invalid_input_schema, manifest_digest_mismatch, component_digest_mismatch,
}
use soverign_founder_os.Artifact.Schema.{outside, validate_declaration}

abbrev pub Check : Type 0
Check = Result ArtifactError (Unit {0})

abbrev pub is_ascii_alphanumeric : ℕ → Bool
is_ascii_alphanumeric c =
    (leb b'0' c && leb c b'9') || (leb b'A' c && leb c b'Z') || (leb b'a' c && leb c b'z')

abbrev pub segment_char : Bool → ℕ → Bool
segment_char allow_plus c =
    is_ascii_alphanumeric c || c == b'.' || c == b'_' || c == b'-' || (allow_plus && c == b'+')

unfoldable pub validate_segment : String → String → ℕ → Bool → Result SelectorError (Unit {0})
validate_segment field value maximum allow_plus = do
  reject (outside maximum (len value)) (invalid_length field maximum (len value))
  reject (not (all (segment_char allow_plus) (codes value))) (invalid_characters field)

-- `OperationSelector::validate` and `OperationSelector::new`
unfoldable pub validate_selector : OperationSelector → Result SelectorError (Unit {0})
validate_selector selector = do
  validate_segment "tool_id" selector.tool_id 128 true
  validate_segment "tool_version" selector.tool_version 64 true
  validate_segment "operation_id" selector.operation_id 128 false

pub new_selector : String → String → String → Result SelectorError OperationSelector
new_selector tool_id tool_version operation_id = do
  let selector : OperationSelector = record {
    tool_id = tool_id;
    tool_version = tool_version;
    operation_id = operation_id;
  }
  validate_selector selector
  ok selector

abbrev pub binding_char : ℕ → Bool
binding_char c = is_ascii_alphanumeric c || c == b'_' || c == b'-'

unfoldable pub validate_binding_id : String → Check
validate_binding_id binding_id =
    reject (outside 128 (len binding_id) || not (all binding_char (codes binding_id)))
      (invalid_resource_binding "binding_id must be 1..=128 ASCII identifier bytes")

-- `split('/')`
unfoldable pub push_char : ℕ → List (List ℕ) → List (List ℕ)
push_char c [] = (c ∷ []) ∷ []
push_char c (token ∷ tokens) = (c ∷ token) ∷ tokens

unfoldable pub split_slash : List ℕ → List (List ℕ)
split_slash [] = [] ∷ []
split_slash (c ∷ cs) =
    let rest = split_slash cs in if c == b'/' then [] ∷ rest else push_char c rest

-- the loop over the bytes of a token: after `~` stands `0` or `1`
unfoldable pub escapes_fit : List ℕ → Bool
escapes_fit [] = true
escapes_fit (c ∷ []) = c != b'~'
escapes_fit (c ∷ d ∷ cs) =
    let skipped = escapes_fit cs in
    let next = escapes_fit (d ∷ cs) in
    if c == b'~' then (d == b'0' || d == b'1') && skipped else next

unfoldable pub validate_json_pointer : String → Check
validate_json_pointer pointer = do
  reject
      (ltb 1024 (len pointer) || (pointer != "" && not (starts_with (b'/' ∷ []) (codes pointer))))
      (invalid_resource_binding "JSON Pointer must be empty or begin with `/` and fit 1024 bytes")
  reject (not (all escapes_fit (drop 1 (split_slash (codes pointer)))))
      (invalid_resource_binding "JSON Pointer contains an invalid escape")

-- `ResourceNormalization::is_supported`
abbrev pub is_supported : ResourceBindingRule → Bool
is_supported rule = rule.normalization == "exact_utf8_v1"

abbrev pub bump : Bool → ℕ → ℕ
bump true n = suc n
bump false n = n

-- the loop over the bindings, with the ids so far, and the count of the primary ones
unfoldable pub validate_bindings :
    List ResourceBindingRule → List String → ℕ → Result ArtifactError ℕ
validate_bindings [] binding_ids primary_count = ok primary_count
validate_bindings (binding ∷ bindings) binding_ids primary_count = do
  validate_binding_id binding.binding_id
  validate_json_pointer binding.json_pointer
  reject (not (is_supported binding)) unsupported_resource_normalization
  reject (any (λ id. id == binding.binding_id) binding_ids)
      (invalid_resource_binding "duplicate binding_id")
  validate_bindings bindings (binding.binding_id ∷ binding_ids) (bump binding.primary primary_count)

-- The loop of `validate_declaration` always ends, so the first clause is never met.
unfoldable pub declared : Option Check → Check
declared none = err (invalid_input_schema "")
declared (some verdict) = verdict

-- `OperationDefinition::validate`
unfoldable pub validate_operation : OperationDefinition → Check
validate_operation operation = do
  map_err invalid_operation_selector (validate_selector operation.selector)
  declared (validate_declaration operation.input_schema operation.input_limits)
  primary_count ← validate_bindings operation.resource_bindings [] 0
  reject (ltb 1 primary_count) (invalid_resource_binding "at most one binding may be primary")

abbrev pub selector_beq : OperationSelector → OperationSelector → Bool
selector_beq a b =
    a.tool_id == b.tool_id && a.tool_version == b.tool_version && a.operation_id == b.operation_id

-- the loop over the operations, with the selectors so far
unfoldable pub validate_operations : List OperationDefinition → List OperationSelector → Check
validate_operations [] selectors = ok tt
validate_operations (operation ∷ operations) selectors = do
  validate_operation operation
  reject (any (selector_beq operation.selector) selectors) duplicate_operation
  validate_operations operations (operation.selector ∷ selectors)

abbrev pub supported_abi : ArtifactAbi → Bool
supported_abi sovereign_core_wasm_v1 = true
supported_abi sovereign_core_wasm_v2 = true
supported_abi _ = false

-- `PluginManifest::validate_structural`
unfoldable pub validate_structural : PluginManifest → Check
validate_structural manifest = do
  reject (manifest.protocol_version != 1) (unsupported_protocol_version manifest.protocol_version)
  reject (manifest.risk_class != pure_compute) unsupported_risk_class
  reject (manifest.backend != core_wasm) unsupported_backend
  reject (not (supported_abi manifest.abi) || manifest.entrypoint != "sovereign_run")
      unsupported_abi
  reject (not (is_empty manifest.requested_host_capabilities)) host_capabilities_forbidden
  reject (is_empty manifest.operations) missing_operations
  validate_operations manifest.operations []

-- `PluginManifest::validate`
unfoldable pub validate_manifest : PluginManifest → String → Digest → Check
validate_manifest manifest expected_issuer verified_key_id = do
  reject (manifest.publisher_issuer != expected_issuer) publisher_issuer_mismatch
  reject (manifest.publisher_key_id != verified_key_id) publisher_key_id_mismatch
  validate_structural manifest

-- `PluginManifest::operation`
unfoldable pub find_operation :
    OperationSelector → List OperationDefinition → Option OperationDefinition
find_operation selector [] = none
find_operation selector (operation ∷ operations) =
    if selector_beq operation.selector selector
    then some operation
    else find_operation selector operations

-- `VerifiedArtifact::ensure_digests`
pub ensure_digests : Digest → Digest → VerifiedArtifact → Check
ensure_digests expected_manifest expected_component artifact = do
  reject (artifact.manifest_digest != expected_manifest) manifest_digest_mismatch
  reject (artifact.component_digest != expected_component)
      (component_digest_mismatch expected_component artifact.component_digest)
