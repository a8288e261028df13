-- ===== src/Artifact/Manifest/Structural.antt =====
-- What `validate_structural` of crates/artifact/src/manifest.rs asks of a manifest.
use soverign_founder_os.Base.{
  ℕ, ◌+◌, ◌≤◌, ◌≡◌, ◌≢◌, refl, String, Bool, true, false, not, ◌||◌, Option, some, none, List, [],
  ◌∷◌, All, any, ok, reject, map_err, arith, >>=-eq-ok, reject-ok, require_eq, require_eq-ok, ◌==◌,
  ◌!=◌, string_eq, nat_eq, list_eq, is_empty,
}
use text.Mathlib.TextEquality.{eq_iff}
use soverign_founder_os.Artifact.{
  OperationSelector, ResourceBindingRule, OperationDefinition, PluginManifest, Digest, pure_compute,
  core_wasm, risk_class_eq, backend_eq,
}
use soverign_founder_os.Artifact.Errors.{
  invalid_operation_selector, invalid_resource_binding, duplicate_operation,
  unsupported_resource_normalization, unsupported_protocol_version, publisher_issuer_mismatch,
  publisher_key_id_mismatch, unsupported_risk_class, unsupported_backend, unsupported_abi,
  host_capabilities_forbidden, missing_operations,
}
use soverign_founder_os.Artifact.Schema.{validate_declaration}
use soverign_founder_os.Artifact.Schema.Declared.{IsDeclared}
use soverign_founder_os.Artifact.Schema.Declared.Loop.{IsFitting, validate_declaration_ends}
use soverign_founder_os.Artifact.Manifest.{
  Check, validate_selector, validate_binding_id, validate_json_pointer, is_supported, bump,
  validate_bindings, declared, validate_operation, selector_beq, validate_operations, supported_abi,
  validate_structural, validate_manifest,
}

abbrev one_if : Bool → ℕ
one_if true = 1
one_if false = 0

abbrev pub count_primary : List ResourceBindingRule → ℕ
count_primary [] = 0
count_primary (rule ∷ rules) = one_if rule.primary + count_primary rules

bump-one_if : (primary : Bool) (n : ℕ) → bump primary n ≡ one_if primary + n
bump-one_if true n = omega arith
bump-one_if false n = omega arith

-- no two rules have the same id, and no rule has one of those given
abbrev pub DistinctIds : List String → List ResourceBindingRule → Type 0
DistinctIds ids [] = Unit
DistinctIds ids (rule ∷ rules) =
    (any (λ id. id == rule.binding_id) ids ≡ false) × DistinctIds (rule.binding_id ∷ ids) rules

abbrev pub DistinctSelectors : List OperationSelector → List OperationDefinition → Type 0
DistinctSelectors selectors [] = Unit
DistinctSelectors selectors (operation ∷ operations) =
    (any (selector_beq operation.selector) selectors ≡ false)
    × DistinctSelectors (operation.selector ∷ selectors) operations

pub record IsOperation (operation : OperationDefinition) : Type 0 where
  pub limits_fit : IsFitting operation.input_limits
  pub schema_declared : IsDeclared operation.input_limits 1 operation.input_schema
  pub all_supported :
      All (λ (r : ResourceBindingRule). is_supported r ≡ true) operation.resource_bindings
  pub distinct_ids : DistinctIds [] operation.resource_bindings
  pub one_primary : count_primary operation.resource_bindings ≤ 1

pub record IsStructural (manifest : PluginManifest) : Type 0 where
  pub version : manifest.protocol_version ≡ 1
  pub pure : manifest.risk_class ≡ pure_compute
  pub core : manifest.backend ≡ core_wasm
  pub abi : supported_abi manifest.abi ≡ true
  pub entrypoint : manifest.entrypoint ≡ "sovereign_run"
  pub no_host : manifest.requested_host_capabilities ≡ []
  pub some_operation : manifest.operations ≢ []
  pub operations : All IsOperation manifest.operations
  pub distinct : DistinctSelectors [] manifest.operations

bindings_fit :
    (rules : List ResourceBindingRule) (ids : List String) (n m : ℕ)
    → validate_bindings rules ids n ≡ ok m
    → All (λ (r : ResourceBindingRule). is_supported r ≡ true) rules
      × DistinctIds ids rules
      × (m ≡ count_primary rules + n)
unfolding validate_bindings
bindings_fit [] ids n m h = (tt, tt, ground arith)
bindings_fit (rule ∷ rules) ids n m h =
    let (_, _, h1) = >>=-eq-ok (validate_binding_id rule.binding_id) _ h in
    let (_, _, h2) = >>=-eq-ok (validate_json_pointer rule.json_pointer) _ h1 in
    let (_, supported, h3) =
      >>=-eq-ok (reject (not (is_supported rule)) unsupported_resource_normalization) _ h2 in
    let (_, fresh, h4) =
      >>=-eq-ok
        (reject (any (λ id. id == rule.binding_id) ids)
          (invalid_resource_binding "duplicate binding_id"))
        _ h3 in
    let (all_supported, distinct, counted) =
      bindings_fit rules (rule.binding_id ∷ ids) (bump rule.primary n) m h4 in
    (
      (ground arith, all_supported),
      (reject-ok (any (λ id. id == rule.binding_id) ids) _ fresh, distinct),
      omega (arith, counted, bump-one_if rule.primary n),
    )

declared-some : (verdict : Option Check) → declared verdict ≡ ok tt → verdict ≡ some (ok tt)
unfolding declared
declared-some none h = cc
declared-some (some verdict) h = cc

IsOperation-fits :
    (operation : OperationDefinition) → validate_operation operation ≡ ok tt → IsOperation operation
unfolding validate_operation
IsOperation-fits operation h =
    let (_, _, h1) =
      >>=-eq-ok (map_err invalid_operation_selector (validate_selector operation.selector)) _ h in
    let (_, declares, h2) =
      >>=-eq-ok (declared (validate_declaration operation.input_schema operation.input_limits)) _
        h1 in
    let (count, binds, h3) = >>=-eq-ok (validate_bindings operation.resource_bindings [] 0) _ h2 in
    let (supported, distinct, counted) =
      bindings_fit operation.resource_bindings [] 0 count binds in
    let (fitting, schema) =
      ((validate_declaration_ends operation.input_schema operation.input_limits).1).0 (
        declared-some (validate_declaration operation.input_schema operation.input_limits)
          declares) in
    record {
      limits_fit = fitting;
      schema_declared = schema;
      all_supported = supported;
      distinct_ids = distinct;
      one_primary = ground arith;
    }

operations_fit :
    (operations : List OperationDefinition) (selectors : List OperationSelector)
    → validate_operations operations selectors ≡ ok tt
    → All IsOperation operations × DistinctSelectors selectors operations
unfolding validate_operations
operations_fit [] selectors h = (tt, tt)
operations_fit (operation ∷ operations) selectors h =
    let (_, fits, h1) = >>=-eq-ok (validate_operation operation) _ h in
    let (_, fresh, h2) =
      >>=-eq-ok (reject (any (selector_beq operation.selector) selectors) duplicate_operation) _
        h1 in
    let (rest, distinct) = operations_fit operations (operation.selector ∷ selectors) h2 in
    (
      (IsOperation-fits operation fits, rest),
      (reject-ok (any (selector_beq operation.selector) selectors) _ fresh, distinct),
    )

empty_eq : {A : Type 0} (xs : List A) → is_empty xs ≡ true → xs ≡ []
empty_eq [] h = refl
empty_eq (x ∷ xs) h = cc

nonempty_ne : {A : Type 0} (xs : List A) → is_empty xs ≡ false → xs ≢ []
nonempty_ne [] h = absurd (cc)
nonempty_ne (x ∷ xs) h = λ e. cc

pub validate_structural-IsStructural :
    (manifest : PluginManifest) → validate_structural manifest ≡ ok tt → IsStructural manifest
unfolding validate_structural
validate_structural-IsStructural manifest h =
    let (_, versioned, h1) =
      >>=-eq-ok
        (require_eq manifest.protocol_version 1
          (unsupported_protocol_version manifest.protocol_version))
        _ h in
    let (_, pure, h2) =
      >>=-eq-ok (require_eq manifest.risk_class pure_compute unsupported_risk_class) _ h1 in
    let (_, core, h3) =
      >>=-eq-ok (require_eq manifest.backend core_wasm unsupported_backend) _ h2 in
    let (_, entered, h4) =
      >>=-eq-ok
        (reject (not (supported_abi manifest.abi) || manifest.entrypoint != "sovereign_run")
          unsupported_abi)
        _ h3 in
    let (_, closed, h5) =
      >>=-eq-ok
        (reject (not (is_empty manifest.requested_host_capabilities)) host_capabilities_forbidden) _
        h4 in
    let (_, some_left, h6) =
      >>=-eq-ok (reject (is_empty manifest.operations) missing_operations) _ h5 in
    let (operations, distinct) = operations_fit manifest.operations [] h6 in
    record {
      version = require_eq-ok _ versioned;
      pure = require_eq-ok _ pure;
      core = require_eq-ok _ core;
      abi = ground arith;
      entrypoint = ground (arith, eq_iff manifest.entrypoint "sovereign_run");
      no_host = empty_eq manifest.requested_host_capabilities (ground arith);
      some_operation =
          nonempty_ne manifest.operations (reject-ok (is_empty manifest.operations) _ some_left);
      operations = operations;
      distinct = distinct;
    }

pub validate_manifest-IsStructural :
    (manifest : PluginManifest) (issuer : String) (key_id : Digest)
    → validate_manifest manifest issuer key_id ≡ ok tt
    → (manifest.publisher_issuer ≡ issuer)
      × (manifest.publisher_key_id ≡ key_id)
      × (validate_structural manifest ≡ ok tt)
      × IsStructural manifest
unfolding validate_manifest
validate_manifest-IsStructural manifest issuer key_id h =
    let (_, issued, h1) =
      >>=-eq-ok (require_eq manifest.publisher_issuer issuer publisher_issuer_mismatch) _ h in
    let (_, keyed, h2) =
      >>=-eq-ok (require_eq manifest.publisher_key_id key_id publisher_key_id_mismatch) _ h1 in
    (
      require_eq-ok _ issued,
      require_eq-ok _ keyed,
      h2,
      validate_structural-IsStructural manifest h2,
    )
