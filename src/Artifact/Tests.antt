-- ===== src/Artifact/Tests.antt =====
-- The theorems on crates/artifact at concrete declarations, inputs and artifacts.
use soverign_founder_os.Base.{◌≡◌, ◌↔◌, refl, true, some, List, [], ◌∷◌, Result, ok, arith, inl}
use soverign_founder_os.Base.Int.{pos}
use soverign_founder_os.Base.Sorted.{get, insert_new, without}
use soverign_founder_os.Base.Files.{lookup}
use soverign_founder_os.Base.Text.{Bytes, codes}
use soverign_founder_os.External.Toy.{toy_crypto, toy_cose}
use soverign_founder_os.Identity.{publisher, admission}
use soverign_founder_os.Identity.Trust.{sign_cose, verify}
use soverign_founder_os.Identity.Trust.Verify.{verify-sign_cose}
use soverign_founder_os.Identity.Toy.{toy_signer, toy_store, toy-Trusts}
use soverign_founder_os.Artifact.{
  InputLimits, InputSchema, property, end, PluginManifest, VerifiedArtifact, PreparedInvocation,
  OperationDefinition, ResourceBindingRule, core_wasm, pure_compute, sovereign_core_wasm_v1,
  domain_separated, ArtifactBackend-discrete, RiskClass-discrete,
}
use soverign_founder_os.Artifact.Errors.{ArtifactError}
use soverign_founder_os.Artifact.Json.{
  json_depth, depth_loop, push_children, push_members, size, size_members, visit, visit_seq,
  visit_map, parse_strict_json, find_member, insert_member, count_members,
}
use soverign_founder_os.Artifact.Schema.{
  validate_declaration, validate_limits, declaration_loop, schema_size, after_visit, pop_schema,
  visit_schema, count_properties, find_property, validate_names, validate_property_name,
  push_properties,
}
use soverign_founder_os.Artifact.Schema.Declared.{IsDeclared}
use soverign_founder_os.Artifact.Schema.Declared.Loop.{IsFitting, validate_declaration_ends}
use soverign_founder_os.Artifact.Input.{
  validate_value, validate_at, first_unknown, first_missing, reject_key, check_string,
  parse_strict_input, check_depth,
}
use soverign_founder_os.Artifact.Input.Typed.{HasType}
use soverign_founder_os.Artifact.Input.Typed.Complete.{validate_value-HasType}
use soverign_founder_os.Artifact.Manifest.{
  validate_segment, validate_selector, validate_binding_id, push_char, split_slash, escapes_fit,
  validate_json_pointer, validate_bindings, declared, validate_operation, validate_operations,
  validate_structural, validate_manifest, find_operation,
}
use soverign_founder_os.Artifact.Verifier.{
  ArtifactVerificationIntent, default_limits, check_intent, read_manifest, verify_artifact,
  manifest_digest_domain,
}
use soverign_founder_os.Artifact.Verifier.Verified.{IsVerified, verify_artifact-IsVerified}
use soverign_founder_os.Artifact.Invocation.{
  RawResourceGrant, collect_grants, insert_sorted, sorted, no_grant_left, resource_of, check_grant,
  commitment, grant_rule, gather, prepare_grants, prepare,
}
use soverign_founder_os.Artifact.Invocation.Granted.Prepared.{IsPrepared, prepare-IsPrepared}
use soverign_founder_os.Artifact.Admission.{
  ArtifactStore, AdmittedArtifact, no_fault, write_exclusive_atomic, signed_record, claims_of,
  store_entry, store_content_addressed, manifest_hash, store_manifest_payload, check_digests,
  publish, then_store, store_manifest, store_object, admit,
}
use soverign_founder_os.Artifact.Admission.Load.{load}
use soverign_founder_os.Artifact.Admission.Load.Roundtrip.{no_errors, load-admit}
use soverign_founder_os.Artifact.Serde.{Serde}
use soverign_founder_os.Artifact.Toy.Serde.{toy_object, toy_serde}

abbrev doc_schema : InputSchema
doc_schema = InputSchema.object (property "doc" (InputSchema.string 16) end) ("doc" ∷ []) 4

abbrev doc_limits : InputLimits
doc_limits = record { max_bytes = 1024; max_depth = 4 }

abbrev component : Bytes
component = 7 ∷ []

abbrev operation_rule : ResourceBindingRule
operation_rule = record {
  binding_id = "doc";
  json_pointer = "/doc";
  normalization = "exact_utf8_v1";
  primary = true;
}

abbrev operation : OperationDefinition
operation = record {
  selector = record { tool_id = "tool"; tool_version = "1"; operation_id = "run" };
  input_limits = doc_limits;
  input_schema = doc_schema;
  resource_bindings = operation_rule ∷ [];
}

abbrev manifest : PluginManifest
manifest = record {
  protocol_version = 1;
  publisher_issuer = "issuer";
  publisher_key_id = (toy_signer publisher).key_id;
  component_digest = toy_crypto.sha256 component;
  backend = core_wasm;
  risk_class = pure_compute;
  abi = sovereign_core_wasm_v1;
  entrypoint = "sovereign_run";
  requested_host_capabilities = [];
  operations = operation ∷ [];
}

abbrev serde : Serde
serde = toy_serde manifest

-- the canonical manifest
abbrev payload : Bytes
payload = 1 ∷ []

abbrev signed : Bytes
signed = sign_cose toy_crypto toy_cose (toy_signer publisher) payload

abbrev intent : ArtifactVerificationIntent
intent = record {
  expected_publisher_issuer = "issuer";
  signed_envelope_digest = toy_crypto.sha256 signed;
  component_digest = toy_crypto.sha256 component;
}

abbrev artifact : VerifiedArtifact
artifact = record {
  manifest_digest = domain_separated toy_crypto manifest_digest_domain payload;
  component_digest = toy_crypto.sha256 component;
  manifest = manifest;
  bytes = component;
  canonical_manifest = payload;
}

abbrev grants : List RawResourceGrant
grants = (record { binding_id = "doc"; resource = "notes" }) ∷ []

abbrev empty_store : ArtifactStore
empty_store = record { objects = []; manifests = []; admissions = [] }

validate_value-HasType_example :
    (validate_value doc_schema toy_object ≡ ok tt) ↔ HasType doc_schema toy_object
validate_value-HasType_example = validate_value-HasType doc_schema toy_object

typed : validate_value doc_schema toy_object ≡ ok tt
unfolding validate_value validate_at count_members reject_key first_unknown find_property
    first_missing find_member check_string
typed = refl

validate_declaration_ends_example :
    ((c : Result ArtifactError (Unit {0})) × (validate_declaration doc_schema doc_limits ≡ some c))
    × ((validate_declaration doc_schema doc_limits ≡ some (ok tt))
        ↔ (IsFitting doc_limits × IsDeclared doc_limits 1 doc_schema))
validate_declaration_ends_example = validate_declaration_ends doc_schema doc_limits

is_declared : validate_declaration doc_schema doc_limits ≡ some (ok tt)
unfolding validate_declaration after_visit validate_limits declaration_loop schema_size pop_schema
    visit_schema count_properties find_property validate_names validate_property_name
    push_properties
is_declared = refl

operation_fits : validate_operation operation ≡ ok tt
unfolding validate_operation validate_selector validate_segment declared validate_bindings
    validate_binding_id validate_json_pointer split_slash push_char escapes_fit
operation_fits = rw is_declared refl

structural : validate_structural manifest ≡ ok tt
unfolding validate_structural validate_operations ArtifactBackend-discrete RiskClass-discrete
structural = rw operation_fits refl

publisher_signed :
    verify toy_crypto toy_cose (toy_store publisher) signed "issuer" (pos 5)
    ≡ ok (record { issuer = "issuer"; key_id = (toy_signer publisher).key_id; payload = payload })
publisher_signed =
    verify-sign_cose toy_crypto toy_cose (toy_store publisher) (toy_signer publisher) (pos 5)
      (toy-Trusts publisher 5 (ground arith)) payload

intended : check_intent toy_crypto toy_cose serde default_limits intent signed component ≡ ok tt
unfolding check_intent sign_cose
intended = refl

manifest_read : read_manifest toy_crypto toy_cose serde payload ≡ ok manifest
unfolding read_manifest parse_strict_json visit visit_seq
manifest_read = refl

accepted : validate_manifest manifest "issuer" (toy_signer publisher).key_id ≡ ok tt
unfolding validate_manifest
accepted = rw structural refl

verified :
    verify_artifact toy_crypto toy_cose serde
      (toy_store publisher)
      default_limits
      (pos 5)
      intent
      signed
      component
    ≡ ok artifact
unfolding verify_artifact
verified = rw intended (rw publisher_signed (rw manifest_read (rw accepted refl)))

verify_artifact-IsVerified_example :
    IsVerified toy_crypto toy_cose serde
      (toy_store publisher)
      default_limits
      (pos 5)
      intent
      signed
      component
      artifact
verify_artifact-IsVerified_example =
    verify_artifact-IsVerified toy_crypto toy_cose serde (toy_store publisher) default_limits
      (pos 5) intent signed component artifact verified

abbrev prepared : PreparedInvocation
prepared = record {
  artifact = artifact;
  operation = operation.selector;
  canonical_input = 0 ∷ [];
  input_digest = domain_separated toy_crypto (codes "sovereign.invocation.input.jcs.v1") (0 ∷ []);
  bindings_digest =
      domain_separated toy_crypto (codes "sovereign.invocation.bindings.jcs.v1") (1 ∷ []);
  primary_resource = some "notes";
  grant_commitments = commitment toy_crypto serde operation_rule "notes" ∷ [];
}

input_read : parse_strict_input serde.reader (0 ∷ []) doc_limits ≡ ok toy_object
unfolding parse_strict_input parse_strict_json visit visit_map find_member insert_member json_depth
    depth_loop push_children push_members size size_members check_depth
input_read = refl

prepares : prepare toy_crypto serde artifact operation.selector (0 ∷ []) grants ≡ ok prepared
unfolding prepare find_operation collect_grants prepare_grants gather resource_of check_grant
    grant_rule no_grant_left sorted insert_sorted find_member get insert_new without
prepares = rw input_read (rw typed refl)

prepare-IsPrepared_example :
    IsPrepared toy_crypto serde artifact operation.selector (0 ∷ []) grants prepared
prepare-IsPrepared_example =
    prepare-IsPrepared toy_crypto serde artifact operation.selector (0 ∷ []) grants prepared
      prepares

abbrev admitted : AdmittedArtifact
admitted = record {
  artifact = artifact;
  admission = claims_of toy_crypto toy_cose serde artifact (toy_signer admission) 99 (pos 10);
}

abbrev full_store : ArtifactStore
full_store =
    (admit toy_crypto toy_cose serde no_fault no_fault no_fault artifact (toy_signer admission) 99
      (pos 10) empty_store).1

admits :
    admit toy_crypto toy_cose serde no_fault no_fault no_fault artifact
      (toy_signer admission)
      99
      (pos 10)
      empty_store
    ≡ (ok admitted, full_store)
unfolding admit then_store check_digests claims_of store_object store_content_addressed store_entry
    write_exclusive_atomic store_manifest store_manifest_payload manifest_hash publish signed_record
    domain_separated lookup sign_cose
admits = refl

load-admit_example :
    load toy_crypto toy_cose serde no_errors artifact.component_digest artifact.manifest_digest
      (toy_store admission)
      "issuer"
      (pos 20)
      full_store
    ≡ ok admitted
unfolding lookup
load-admit_example =
    load-admit toy_crypto toy_cose serde (toy_store publisher) default_limits (pos 5) intent signed
      component artifact no_fault no_fault no_fault (toy_signer admission) 99 (pos 10) (pos 20)
      (toy_store admission) empty_store full_store admitted verified (ground arith) (ground arith)
      admits (inl refl) (inl refl) (toy-Trusts admission 20 (ground arith)) (ground arith)
