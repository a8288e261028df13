-- ===== src/Artifact/Invocation.antt =====
-- crates/artifact/src/invocation.rs: an invocation is prepared from raw input and resource grants.
pub mod Granted
use Prim.Native.String.{len}
use soverign_founder_os.Base.{
  ℕ, String, Bool, true, false, not, ◌||◌, Option, some, none, List, [], ◌∷◌, ◌++◌, Result, ok, err,
  reject, ok_or, ◌>>=◌, ◌>>◌, ◌==◌, ◌!=◌, string_eq, nat_eq, list_eq, length, ltb, if◌then◌else◌,
}
use soverign_founder_os.Base.Sorted.{get, insert_new, without, string_lt}
use soverign_founder_os.Base.Text.{Bytes, codes, utf8}
use soverign_founder_os.External.{Crypto}
use soverign_founder_os.Artifact.{
  Digest, OperationSelector, ResourceBindingRule, VerifiedArtifact, GrantCommitment,
  PreparedInvocation, domain_separated,
}
use soverign_founder_os.Artifact.Errors.{
  ArtifactError, operation_not_declared, input_too_large, input_canonicalization_failed,
  resource_binding_not_found, resource_binding_not_string, unsupported_resource_normalization,
  missing_resource_grant, duplicate_resource_grant, unexpected_resource_grant,
  resource_grant_mismatch, input_digest_mismatch, resource_bindings_digest_mismatch,
}
use soverign_founder_os.Artifact.Json.{Value, as_str}
use soverign_founder_os.Artifact.Schema.{outside}
use soverign_founder_os.Artifact.Input.{validate_value, parse_strict_input}
use soverign_founder_os.Artifact.Manifest.{is_supported, find_operation}
use soverign_founder_os.Artifact.Serde.{Serde}

abbrev pub Check : Type 0
Check = Result ArtifactError (Unit {0})

pub record RawResourceGrant : Type 0 where
  pub binding_id : String
  pub resource : String

-- A `BTreeMap` from binding ids to resources.
abbrev pub Grants : Type 0
Grants = List (String × String)

abbrev is_some : Option String → Bool
is_some none = false
is_some (some s) = true

-- `collect_grants`, with the map so far
unfoldable pub collect_grants : List RawResourceGrant → Grants → Result ArtifactError Grants
collect_grants [] collected = ok collected
collect_grants (grant ∷ grants) collected = do
  reject (is_some (get grant.binding_id collected)) (duplicate_resource_grant grant.binding_id)
  collect_grants grants (insert_new grant.binding_id grant.resource collected)

-- what the loop has gathered
pub record Gathered : Type 0 where
  pub commitments : List GrantCommitment
  pub primary_resource : Option String
  pub supplied : Grants

abbrev pub primary_of : Bool → String → Option String → Option String
primary_of true resource primary = some resource
primary_of false resource primary = primary

-- `sort_by` on the binding ids, which is stable
unfoldable pub insert_sorted : GrantCommitment → List GrantCommitment → List GrantCommitment
insert_sorted x [] = x ∷ []
insert_sorted x (y ∷ ys) =
    if string_lt x.binding_id y.binding_id then x ∷ y ∷ ys else y ∷ insert_sorted x ys

unfoldable pub sorted : List GrantCommitment → List GrantCommitment → List GrantCommitment
sorted [] done = done
sorted (x ∷ xs) done = sorted xs (insert_sorted x done)

unfoldable pub no_grant_left : Grants → Check
no_grant_left [] = ok tt
no_grant_left ((unexpected, _) ∷ grants) = err (unexpected_resource_grant unexpected)

module _ (c : Crypto) (s : Serde) where
  -- the resource of a rule in the input
  unfoldable pub resource_of : Value → ResourceBindingRule → Result ArtifactError String
  resource_of input rule = do
    reject (not (is_supported rule)) unsupported_resource_normalization
    value ← ok_or (s.pointer input rule.json_pointer) (resource_binding_not_found rule.binding_id)
    resource ← ok_or (as_str value) (resource_binding_not_string rule.binding_id)
    reject (outside 4096 (len resource)) (resource_grant_mismatch rule.binding_id)
    ok resource

  -- the grant of a rule, which has to be that resource
  unfoldable pub check_grant : ResourceBindingRule → String → Grants → Check
  check_grant rule resource supplied = do
    granted ← ok_or (get rule.binding_id supplied) (missing_resource_grant rule.binding_id)
    reject (granted != resource) (resource_grant_mismatch rule.binding_id)

  unfoldable pub commitment : ResourceBindingRule → String → GrantCommitment
  commitment rule resource = record {
    binding_id = rule.binding_id;
    resource_digest =
        domain_separated c (codes "sovereign.resource-grant.exact-utf8.v1") (utf8 (codes resource));
    primary = rule.primary;
  }

  unfoldable pub grant_rule : ResourceBindingRule → String → Gathered → Gathered
  grant_rule rule resource gathered = record {
    commitments = gathered.commitments ++ (commitment rule resource ∷ []);
    primary_resource = primary_of rule.primary resource gathered.primary_resource;
    supplied = without rule.binding_id gathered.supplied;
  }

  -- the loop over the rules
  unfoldable pub gather :
      Value → List ResourceBindingRule → Gathered → Result ArtifactError Gathered
  gather input [] gathered = ok gathered
  gather input (rule ∷ rules) gathered = do
    resource ← resource_of input rule
    check_grant rule resource gathered.supplied
    gather input rules (grant_rule rule resource gathered)

  unfoldable pub prepare_grants :
      Value
      → List ResourceBindingRule
      → Grants
      → Result ArtifactError (List GrantCommitment × Option String)
  prepare_grants input rules supplied = do
    let start : Gathered = record { commitments = []; primary_resource = none; supplied = supplied }
    gathered ← gather input rules start
    no_grant_left gathered.supplied
    ok (sorted gathered.commitments [], gathered.primary_resource)

  -- `PreparedInvocation::prepare`
  unfoldable pub prepare :
      VerifiedArtifact
      → OperationSelector
      → Bytes
      → List RawResourceGrant
      → Result ArtifactError PreparedInvocation
  prepare artifact operation raw_json grants = do
    definition ←
        ok_or (find_operation operation artifact.manifest.operations) operation_not_declared
    input ← parse_strict_input s.reader raw_json definition.input_limits
    validate_value definition.input_schema input
    canonical_input ← ok_or (s.value_to_vec input) input_canonicalization_failed
    reject (ltb definition.input_limits.max_bytes (length canonical_input)) input_too_large
    supplied ← collect_grants grants []
    (commitments, primary_resource) ← prepare_grants input definition.resource_bindings supplied
    canonical_commitments ← ok_or (s.commitments_to_vec commitments) input_canonicalization_failed
    ok (record {
      artifact = artifact;
      operation = operation;
      canonical_input = canonical_input;
      input_digest = domain_separated c (codes "sovereign.invocation.input.jcs.v1") canonical_input;
      bindings_digest =
          domain_separated c (codes "sovereign.invocation.bindings.jcs.v1") canonical_commitments;
      primary_resource = primary_resource;
      grant_commitments = commitments;
    })

-- `PreparedInvocation::ensure_commitments`
pub ensure_commitments : Digest → Digest → PreparedInvocation → Check
ensure_commitments expected_input expected_bindings prepared = do
  reject (prepared.input_digest != expected_input) input_digest_mismatch
  reject (prepared.bindings_digest != expected_bindings) resource_bindings_digest_mismatch
