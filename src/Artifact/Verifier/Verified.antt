-- ===== src/Artifact/Verifier/Verified.antt =====
-- What `ArtifactVerifier::verify` of crates/artifact/src/manifest.rs accepts.
use soverign_founder_os.Base.{
  ◌≤◌, ◌≡◌, refl, subst, some, Result, ok, err, reject, map_err, ok_or, >>=-eq-ok, ok-inj, ok_or-ok,
  reject-ok, require_eq, require_eq-ok, ltb, ltb-false, length, string_eq, list_eq, nat_eq,
}
use soverign_founder_os.Base.Int.{ℤ}
use soverign_founder_os.Base.Text.{Bytes}
use soverign_founder_os.External.{Crypto, Cose}
use soverign_founder_os.Identity.Trust.{RoleTrustStore, VerifiedCosePayload, verify}
use soverign_founder_os.Identity.Trust.Verify.{IsAuthentic, verify-IsAuthentic}
use soverign_founder_os.Artifact.{PluginManifest, VerifiedArtifact, domain_separated}
use soverign_founder_os.Artifact.Errors.{
  manifest_too_large, component_digest_mismatch, input_canonicalization_failed,
  non_canonical_manifest, invalid_manifest, component_too_large, signed_envelope_digest_mismatch,
}
use soverign_founder_os.Artifact.Json.{Value, parse_strict_json}
use soverign_founder_os.Artifact.Manifest.{validate_manifest, validate_structural}
use soverign_founder_os.Artifact.Manifest.Structural.{IsStructural, validate_manifest-IsStructural}
use soverign_founder_os.Artifact.Serde.{Serde}
use soverign_founder_os.Artifact.Verifier.{
  AdmissionLimits, ArtifactVerificationIntent, map_publisher_error, json_error,
  manifest_digest_domain, check_intent, read_manifest, verify_artifact,
}

pub map_err-ok :
    {E F A : Type 0} (f : E → F) (r : Result E A) {a : A} → map_err f r ≡ ok a → r ≡ ok a
map_err-ok f (ok x) h = cc
map_err-ok f (err e) h = cc

module _ (c : Crypto) (e : Cose) (s : Serde) where
  -- the payload is the canonical JSON of the manifest
  pub record IsManifest (payload : Bytes) (manifest : PluginManifest) : Type 0 where
    pub value : Value
    pub parsed : parse_strict_json s.reader payload ≡ ok value
    pub canonical : s.value_to_vec value ≡ some payload
    pub read : s.manifest_from_value value ≡ ok manifest

  read_manifest-IsManifest :
      (payload : Bytes) (manifest : PluginManifest)
      → read_manifest c e s payload ≡ ok manifest
      → IsManifest payload manifest
  unfolding read_manifest
  read_manifest-IsManifest payload manifest h =
      let (value, parsed, h1) =
        >>=-eq-ok (map_err (json_error invalid_manifest) (parse_strict_json s.reader payload)) _
          h in
      let (canonical, encoded, h2) =
        >>=-eq-ok (ok_or (s.value_to_vec value) input_canonicalization_failed) _ h1 in
      let (_, same, h3) = >>=-eq-ok (require_eq canonical payload non_canonical_manifest) _ h2 in
      record {
        value = value;
        parsed = map_err-ok _ (parse_strict_json s.reader payload) parsed;
        canonical =
            subst (λ b. s.value_to_vec value ≡ some b) (require_eq-ok _ same)
              (ok_or-ok (s.value_to_vec value) _ encoded);
        read = map_err-ok _ (s.manifest_from_value value) h3;
      }

  pub record IsVerified (publishers : RoleTrustStore) (limits : AdmissionLimits) (now_unix : ℤ)
      (intent : ArtifactVerificationIntent) (signed_manifest component : Bytes)
      (artifact : VerifiedArtifact) : Type 0 where
    -- the bytes are those that the intent names, and that were verified
    pub envelope : c.sha256 signed_manifest ≡ intent.signed_envelope_digest
    pub same_bytes : artifact.bytes ≡ component
    pub component_digest : artifact.component_digest ≡ c.sha256 component
    pub intended : artifact.component_digest ≡ intent.component_digest
    pub declared : artifact.component_digest ≡ artifact.manifest.component_digest
    pub signed_fits : length signed_manifest ≤ limits.max_signed_manifest_bytes
    pub component_fits : length component ≤ limits.max_component_bytes
    -- the manifest is what the publisher signed
    pub verified : VerifiedCosePayload
    pub verifies :
        verify c e publishers signed_manifest intent.expected_publisher_issuer now_unix
        ≡ ok verified
    pub authentic : IsAuthentic c e publishers intent.expected_publisher_issuer now_unix verified
    pub payload_fits : length verified.payload ≤ limits.max_manifest_payload_bytes
    pub same_manifest : artifact.canonical_manifest ≡ verified.payload
    pub manifest_digest :
        artifact.manifest_digest
        ≡ domain_separated c manifest_digest_domain artifact.canonical_manifest
    pub is_manifest : IsManifest verified.payload artifact.manifest
    pub publisher : artifact.manifest.publisher_issuer ≡ intent.expected_publisher_issuer
    pub publisher_key : artifact.manifest.publisher_key_id ≡ verified.key_id
    pub accepted : validate_structural artifact.manifest ≡ ok tt
    pub structural : IsStructural artifact.manifest

  -- What the verifier accepts is the envelope and the component of the intent, within the limits. The
  -- manifest is the canonical payload that an active key of the intended publisher signed for the
  -- publisher's role; it names that publisher, that key and the component, its digest is that of the
  -- payload, and it is well formed: a pure computation in core WebAssembly without host capabilities,
  -- whose operations have distinct selectors, schemas that are well declared within their limits, and
  -- supported bindings with distinct ids, of which at most one is primary.
  pub verify_artifact-IsVerified :
      (publishers : RoleTrustStore) (limits : AdmissionLimits) (now_unix : ℤ)
      (intent : ArtifactVerificationIntent) (signed_manifest component : Bytes)
      (artifact : VerifiedArtifact)
      → verify_artifact c e s publishers limits now_unix intent signed_manifest component
        ≡ ok artifact
      → IsVerified publishers limits now_unix intent signed_manifest component artifact
  unfolding verify_artifact check_intent
  verify_artifact-IsVerified publishers limits now_unix intent signed_manifest component artifact
        h =
      let (_, intends, h1) =
        >>=-eq-ok (check_intent c e s limits intent signed_manifest component) _ h in
      let (_, signed_small, i1) =
        >>=-eq-ok
          (reject (ltb limits.max_signed_manifest_bytes (length signed_manifest))
            manifest_too_large)
          _ intends in
      let (_, small, i2) =
        >>=-eq-ok (reject (ltb limits.max_component_bytes (length component)) component_too_large) _
          i1 in
      let (_, enveloped, i3) =
        >>=-eq-ok
          (require_eq (c.sha256 signed_manifest) intent.signed_envelope_digest (
            signed_envelope_digest_mismatch intent.signed_envelope_digest
              (c.sha256 signed_manifest)))
          _ i2 in
      let (verified, verifies, h2) =
        >>=-eq-ok
          (map_err map_publisher_error
            (verify c e publishers signed_manifest intent.expected_publisher_issuer now_unix))
          _ h1 in
      let verifies' =
        map_err-ok _
          (verify c e publishers signed_manifest intent.expected_publisher_issuer now_unix)
          verifies in
      let (_, payload_small, h3) =
        >>=-eq-ok
          (reject (ltb limits.max_manifest_payload_bytes (length verified.payload))
            manifest_too_large)
          _ h2 in
      let (manifest, reads, h4) = >>=-eq-ok (read_manifest c e s verified.payload) _ h3 in
      let (_, valid, h5) =
        >>=-eq-ok (validate_manifest manifest intent.expected_publisher_issuer verified.key_id) _
          h4 in
      let (publisher, key, accepted, structural) =
        validate_manifest-IsStructural manifest intent.expected_publisher_issuer verified.key_id
          valid in
      let (_, declares, h6) =
        >>=-eq-ok
          (require_eq (c.sha256 component) manifest.component_digest
            (component_digest_mismatch manifest.component_digest (c.sha256 component)))
          _ h5 in
      subst (IsVerified publishers limits now_unix intent signed_manifest component) (ok-inj h6)
        (record {
          envelope = require_eq-ok _ enveloped;
          same_bytes = refl;
          component_digest = refl;
          intended = require_eq-ok _ i3;
          declared = require_eq-ok _ declares;
          signed_fits = ltb-false _ _ (
              reject-ok (ltb limits.max_signed_manifest_bytes (length signed_manifest)) _
                signed_small);
          component_fits =
              ltb-false _ _ (reject-ok (ltb limits.max_component_bytes (length component)) _ small);
          verified = verified;
          verifies = verifies';
          authentic =
              verify-IsAuthentic c e publishers signed_manifest intent.expected_publisher_issuer
                now_unix verifies';
          payload_fits = ltb-false _ _ (
              reject-ok (ltb limits.max_manifest_payload_bytes (length verified.payload)) _
                payload_small);
          same_manifest = refl;
          manifest_digest = refl;
          is_manifest = read_manifest-IsManifest verified.payload manifest reads;
          publisher = publisher;
          publisher_key = key;
          accepted = accepted;
          structural = structural;
        })
