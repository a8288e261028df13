-- ===== src/Artifact/Admission/Load/Roundtrip.antt =====
-- An artifact that was verified and admitted is loaded again, in crates/artifact/src/admission.rs.
use soverign_founder_os.Base.{
  ℕ, ◌≤◌, ◌≡◌, refl, sym, subst, ap, ◌∙◌, some, none, ok, arith, le→ltb-false, length, ==-refl,
  string_eq, list_eq, nat_eq,
}
use soverign_founder_os.Base.Int.{ℤ, ◌≤ℤ◌}
use soverign_founder_os.Base.Files.{file}
use soverign_founder_os.Base.Text.{Bytes}
use soverign_founder_os.Contracts.{Uuid}
use soverign_founder_os.External.{Crypto, Cose}
use soverign_founder_os.Identity.Trust.{RoleTrustStore, TypedSigner, sign_cose}
use soverign_founder_os.Identity.Trust.Verify.{Trusts, verify-sign_cose}
use soverign_founder_os.Artifact.{VerifiedArtifact, backend_eq, risk_class_eq, abi_eq}
use soverign_founder_os.Artifact.Manifest.{validate_structural}
use soverign_founder_os.Artifact.Serde.{AdmissionRecordClaimsV1, Serde}
use soverign_founder_os.Artifact.Verifier.{
  AdmissionLimits, ArtifactVerificationIntent, hard_max_component_bytes,
  hard_max_manifest_payload_bytes, verify_artifact,
}
use soverign_founder_os.Artifact.Verifier.Verified.{IsManifest, verify_artifact-IsVerified}
use soverign_founder_os.Artifact.Admission.{
  AdmittedArtifact, ArtifactStore, Reads, Fault, max_admission_payload_bytes,
  hard_max_signed_admission_bytes, read_bounded, claims_of, manifest_hash, admit, state_eq,
  InstallationState-discrete,
}
use soverign_founder_os.Artifact.Admission.Stored.{IsFree, IsStored, admit-IsStored}
use soverign_founder_os.Artifact.Admission.Load.{
  read_record, check_record, load_manifest, check_manifest, load_object, load,
}

-- the file system fails at no read
abbrev pub no_errors : Reads
no_errors = record { admission = none; manifest = none; object = none }

read_ok :
    (bytes : Bytes) (ceiling : ℕ)
    → length bytes ≤ ceiling
    → read_bounded none (some (file bytes)) ceiling ≡ ok bytes
unfolding read_bounded
read_ok bytes ceiling fits = rw (le→ltb-false _ _ fits) refl

fits : (m n k l : ℕ) → m ≡ n → n ≤ k → k ≤ l → m ≤ l
fits m n k l same low high = omega arith

module _ (c : Crypto) (e : Cose) (s : Serde) where
  read_record_ok :
      (claims : AdmissionRecordClaimsV1) (canonical : Bytes)
      → s.record_to_vec claims ≡ some canonical
      → length canonical ≤ max_admission_payload_bytes
      → read_record c e s canonical ≡ ok claims
  unfolding read_record
  read_record_ok claims canonical encoded small =
      let (value, parsed, again, read) = s.record_value claims canonical encoded in
      ground (arith, parsed, again, read, ==-refl canonical)

  check_record_ok :
      (artifact : VerifiedArtifact) (signer : TypedSigner) (admission_id : Uuid) (now later : ℤ)
      (payload : Bytes)
      → now ≤ℤ later
      → check_record c e s
          (record { issuer = signer.issuer; key_id = signer.key_id; payload = payload })
          artifact.component_digest
          artifact.manifest_digest
          later
          (claims_of c e s artifact signer admission_id now)
        ≡ ok tt
  unfolding check_record claims_of InstallationState-discrete
  check_record_ok artifact signer admission_id now later payload started = ground (
    arith,
    ==-refl signer.issuer,
    ==-refl signer.key_id,
    ==-refl artifact.component_digest,
    ==-refl artifact.manifest_digest,
  )

  load_manifest_ok :
      (artifact : VerifiedArtifact)
      → manifest_hash c e s artifact.canonical_manifest ≡ artifact.manifest_digest
      → IsManifest c e s artifact.canonical_manifest artifact.manifest
      → validate_structural artifact.manifest ≡ ok tt
      → load_manifest c e s artifact.manifest_digest (ok artifact.canonical_manifest)
        ≡ ok (artifact.canonical_manifest, artifact.manifest)
  unfolding load_manifest
  load_manifest_ok artifact hashed m valid =
      ground (arith, hashed, m.parsed, m.read, valid, ==-refl artifact.manifest_digest)

  check_manifest_ok :
      (artifact : VerifiedArtifact) (signer : TypedSigner) (admission_id : Uuid) (now : ℤ)
      → artifact.component_digest ≡ artifact.manifest.component_digest
      → check_manifest c e s artifact.component_digest
          (claims_of c e s artifact signer admission_id now)
          artifact.manifest
        ≡ ok tt
  unfolding check_manifest claims_of
  check_manifest_ok artifact signer admission_id now declared = ground (
    arith,
    declared,
    ==-refl artifact.manifest.component_digest,
    ==-refl artifact.manifest.backend,
    ==-refl artifact.manifest.risk_class,
    ==-refl artifact.manifest.abi,
  )

  load_object_ok :
      (artifact : VerifiedArtifact)
      → c.sha256 artifact.bytes ≡ artifact.component_digest
      → load_object c e s artifact.component_digest (ok artifact.bytes) ≡ ok artifact.bytes
  unfolding load_object
  load_object_ok artifact hashed = ground (arith, hashed, ==-refl artifact.component_digest)

  load_stored :
      (artifact : VerifiedArtifact) (signer : TypedSigner) (admission_id : Uuid) (now later : ℤ)
      (trust : RoleTrustStore) (store : ArtifactStore)
      → IsStored c e s artifact signer (claims_of c e s artifact signer admission_id now) store
      → IsManifest c e s artifact.canonical_manifest artifact.manifest
      → validate_structural artifact.manifest ≡ ok tt
      → artifact.component_digest ≡ artifact.manifest.component_digest
      → length artifact.bytes ≤ hard_max_component_bytes
      → length artifact.canonical_manifest ≤ hard_max_manifest_payload_bytes
      → Trusts c e trust signer later
      → now ≤ℤ later
      → load c e s no_errors artifact.component_digest artifact.manifest_digest trust signer.issuer
          later store
        ≡ ok (record {
          artifact = artifact;
          admission = claims_of c e s artifact signer admission_id now;
        })
  unfolding load
  load_stored artifact signer admission_id now later trust store t m valid declared small short
        trusts started =
      let verified = verify-sign_cose c e trust signer later trusts t.canonical in
      let signed =
        read_ok (sign_cose c e signer t.canonical) hard_max_signed_admission_bytes t.signed_small in
      let claims = claims_of c e s artifact signer admission_id now in
      let recorded = read_record_ok claims t.canonical t.encoded t.small in
      let checked = check_record_ok artifact signer admission_id now later t.canonical started in
      let manifest_read =
        read_ok artifact.canonical_manifest hard_max_manifest_payload_bytes short in
      let manifest = load_manifest_ok artifact t.manifest m valid in
      let matched = check_manifest_ok artifact signer admission_id now declared in
      let object_read = read_ok artifact.bytes hard_max_component_bytes small in
      let object = load_object_ok artifact t.component in
      rw t.admission (
        rw signed (
          rw verified (
            rw recorded (
              rw checked (
                rw t.manifest_entry (
                  rw manifest_read
                    (rw manifest (rw matched (rw t.object (rw object_read (rw object refl)))))))))))

  -- An artifact that the publisher's verifier accepted, within the ceilings, and that the store
  -- admitted, where nothing else stood under its digests, is loaded again from that store, record and
  -- all, at any later time at which the admitting signer is trusted, as long as the reads succeed.
  pub load-admit :
      (publishers : RoleTrustStore) (limits : AdmissionLimits) (verified_at : ℤ)
      (intent : ArtifactVerificationIntent) (signed_manifest component : Bytes)
      (artifact : VerifiedArtifact) (f g h : Fault) (signer : TypedSigner) (admission_id : Uuid)
      (now later : ℤ) (trust : RoleTrustStore) (store store' : ArtifactStore) (a : AdmittedArtifact)
      → verify_artifact c e s publishers limits verified_at intent signed_manifest component
        ≡ ok artifact
      → limits.max_component_bytes ≤ hard_max_component_bytes
      → limits.max_manifest_payload_bytes ≤ hard_max_manifest_payload_bytes
      → admit c e s f g h artifact signer admission_id now store ≡ (ok a, store')
      → IsFree store.objects (c.hex_encode artifact.component_digest) artifact.bytes
      → IsFree store.manifests (c.hex_encode artifact.manifest_digest) artifact.canonical_manifest
      → Trusts c e trust signer later
      → now ≤ℤ later
      → load c e s no_errors artifact.component_digest artifact.manifest_digest trust signer.issuer
          later store'
        ≡ ok a
  load-admit publishers limits verified_at intent signed_manifest component artifact f g h signer
        admission_id now later trust store store' a verifies low short admits free_object
        free_manifest trusts started =
      let v =
        verify_artifact-IsVerified c e s publishers limits verified_at intent signed_manifest
          component artifact verifies in
      let (stored, same) =
        admit-IsStored c e s f g h artifact signer admission_id now store store' a admits
          free_object free_manifest in
      load_stored artifact signer admission_id now later trust store' stored
        (subst (λ b. IsManifest c e s b artifact.manifest) (sym v.same_manifest) v.is_manifest)
        v.accepted v.declared
        (fits (length artifact.bytes) _ _ _ (ap length v.same_bytes) v.component_fits low)
        (fits (length artifact.canonical_manifest) _ _ _ (ap length v.same_manifest) v.payload_fits
          short)
        trusts started
      ∙ ap ok (sym same)
