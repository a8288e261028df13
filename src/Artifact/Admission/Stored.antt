-- ===== src/Artifact/Admission/Stored.antt =====
-- What an admission that succeeds has stored, in crates/artifact/src/admission.rs.
use soverign_founder_os.Base.{
  ℕ, ◌≤◌, ◌≡◌, refl, sym, subst, ap, ◌∙◌, String, ◌⊎◌, inl, inr, Option, some, none, Result, ok,
  err, reject, ok_or, >>=-eq-ok, ok-inj, ok_or-ok, reject-ok, require_eq, require_eq-ok, ltb,
  ltb-false, length, string_eq, list_eq, nat_eq,
}
use soverign_founder_os.Base.Int.{ℤ}
use soverign_founder_os.Base.Files.{Entry, file, Dir, lookup, insert, lookup-insert_self}
use soverign_founder_os.Base.Text.{Bytes}
use soverign_founder_os.Contracts.{Uuid}
use soverign_founder_os.External.{Crypto, Cose}
use soverign_founder_os.Identity.Trust.{TypedSigner, sign_cose}
use soverign_founder_os.Artifact.{Digest, VerifiedArtifact}
use soverign_founder_os.Artifact.Errors.{
  ArtifactError, stored_component_corrupted, stored_manifest_corrupted, admission_signing_failed,
  admission_record_too_large,
}
use soverign_founder_os.Artifact.Serde.{AdmissionRecordClaimsV1, Serde}
use soverign_founder_os.Artifact.Verifier.{
  hard_max_component_bytes, hard_max_manifest_payload_bytes,
}
use soverign_founder_os.Artifact.Admission.{
  Check, AdmittedArtifact, ArtifactStore, Fault, before_rename, after_rename, no_fault,
  hard_max_signed_admission_bytes, max_admission_payload_bytes, write_exclusive_atomic,
  signed_record, claims_of, store_entry, store_content_addressed, store_manifest_payload,
  check_digests, publish, then_store, store_manifest, store_object, admit, manifest_hash,
}

-- the directory has nothing under the name, or these very bytes
abbrev pub IsFree : Dir → String → Bytes → Type 0
IsFree dir name bytes = (lookup name dir ≡ none) ⊎ (lookup name dir ≡ some (file bytes))

written_there :
    (fault : Fault) (dir : Dir) (name : String) (bytes : Bytes)
    → (write_exclusive_atomic fault dir name bytes).0 ≡ ok tt
    → lookup name ((write_exclusive_atomic fault dir name bytes).1) ≡ some (file bytes)
unfolding write_exclusive_atomic
written_there (before_rename reason) dir name bytes h = cc
written_there (after_rename reason) dir name bytes h = cc
written_there no_fault dir name bytes h = lookup-insert_self name (file bytes) dir

module _ (c : Crypto) (e : Cose) (s : Serde) where
  entry_there :
      (hash : Bytes → Digest) (ceiling : ℕ) (corruption : Digest → ArtifactError) (fault : Fault)
      (digest : Digest) (bytes : Bytes) (dir : Dir) (found : Option Entry)
      → lookup (c.hex_encode digest) dir ≡ found
      → (store_entry c e s hash ceiling corruption fault digest bytes dir found).0 ≡ ok tt
      → (found ≡ none) ⊎ (found ≡ some (file bytes))
      → lookup
          (c.hex_encode digest)
          ((store_entry c e s hash ceiling corruption fault digest bytes dir found).1)
        ≡ some (file bytes)
  unfolding store_entry
  entry_there hash ceiling corruption fault digest bytes dir none at h free =
      written_there fault dir (c.hex_encode digest) bytes h
  entry_there hash ceiling corruption fault digest bytes dir (some entry) at h (inl e) = cc
  entry_there hash ceiling corruption fault digest bytes dir (some entry) at h (inr e) = at ∙ e

  stored_ok :
      (written : Check) (store : ArtifactStore)
      (next : ArtifactStore → Result ArtifactError AdmittedArtifact × ArtifactStore)
      (a : AdmittedArtifact) (store' : ArtifactStore)
      → then_store c e s written store next ≡ (ok a, store')
      → (written ≡ ok tt) × (next store ≡ (ok a, store'))
  unfolding then_store
  stored_ok (err error) store next a store' h = cc
  stored_ok (ok _) store next a store' h = (refl, h)

  published :
      (fault : Fault) (artifact : VerifiedArtifact) (claims : AdmissionRecordClaimsV1)
      (store : ArtifactStore) (signed : Result ArtifactError Bytes) (a : AdmittedArtifact)
      (store' : ArtifactStore)
      → publish c e s fault artifact claims store signed ≡ (ok a, store')
      → (bytes : Bytes) × (signed ≡ ok bytes)
        × (a ≡ record { artifact = artifact; admission = claims })
        × (lookup (c.hex_encode artifact.manifest_digest) store'.admissions ≡ some (file bytes))
        × (store'.objects ≡ store.objects)
        × (store'.manifests ≡ store.manifests)
  unfolding publish write_exclusive_atomic
  published fault artifact claims store (err error) a store' h = cc
  published (before_rename reason) artifact claims store (ok bytes) a store' h = cc
  published (after_rename reason) artifact claims store (ok bytes) a store' h = cc
  published no_fault artifact claims store (ok bytes) a store' h =
      let left : record store {
        admissions = insert (c.hex_encode artifact.manifest_digest) (file bytes) store.admissions;
      }
          ≡ store' =
        ap (λ (p : Result ArtifactError AdmittedArtifact × ArtifactStore). p.1) h in
      (
        bytes,
        refl,
        sym (ok-inj (ap (λ (p : Result ArtifactError AdmittedArtifact × ArtifactStore). p.0) h)),
        subst
            (λ (t : ArtifactStore).
              lookup (c.hex_encode artifact.manifest_digest) t.admissions ≡ some (file bytes))
            left
            (lookup-insert_self (c.hex_encode artifact.manifest_digest) (file bytes)
              store.admissions),
        sym (ap (λ (t : ArtifactStore). t.objects) left),
        sym (ap (λ (t : ArtifactStore). t.manifests) left),
      )

  -- the record that was signed, and its size
  signed_record_lem :
      (signer : TypedSigner) (claims : AdmissionRecordClaimsV1) (signed : Bytes)
      → signed_record c e s signer claims ≡ ok signed
      → (canonical : Bytes) × (s.record_to_vec claims ≡ some canonical)
        × (length canonical ≤ max_admission_payload_bytes)
        × (length signed ≤ hard_max_signed_admission_bytes)
        × (signed ≡ sign_cose c e signer canonical)
  unfolding signed_record
  signed_record_lem signer claims signed h =
      let (canonical, encoded, h1) =
        >>=-eq-ok (ok_or (s.record_to_vec claims) admission_signing_failed) _ h in
      let (_, small, h2) =
        >>=-eq-ok
          (reject (ltb max_admission_payload_bytes (length canonical)) admission_record_too_large) _
          h1 in
      let (_, short, h3) =
        >>=-eq-ok
          (reject (ltb hard_max_signed_admission_bytes (length (sign_cose c e signer canonical)))
            admission_record_too_large)
          _ h2 in
      let same : sign_cose c e signer canonical ≡ signed = ok-inj h3 in
      (
        canonical,
        ok_or-ok (s.record_to_vec claims) _ encoded,
        ltb-false _ _ (reject-ok (ltb max_admission_payload_bytes (length canonical)) _ small),
        subst (λ b. length b ≤ hard_max_signed_admission_bytes) same
            (ltb-false _ _ (
              reject-ok
                (ltb hard_max_signed_admission_bytes (length (sign_cose c e signer canonical))) _
                short)),
        sym same,
      )

  pub record IsStored (artifact : VerifiedArtifact) (signer : TypedSigner)
      (claims : AdmissionRecordClaimsV1) (store : ArtifactStore) : Type 0 where
    pub component : c.sha256 artifact.bytes ≡ artifact.component_digest
    pub manifest : manifest_hash c e s artifact.canonical_manifest ≡ artifact.manifest_digest
    pub object :
        lookup (c.hex_encode artifact.component_digest) store.objects ≡ some (file artifact.bytes)
    pub manifest_entry :
        lookup (c.hex_encode artifact.manifest_digest) store.manifests
        ≡ some (file artifact.canonical_manifest)
    pub canonical : Bytes
    pub encoded : s.record_to_vec claims ≡ some canonical
    pub small : length canonical ≤ max_admission_payload_bytes
    pub signed_small : length (sign_cose c e signer canonical) ≤ hard_max_signed_admission_bytes
    pub admission :
        lookup (c.hex_encode artifact.manifest_digest) store.admissions
        ≡ some (file (sign_cose c e signer canonical))

  pub admit-IsStored :
      (f g h : Fault) (artifact : VerifiedArtifact) (signer : TypedSigner) (admission_id : Uuid)
      (now_unix : ℤ) (store store' : ArtifactStore) (a : AdmittedArtifact)
      → admit c e s f g h artifact signer admission_id now_unix store ≡ (ok a, store')
      → IsFree store.objects (c.hex_encode artifact.component_digest) artifact.bytes
      → IsFree store.manifests (c.hex_encode artifact.manifest_digest) artifact.canonical_manifest
      → IsStored artifact signer (claims_of c e s artifact signer admission_id now_unix) store'
        × (a ≡ record {
          artifact = artifact;
          admission = claims_of c e s artifact signer admission_id now_unix;
        })
  unfolding admit store_object store_manifest store_content_addressed store_manifest_payload
      check_digests
  admit-IsStored f g h artifact signer admission_id now_unix store store' a done free_object
        free_manifest =
      let claims = claims_of c e s artifact signer admission_id now_unix in
      let (checked, d1) = stored_ok _ store _ a store' done in
      let (object_written, d2) = stored_ok _ _ _ a store' d1 in
      let (manifest_written, d3) = stored_ok _ _ _ a store' d2 in
      let (_, component, c1) =
        >>=-eq-ok
          (require_eq (c.sha256 artifact.bytes) artifact.component_digest
            (stored_component_corrupted artifact.component_digest (c.sha256 artifact.bytes)))
          _ checked in
      let (_, manifest, _) =
        >>=-eq-ok
          (require_eq (manifest_hash c e s artifact.canonical_manifest) artifact.manifest_digest
            stored_manifest_corrupted)
          _ c1 in
      let (bytes, signs, same, admission, objects, manifests) =
        published h artifact claims _ (signed_record c e s signer claims) a store' d3 in
      let (canonical, encoded, small, short, signed) =
        signed_record_lem signer claims bytes signs in
      (
        record {
          component = require_eq-ok _ component;
          manifest = require_eq-ok _ manifest;
          object =
              ap (lookup (c.hex_encode artifact.component_digest)) objects
              ∙ entry_there c.sha256 hard_max_component_bytes
                  (stored_component_corrupted artifact.component_digest) f artifact.component_digest
                  artifact.bytes store.objects _ refl object_written free_object;
          manifest_entry =
              ap (lookup (c.hex_encode artifact.manifest_digest)) manifests
              ∙ entry_there (manifest_hash c e s) hard_max_manifest_payload_bytes
                  (λ _. stored_manifest_corrupted) g artifact.manifest_digest
                  artifact.canonical_manifest store.manifests _ refl manifest_written free_manifest;
          canonical = canonical;
          encoded = encoded;
          small = small;
          signed_small = subst (λ b. length b ≤ hard_max_signed_admission_bytes) signed short;
          admission =
              subst
                (λ b.
                  lookup (c.hex_encode artifact.manifest_digest) store'.admissions ≡ some (file b))
                signed admission;
        },
        same,
      )
