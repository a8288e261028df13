-- ===== src/Identity/Trust/Verify.antt =====
-- What `verify` accepts, and that it accepts what a trusted signer signs.
use soverign_founder_os.Base.{
  ◌≡◌, refl, String, true, false, some, none, [], ok, err, nat_eq, string_eq, list_eq, list_beq_iff,
  length, arith, Option-cases, inl, inr, ==-refl,
}
use text.Mathlib.TextEquality.{eq_iff}
use soverign_founder_os.Base.Int.{ℤ, ◌≤ℤ◌, ◌<ℤ◌}
use soverign_founder_os.Base.Text.{Bytes, codes}
use soverign_founder_os.External.{Crypto, Cose, CoseSign1, Header}
use soverign_founder_os.Identity.{cose, SigningRole, external_aad, validate_issuer, bad_issuer}
use soverign_founder_os.Identity.Trust.{
  RoleTrustStore, TrustedKey, active, TypedSigner, VerifiedCosePayload, lookup_key,
  expected_protected_header, role_key_id, sign_cose, verify, header_beq, check_key, check_signature,
  payload_or_empty, ensure_canonical_cose,
}

module _ (c : Crypto) (e : Cose) where
  -- The verdict rests on an active key of the store, valid at the time, of the expected issuer, and
  -- on its signature over the payload under the header and the external data of the store's role.
  pub record IsAuthentic (store : RoleTrustStore) (issuer : String) (now : ℤ)
      (v : VerifiedCosePayload) : Type 0 where
    pub key : TrustedKey
    pub trusted : lookup_key v.key_id store.keys ≡ some key
    pub key_issuer : key.issuer ≡ issuer
    pub same_issuer : v.issuer ≡ issuer
    pub is_active : key.status ≡ active
    pub started : key.validity.not_before_unix ≤ℤ now
    pub lasting : now <ℤ key.validity.not_after_unix
    pub signature : Bytes
    pub signed :
        c.verify_strict key.verifying_key
          (e.to_be_signed
            (expected_protected_header store.role v.key_id)
            (codes (external_aad store.role))
            v.payload)
          signature
        ≡ true

  check_key_lem :
      (issuer : String) (now : ℤ) (key : TrustedKey) {u : Unit}
      → check_key c e issuer now key ≡ ok u
      → (key.issuer ≡ issuer)
        × (key.status ≡ active)
        × (key.validity.not_before_unix ≤ℤ now)
        × (now <ℤ key.validity.not_after_unix)
  unfolding check_key
  check_key_lem issuer now key h = ground (arith, eq_iff key.issuer issuer)

  header_beq-eq : (a b : Header) → header_beq a b ≡ true → a ≡ b
  header_beq-eq a b h =
      ground (arith, list_beq_iff a.key_id b.key_id, eq_iff a.content_type b.content_type)

  check_signature_lem :
      (role : SigningRole) (key : TrustedKey) (s : CoseSign1) {u : Unit}
      → check_signature c e role key s ≡ ok u
      → c.verify_strict key.verifying_key
          (e.to_be_signed s.protected (codes (external_aad role)) (payload_or_empty c e s.payload))
          s.signature
        ≡ true
  unfolding check_signature
  check_signature_lem role key s h = ground arith

  pub verify_malformed :
      (store : RoleTrustStore) (encoded : Bytes) (issuer : String) (now : ℤ)
      → bad_issuer issuer ≡ false
      → e.from_tagged_slice encoded ≡ none
      → verify c e store encoded issuer now ≡ err (cose "malformed")
  unfolding verify validate_issuer
  verify_malformed store encoded issuer now named malformed = rw (named, malformed) refl

  -- Whatever `verify` accepts is authentic for the expected issuer at that time.
  pub verify-IsAuthentic :
      (store : RoleTrustStore) (encoded : Bytes) (issuer : String) (now : ℤ)
      {v : VerifiedCosePayload}
      → verify c e store encoded issuer now ≡ ok v
      → IsAuthentic store issuer now v
  unfolding verify
  verify-IsAuthentic store encoded issuer now {v} h =
      elim (Option-cases (e.from_tagged_slice encoded)) [
        | inl malformed ↦ absurd (ground arith)
        | inr (s, parsed) ↦ elim (Option-cases (lookup_key s.protected.key_id store.keys)) [
          | inl unknown ↦ absurd (ground arith)
          | inr (key, found) ↦ elim (Option-cases s.payload) [
            | inl missing ↦ absurd (ground arith)
            | inr (payload, present) ↦
                let checked = check_key_lem issuer now key {u = tt} (ground arith) in
                record {
                  key = key;
                  trusted = ground arith;
                  key_issuer = checked.0;
                  same_issuer = ground arith;
                  is_active = checked.1;
                  started = checked.2;
                  lasting = checked.3;
                  signature = s.signature;
                  signed = ground (
                    arith,
                    header_beq-eq s.protected
                        (expected_protected_header store.role s.protected.key_id),
                    check_signature_lem store.role key s {u = tt},
                  );
                }
          ]
        ]
      ]

  -- The store trusts the signer's key, for its role, and the key is usable at the time.
  pub record Trusts (store : RoleTrustStore) (signer : TypedSigner) (now : ℤ) : Type 0 where
    pub role : store.role ≡ signer.role
    pub derived : signer.key_id ≡ role_key_id c e signer.role (c.verifying_key signer.signing_key)
    pub named : bad_issuer signer.issuer ≡ false
    pub key : TrustedKey
    pub registered : lookup_key signer.key_id store.keys ≡ some key
    pub issuer : key.issuer ≡ signer.issuer
    pub public_key : key.verifying_key ≡ c.verifying_key signer.signing_key
    pub is_active : key.status ≡ active
    pub started : key.validity.not_before_unix ≤ℤ now
    pub lasting : now <ℤ key.validity.not_after_unix

  module _ (store : RoleTrustStore) (signer : TypedSigner) (now : ℤ)
      (t : Trusts store signer now) where
    check_key_ok : check_key c e signer.issuer now t.key ≡ ok tt
    unfolding check_key
    check_key_ok =
        ground
          (arith, eq_iff t.key.issuer signer.issuer, t.issuer, t.is_active, t.started, t.lasting)

    header_beq_refl : (h : Header) → header_beq h h ≡ true
    header_beq_refl h = ground (arith, ==-refl h.key_id, ==-refl h.content_type)

    abbrev header : Header
    header = expected_protected_header signer.role signer.key_id

    check_signature_ok :
        (payload : Bytes)
        → check_signature c e signer.role t.key (record {
          protected = header;
          unprotected = [];
          payload = some payload;
          signature =
              c.sign signer.signing_key
                (e.to_be_signed header (codes (external_aad signer.role)) payload);
        })
          ≡ ok tt
    unfolding check_signature
    check_signature_ok payload =
        let message : Bytes = e.to_be_signed header (codes (external_aad signer.role)) payload in
        rw t.public_key (
          ground (
            arith,
            c.length-sign signer.signing_key message,
            c.verify-sign signer.signing_key message,
          ))

    canonical_ok : (s : CoseSign1) → ensure_canonical_cose c e (e.to_tagged_vec s) s ≡ ok tt
    unfolding ensure_canonical_cose
    canonical_ok s = ground (arith, ==-refl (e.to_tagged_vec s))

    length_key_id : length signer.key_id ≡ 32
    length_key_id = rw t.derived (c.length-sha256 _)

    -- What a trusted signer signs, the store verifies: with its issuer, its key id and the payload.
    pub verify-sign_cose :
        (payload : Bytes)
        → verify c e store (sign_cose c e signer payload) signer.issuer now
          ≡ ok (record { issuer = signer.issuer; key_id = signer.key_id; payload = payload })
    unfolding verify sign_cose validate_issuer
    verify-sign_cose payload =
        let sign1 : CoseSign1 = record {
          protected = header;
          unprotected = [];
          payload = some payload;
          signature =
              c.sign signer.signing_key
                (e.to_be_signed header (codes (external_aad signer.role)) payload);
        } in
        ground (
          arith,
          t.named,
          e.from-to sign1,
          canonical_ok sign1,
          length_key_id,
          t.registered,
          check_key_ok,
          t.role,
          header_beq_refl header,
          check_signature_ok payload,
          t.issuer,
        )
