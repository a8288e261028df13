-- ===== src/Identity/Trust.antt =====
-- crates/identity/src/trust.rs and signer.rs: COSE_Sign1 objects signed for a role, and the store of
-- the keys that are trusted for it. `original_data`, the raw protected header that coset keeps beside
-- the parsed one, is not modelled: re-encoding drops it.
pub mod Verify
use soverign_founder_os.Base.{
  ℕ, ◌≡◌, String, Bool, true, false, not, ◌&&◌, Option, some, none, List, [], ◌∷◌, ◌++◌, Result, ok,
  err, reject, ok_or, ◌>>=◌, ◌>>◌, Eq, ◌==◌, ◌!=◌, nat_eq, string_eq, list_eq, length, is_empty,
  if◌then◌else◌, ltb,
}
use soverign_founder_os.Base.Int.{ℤ, ltb_ℤ, leb_ℤ}
use soverign_founder_os.Base.Text.{Bytes, codes}
use soverign_founder_os.External.{Crypto, Cose, CoseSign1, Header}
use soverign_founder_os.Identity.{
  IdentityError, invalid_key, invalid_validity, duplicate_key_id, unknown_key_id, issuer_mismatch,
  key_revoked, key_not_yet_valid, key_expired, invalid_protected_headers,
  unprotected_headers_forbidden, missing_payload, non_canonical_cose, verification_failed, cose,
  SigningRole, role_name, content_type, external_aad, validate_issuer,
}

pub data TrustStatus : Type 0 where
  active revoked : TrustStatus

pub record KeyValidity : Type 0 where
  pub not_before_unix : ℤ
  pub not_after_unix : ℤ

-- `KeyValidity::new`
pub new_validity : ℤ → ℤ → Result IdentityError KeyValidity
new_validity not_before_unix not_after_unix = do
  reject (leb_ℤ not_after_unix not_before_unix) invalid_validity
  ok (record { not_before_unix = not_before_unix; not_after_unix = not_after_unix })

pub record TrustedKey : Type 0 where
  pub issuer : String
  pub status : TrustStatus
  pub validity : KeyValidity
  pub verifying_key : Bytes

-- The map of a `RoleTrustStore`, from key ids; the role is its type parameter.
pub record RoleTrustStore : Type 0 where
  pub role : SigningRole
  pub keys : List (Bytes × TrustedKey)

abbrev pub lookup_key : Bytes → List (Bytes × TrustedKey) → Option TrustedKey
lookup_key key_id [] = none
lookup_key key_id ((k, t) ∷ keys) = if k == key_id then some t else lookup_key key_id keys

abbrev set_key : Bytes → TrustedKey → List (Bytes × TrustedKey) → List (Bytes × TrustedKey)
set_key key_id trusted [] = []
set_key key_id trusted ((k, t) ∷ keys) =
    if k == key_id then (k, trusted) ∷ keys else (k, t) ∷ set_key key_id trusted keys

pub record VerifiedCosePayload : Type 0 where
  pub issuer : String
  pub key_id : Bytes
  pub payload : Bytes

-- `TypedSigner`; its role is a type parameter in the source.
pub record TypedSigner : Type 0 where
  pub role : SigningRole
  pub issuer : String
  pub signing_key : Bytes
  pub key_id : Bytes

abbrev revoked_status : TrustStatus → Bool
revoked_status active = false
revoked_status revoked = true

-- `iana::Algorithm::EdDSA`, by its distance below zero
abbrev eddsa : ℕ
eddsa = 8

-- `expected_protected_header`
abbrev pub expected_protected_header : SigningRole → Bytes → Header
expected_protected_header role key_id = record {
  algorithm = eddsa;
  key_id = key_id;
  content_type = content_type role;
}

abbrev header_beq : Header → Header → Bool
header_beq a b =
    (a.algorithm == b.algorithm) && (a.key_id == b.key_id) && (a.content_type == b.content_type)

module _ (c : Crypto) (e : Cose) where
  -- `role_key_id`: the lengths are below 256, so the big-endian length is a zero and a byte
  abbrev pub role_key_id : SigningRole → Bytes → Bytes
  role_key_id role public_key = c.sha256 (
      codes "sovereign-founder-os\0key-id\0v1\0"
      ++ (0 ∷ length (codes (role_name role)) ∷ [])
      ++ codes (role_name role)
      ++ codes "\0ed25519\0"
      ++ public_key)

  -- `TypedSigner::from_signing_key`
  pub from_signing_key : SigningRole → Bytes → String → Result IdentityError TypedSigner
  from_signing_key role signing_key issuer = do
    validate_issuer issuer
    ok (record {
      role = role;
      issuer = issuer;
      signing_key = signing_key;
      key_id = role_key_id role (c.verifying_key signing_key);
    })

  unfoldable pub sign_cose : TypedSigner → Bytes → Bytes
  sign_cose signer payload =
      let protected = expected_protected_header signer.role signer.key_id in
      e.to_tagged_vec (record {
        protected = protected;
        unprotected = [];
        payload = some payload;
        signature =
            c.sign signer.signing_key
              (e.to_be_signed protected (codes (external_aad signer.role)) payload);
      })

  pub add_key :
      String → Bytes → KeyValidity → RoleTrustStore → Result IdentityError (Bytes × RoleTrustStore)
  add_key issuer public_key validity store = do
    validate_issuer issuer
    reject (not (c.is_key public_key)) (invalid_key "not a curve point")
    let key_id = role_key_id store.role public_key
    let trusted : TrustedKey = record {
      issuer = issuer;
      status = active;
      validity = validity;
      verifying_key = public_key;
    }
    elim (lookup_key key_id store.keys) [
      | some _ ↦ err duplicate_key_id
      | none ↦ ok (key_id, record store { keys = (key_id, trusted) ∷ store.keys })
    ]

  pub trust_signer :
      TypedSigner → KeyValidity → RoleTrustStore → Result IdentityError (Bytes × RoleTrustStore)
  unfolding add_key
  trust_signer signer validity store =
      add_key signer.issuer (c.verifying_key signer.signing_key) validity store

  pub set_status : Bytes → TrustStatus → RoleTrustStore → Result IdentityError RoleTrustStore
  set_status key_id status store = do
    trusted ← ok_or (lookup_key key_id store.keys) unknown_key_id
    ok (record store { keys = set_key key_id (record trusted { status = status }) store.keys })

  pub revoke : Bytes → RoleTrustStore → Result IdentityError RoleTrustStore
  unfolding set_status
  revoke key_id store = set_status key_id revoked store

  ensure_canonical_cose : Bytes → CoseSign1 → Result IdentityError (Unit {0})
  ensure_canonical_cose encoded sign1 = reject (e.to_tagged_vec sign1 != encoded) non_canonical_cose

  -- the checks of the key that the object names, at a time
  check_key : String → ℤ → TrustedKey → Result IdentityError (Unit {0})
  check_key expected_issuer now_unix trusted = do
    reject (trusted.issuer != expected_issuer) issuer_mismatch
    reject (revoked_status trusted.status) key_revoked
    reject (ltb_ℤ now_unix trusted.validity.not_before_unix) key_not_yet_valid
    reject (leb_ℤ trusted.validity.not_after_unix now_unix) key_expired

  -- `verify_signature` of coset hands an absent payload to the closure as the empty one
  abbrev payload_or_empty : Option Bytes → Bytes
  payload_or_empty none = []
  payload_or_empty (some payload) = payload

  check_signature : SigningRole → TrustedKey → CoseSign1 → Result IdentityError (Unit {0})
  check_signature role trusted sign1 = do
    reject (length sign1.signature != 64) verification_failed
    reject
        (not (
          c.verify_strict trusted.verifying_key
            (e.to_be_signed sign1.protected (codes (external_aad role))
              (payload_or_empty sign1.payload))
            sign1.signature))
        verification_failed

  pub verify : RoleTrustStore → Bytes → String → ℤ → Result IdentityError VerifiedCosePayload
  verify store encoded expected_issuer now_unix = do
    validate_issuer expected_issuer
    sign1 ← ok_or (e.from_tagged_slice encoded) (cose "malformed")
    ensure_canonical_cose encoded sign1
    reject (not (is_empty sign1.unprotected)) unprotected_headers_forbidden
    let key_id = sign1.protected.key_id
    reject (length key_id != 32) invalid_protected_headers
    trusted ← ok_or (lookup_key key_id store.keys) unknown_key_id
    check_key expected_issuer now_unix trusted
    reject (not (header_beq sign1.protected (expected_protected_header store.role key_id)))
        invalid_protected_headers
    check_signature store.role trusted sign1
    payload ← ok_or sign1.payload missing_payload
    ok (record { issuer = trusted.issuer; key_id = key_id; payload = payload })
