-- ===== src/Identity/Device.antt =====
-- crates/identity/src/device.rs: the device key and its raw V1 signatures.
use soverign_founder_os.Base.{
  ℕ, ◌≡◌, String, not, Result, ok, reject, ok_or, ◌>>=◌, ◌>>◌, ◌!=◌, nat_eq, string_eq, length,
  arith, ==-refl,
}
use soverign_founder_os.Base.Text.{Bytes}
use soverign_founder_os.External.{Crypto}
use soverign_founder_os.Identity.{IdentityError, invalid_key, verification_failed}

pub record DeviceIdentity : Type 0 where
  pub device_id : String
  pub public_key_b64 : String
  pub signing_key : Bytes

module _ (c : Crypto) where
  -- the bytes that the canonical padded Base64 text stands for, if there are `n` of them
  abbrev decode_exactly : ℕ → String → String → Result IdentityError Bytes
  decode_exactly n text what = do
    bytes ← ok_or (c.base64_decode text) (invalid_key "invalid base64")
    reject (length bytes != n) (invalid_key what)
    reject (c.base64_encode bytes != text) (invalid_key "canonical padded Base64")
    ok bytes

  decode_verifying_key : String → Result IdentityError Bytes
  decode_verifying_key text = do
    bytes ← decode_exactly 32 text "expected 32-byte public key"
    reject (not (c.is_key bytes)) (invalid_key "not a curve point")
    ok bytes

  decode_legacy_signature : String → Result IdentityError Bytes
  decode_legacy_signature text = decode_exactly 64 text "expected 64-byte signature"

  unfoldable pub sign_legacy_v1 : DeviceIdentity → Bytes → String
  sign_legacy_v1 device message = c.base64_encode (c.sign device.signing_key message)

  pub verify_legacy_v1 : String → Bytes → String → Result IdentityError (Unit {0})
  unfolding decode_verifying_key decode_legacy_signature
  verify_legacy_v1 public_key_b64 message signature_b64 = do
    verifying_key ← decode_verifying_key public_key_b64
    signature ← decode_legacy_signature signature_b64
    reject (not (c.verify_strict verifying_key message signature)) verification_failed

  -- `DeviceIdentity::from_signing_key` derives both texts from the key; `load` refuses a device whose
  -- stored texts differ.
  abbrev pub IsDevice : DeviceIdentity → Type 0
  IsDevice device = device.public_key_b64 ≡ c.base64_encode (c.verifying_key device.signing_key)

  -- What a device signs verifies under its own public key.
  pub verify-sign_legacy_v1 :
      (device : DeviceIdentity) (message : Bytes)
      → IsDevice device
      → verify_legacy_v1 device.public_key_b64 message (sign_legacy_v1 device message) ≡ ok tt
  unfolding verify_legacy_v1 sign_legacy_v1
  verify-sign_legacy_v1 device message h = rw h (
      ground (
        arith,
        c.decode-encode (c.verifying_key device.signing_key),
        c.decode-encode (c.sign device.signing_key message),
        c.length-verifying_key device.signing_key,
        c.length-sign device.signing_key message,
        c.is_key-verifying_key device.signing_key,
        c.verify-sign device.signing_key message,
        ==-refl (c.base64_encode (c.verifying_key device.signing_key)),
        ==-refl (c.base64_encode (c.sign device.signing_key message)),
      ))
