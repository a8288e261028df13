-- ===== src/Identity/Toy.antt =====
-- A device, a signer and a store that trusts it, for the witnesses.
use soverign_founder_os.Base.{ℕ, ◌<◌, ◌≡◌, refl, some, [], ◌∷◌, arith}
use soverign_founder_os.Base.Int.{pos}
use soverign_founder_os.Base.Text.{Bytes}
use soverign_founder_os.External.Toy.{toy_crypto, toy_cose}
use soverign_founder_os.Identity.{SigningRole}
use soverign_founder_os.Identity.Device.{DeviceIdentity}
use soverign_founder_os.Identity.Trust.{
  TypedSigner, RoleTrustStore, TrustedKey, active, role_key_id,
}
use soverign_founder_os.Identity.Trust.Verify.{Trusts}

abbrev pub toy_device : DeviceIdentity
toy_device = record {
  device_id = "device";
  public_key_b64 = toy_crypto.base64_encode (toy_crypto.verifying_key (1 ∷ []));
  signing_key = 1 ∷ [];
}

abbrev pub toy_signer : SigningRole → TypedSigner
toy_signer role = record {
  role = role;
  issuer = "issuer";
  signing_key = 1 ∷ [];
  key_id = role_key_id toy_crypto toy_cose role (toy_crypto.verifying_key (1 ∷ []));
}

abbrev pub toy_key : TrustedKey
toy_key = record {
  issuer = "issuer";
  status = active;
  validity = record { not_before_unix = pos 0; not_after_unix = pos 1000 };
  verifying_key = toy_crypto.verifying_key (1 ∷ []);
}

abbrev pub toy_store : SigningRole → RoleTrustStore
toy_store role = record { role = role; keys = ((toy_signer role).key_id, toy_key) ∷ [] }

pub toy-Trusts :
    (role : SigningRole) (now : ℕ)
    → now < 1000
    → Trusts toy_crypto toy_cose (toy_store role) (toy_signer role) (pos now)
unfolding soverign_founder_os.Base.Text.trim
toy-Trusts r now early = record {
  role = refl;
  derived = refl;
  named = refl;
  key = toy_key;
  registered = refl;
  issuer = refl;
  public_key = refl;
  is_active = refl;
  started = ground arith;
  lasting = ground arith;
}
