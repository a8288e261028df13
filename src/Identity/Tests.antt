-- ===== src/Identity/Tests.antt =====
-- The theorems on crates/identity at a concrete device, signer and store.
use soverign_founder_os.Base.{◌≡◌, refl, [], ◌∷◌, ok, arith}
use soverign_founder_os.Base.Int.{pos}
use soverign_founder_os.External.Toy.{toy_crypto, toy_cose}
use soverign_founder_os.Identity.{authority}
use soverign_founder_os.Identity.Device.{sign_legacy_v1, verify_legacy_v1, verify-sign_legacy_v1}
use soverign_founder_os.Identity.Trust.{sign_cose, verify}
use soverign_founder_os.Identity.Trust.Verify.{IsAuthentic, verify-IsAuthentic, verify-sign_cose}
use soverign_founder_os.Identity.Toy.{toy_device, toy_signer, toy_store, toy-Trusts}

verify-sign_legacy_v1_example :
    verify_legacy_v1 toy_crypto toy_device.public_key_b64
      (7 ∷ [])
      (sign_legacy_v1 toy_crypto toy_device (7 ∷ []))
    ≡ ok tt
verify-sign_legacy_v1_example = verify-sign_legacy_v1 toy_crypto toy_device (7 ∷ []) refl

verify-sign_cose_example :
    verify toy_crypto toy_cose
      (toy_store authority)
      (sign_cose toy_crypto toy_cose (toy_signer authority) (7 ∷ []))
      "issuer"
      (pos 5)
    ≡ ok (record { issuer = "issuer"; key_id = (toy_signer authority).key_id; payload = 7 ∷ [] })
verify-sign_cose_example =
    verify-sign_cose toy_crypto toy_cose (toy_store authority) (toy_signer authority) (pos 5)
      (toy-Trusts authority 5 (ground arith)) (7 ∷ [])

verify-IsAuthentic_example :
    IsAuthentic toy_crypto toy_cose
      (toy_store authority)
      "issuer"
      (pos 5)
      (record { issuer = "issuer"; key_id = (toy_signer authority).key_id; payload = 7 ∷ [] })
verify-IsAuthentic_example =
    verify-IsAuthentic toy_crypto toy_cose (toy_store authority)
      (sign_cose toy_crypto toy_cose (toy_signer authority) (7 ∷ [])) "issuer" (pos 5)
      (verify-sign_cose toy_crypto toy_cose (toy_store authority) (toy_signer authority) (pos 5)
        (toy-Trusts authority 5 (ground arith)) (7 ∷ []))
