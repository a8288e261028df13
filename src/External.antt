-- ===== src/External.antt =====
-- What the program takes from other crates: sha2, hex, base64, ed25519-dalek and coset. Each is a
-- parameter of the models that call it, with the documented behaviour that they rely on as laws.
pub mod Toy
use soverign_founder_os.Base.{ℕ, ◌≡◌, String, Bool, true, Option, some, List, length}
use soverign_founder_os.Base.Text.{Bytes}

pub record Crypto : Type 0 where
  -- sha2, hex
  pub sha256 : Bytes → Bytes
  pub hex_encode : Bytes → String
  -- base64, the engine `STANDARD`
  pub base64_encode : Bytes → String
  pub base64_decode : String → Option Bytes
  -- ed25519-dalek: the public key of a secret key, whether bytes are a key, signing, strict checks
  pub verifying_key : Bytes → Bytes
  pub is_key : Bytes → Bool
  pub sign : Bytes → Bytes → Bytes
  pub verify_strict : Bytes → Bytes → Bytes → Bool
  pub length-sha256 : (b : Bytes) → length (sha256 b) ≡ 32
  pub decode-encode : (b : Bytes) → base64_decode (base64_encode b) ≡ some b
  pub length-verifying_key : (secret : Bytes) → length (verifying_key secret) ≡ 32
  pub is_key-verifying_key : (secret : Bytes) → is_key (verifying_key secret) ≡ true
  pub length-sign : (secret message : Bytes) → length (sign secret message) ≡ 64
  pub verify-sign :
      (secret message : Bytes)
      → verify_strict (verifying_key secret) message (sign secret message) ≡ true

-- coset: the header and the object that the program builds and reads
pub record Header : Type 0 where
  pub algorithm : ℕ
  pub key_id : Bytes
  pub content_type : String

pub record CoseSign1 : Type 0 where
  pub protected : Header
  pub unprotected : List Bytes
  pub payload : Option Bytes
  pub signature : Bytes

pub record Cose : Type 0 where
  pub to_tagged_vec : CoseSign1 → Bytes
  pub from_tagged_slice : Bytes → Option CoseSign1
  -- the `Sig_structure` of a header, external data and a payload
  pub to_be_signed : Header → Bytes → Bytes → Bytes
  pub from-to : (s : CoseSign1) → from_tagged_slice (to_tagged_vec s) ≡ some s
