-- ===== src/External/Toy.antt =====
-- A concrete `Crypto` and `Cose`, which show that the laws can hold. Nothing here is secure.
pub mod Text
pub mod Fields
use Prim.Native.String.{◌++◌ as str_append}
use soverign_founder_os.Base.{
  ℕ, zero, suc, ◌+◌, ◌≡◌, refl, ap, ◌∙◌, String, Bool, true, Option, some, none, List, [], ◌∷◌,
  ◌++◌, length, length-append, arith, ◌==◌, nat_eq, list_eq, ==-refl, if◌then◌else◌,
}
use soverign_founder_os.Base.Text.{Bytes, codes, codes-append}
use soverign_founder_os.External.{Crypto, Header, CoseSign1, Cose}
use soverign_founder_os.External.Toy.Text.{of_codes, of_codes-codes}

-- The first `n` bytes, padded with zeros.
abbrev fixed : ℕ → Bytes → Bytes
fixed zero b = []
fixed (suc n) [] = 0 ∷ fixed n []
fixed (suc n) (x ∷ b) = x ∷ fixed n b

pub length-fixed : (n : ℕ) (b : Bytes) → length (fixed n b) ≡ n
length-fixed zero b = refl
length-fixed (suc n) [] = omega (arith, length-fixed n [])
length-fixed (suc n) (x ∷ b) = omega (arith, length-fixed n b)

-- a number as so many strokes and a dot
abbrev strokes : ℕ → String → String
strokes zero s = str_append "." s
strokes (suc n) s = str_append "1" (strokes n s)

abbrev text_of : Bytes → String
text_of [] = ""
text_of (n ∷ b) = strokes n (text_of b)

abbrev read_strokes : ℕ → List ℕ → Bytes
read_strokes n [] = []
read_strokes n (x ∷ xs) =
    let dot = n ∷ read_strokes 0 xs in
    let stroke = read_strokes (suc n) xs in if x == 46 then dot else stroke

read_strokes-strokes :
    (m n : ℕ) (s : String)
    → read_strokes m (codes (strokes n s)) ≡ (n + m) ∷ read_strokes 0 (codes s)
read_strokes-strokes m zero s = rw (codes-append "." s) (ground arith)
read_strokes-strokes m (suc n) s =
    rw (codes-append "1" (strokes n s)) (ground (arith, read_strokes-strokes (suc m) n s))

pub read_text_of : (b : Bytes) → read_strokes 0 (codes (text_of b)) ≡ b
read_text_of [] = refl
read_text_of (n ∷ b) = ground (arith, read_strokes-strokes 0 n (text_of b), read_text_of b)

pub length-sign_toy : (secret message : Bytes) → length (fixed 32 secret ++ fixed 32 message) ≡ 64
length-sign_toy secret message = omega (
  arith,
  length-append (fixed 32 secret) (fixed 32 message),
  length-fixed 32 secret,
  length-fixed 32 message,
)

-- The digest is the first bytes, a signature is the secret key and the first bytes of the message.
abbrev pub toy_crypto : Crypto
toy_crypto = record {
  sha256 = fixed 32;
  hex_encode = text_of;
  base64_encode = text_of;
  base64_decode = λ s. some (read_strokes 0 (codes s));
  verifying_key = fixed 32;
  is_key = λ b. true;
  sign = λ secret message. fixed 32 secret ++ fixed 32 message;
  verify_strict = λ key message signature. signature == key ++ fixed 32 message;
  length-sha256 = length-fixed 32;
  decode-encode = λ b. ap some (read_text_of b);
  length-verifying_key = length-fixed 32;
  is_key-verifying_key = λ secret. refl;
  length-sign = length-sign_toy;
  verify-sign = λ secret message. ==-refl (fixed 32 secret ++ fixed 32 message);
}

-- bytes after their number
abbrev pub put : Bytes → Bytes → Bytes
put b rest = length b ∷ (b ++ rest)

abbrev pub split : ℕ → Bytes → Bytes × Bytes
split zero b = ([], b)
split (suc n) [] = ([], [])
split (suc n) (x ∷ b) = let (front, rest) = split n b in (x ∷ front, rest)

abbrev pub get : Bytes → Bytes × Bytes
get [] = ([], [])
get (n ∷ b) = split n b

split-append : (b rest : Bytes) → split (length b) (b ++ rest) ≡ (b, rest)
split-append [] rest = refl
split-append (x ∷ b) rest = rw (split-append b rest) refl

abbrev pub put_all : List Bytes → Bytes → Bytes
put_all [] rest = rest
put_all (b ∷ bs) rest = put b (put_all bs rest)

abbrev pub get_all : ℕ → Bytes → List Bytes × Bytes
get_all zero b = ([], b)
get_all (suc n) b =
    let (first, rest) = get b in let (others, last) = get_all n rest in (first ∷ others, last)

pub get_all-put_all :
    (bs : List Bytes) (rest : Bytes) → get_all (length bs) (put_all bs rest) ≡ (bs, rest)
get_all-put_all [] rest = refl
get_all-put_all (b ∷ bs) rest = rw (split-append b (put_all bs rest), get_all-put_all bs rest) refl

abbrev put_payload : Option Bytes → Bytes → Bytes
put_payload none rest = 0 ∷ rest
put_payload (some b) rest = 1 ∷ put b rest

abbrev get_payload : Bytes → Option Bytes × Bytes
get_payload [] = (none, [])
get_payload (zero ∷ rest) = (none, rest)
get_payload (suc _ ∷ b) = let (payload, rest) = get b in (some payload, rest)

get_payload-put_payload :
    (p : Option Bytes) (rest : Bytes) → get_payload (put_payload p rest) ≡ (p, rest)
get_payload-put_payload none rest = refl
get_payload-put_payload (some b) rest = rw (split-append b rest) refl

abbrev write_cose : CoseSign1 → Bytes
write_cose s =
    s.protected.algorithm
    ∷ put s.protected.key_id (
        put (codes s.protected.content_type)
          (length s.unprotected ∷ put_all s.unprotected (put_payload s.payload s.signature)))

abbrev made : ℕ → Bytes → Bytes → List Bytes → Option Bytes × Bytes → Option CoseSign1
made algorithm key_id text unprotected (payload, signature) = some (record {
  protected = record { algorithm = algorithm; key_id = key_id; content_type = of_codes text };
  unprotected = unprotected;
  payload = payload;
  signature = signature;
})

abbrev read_payload : ℕ → Bytes → Bytes → List Bytes × Bytes → Option CoseSign1
read_payload algorithm key_id text (unprotected, b) =
    made algorithm key_id text unprotected (get_payload b)

abbrev read_headers : ℕ → Bytes → Bytes × Bytes → Option CoseSign1
read_headers algorithm key_id (text, []) = none
read_headers algorithm key_id (text, n ∷ b) = read_payload algorithm key_id text (get_all n b)

abbrev read_parts : ℕ → Bytes × Bytes → Option CoseSign1
read_parts algorithm (key_id, rest) = read_headers algorithm key_id (get rest)

abbrev read_cose : Bytes → Option CoseSign1
read_cose [] = none
read_cose (algorithm ∷ b) = read_parts algorithm (get b)

pub read-write_cose : (s : CoseSign1) → read_cose (write_cose s) ≡ some s
read-write_cose s =
    let text = codes s.protected.content_type in
    ap (read_parts s.protected.algorithm) (split-append s.protected.key_id _)
    ∙ ap (read_headers s.protected.algorithm s.protected.key_id) (split-append text _)
    ∙ ap (read_payload s.protected.algorithm s.protected.key_id text)
        (get_all-put_all s.unprotected _)
    ∙ ap (made s.protected.algorithm s.protected.key_id text s.unprotected)
        (get_payload-put_payload s.payload s.signature)
    ∙ ap
        (λ (t : String). some (record s {
          protected = record {
            algorithm = s.protected.algorithm;
            key_id = s.protected.key_id;
            content_type = t;
          };
        }))
        (of_codes-codes s.protected.content_type)

abbrev pub toy_cose : Cose
toy_cose = record {
  to_tagged_vec = write_cose;
  from_tagged_slice = read_cose;
  to_be_signed = λ header external payload. payload ++ external ++ header.key_id;
  from-to = read-write_cose;
}
