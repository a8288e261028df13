-- ===== src/Capability/V1.antt =====
-- crates/capability/src/lib.rs: V1 tokens, signed by a device and counted by the process that
-- validates them. The id and the time of `issue` are its arguments. The sum of a time and a lifetime
-- that chrono cannot represent, which panics, is not modelled.
mod Uses
mod Issued
mod Tests
use soverign_founder_os.Base.{
  ℕ, suc, ◌≡◌, String, Bool, true, false, not, ◌||◌, ◌&&◌, Option, some, none, List, [], ◌∷◌,
  Result, ok, err, reject, require_eq, map_err, ◌>>=◌, ◌>>◌, leb, Eq, ◌==◌, ◌!=◌, nat_eq, string_eq,
  if◌then◌else◌,
}
use soverign_founder_os.Base.Int.{ℤ, pos, ◌+ℤ◌, leb_ℤ}
use soverign_founder_os.Base.Text.{Bytes}
use soverign_founder_os.Contracts.{
  Uuid, DateTime, PolicyDecision, CapabilityToken, CapabilityTokenBody, token_body,
}
use soverign_founder_os.External.{Crypto}
use soverign_founder_os.Identity.Device.{DeviceIdentity, sign_legacy_v1, verify_legacy_v1}

pub data CapabilityError : Type 0 where
  policy_denied approval_required expired exhausted scope_mismatch : CapabilityError
  venture_mismatch actor_mismatch untrusted_issuer invalid_signature : CapabilityError
  invalid_lifetime invalid_use_limit : CapabilityError

pub record IssueOptions : Type 0 where
  pub ttl : ℤ
  pub max_uses : ℕ

pub record CapabilityIssuer : Type 0 where
  pub identity : DeviceIdentity

-- The counts of the uses, by token; the count of a token that is not listed is zero.
pub record CapabilityValidator : Type 0 where
  pub trusted_issuer_public_key_b64 : String
  pub uses : List (Uuid × ℕ)

pub record ValidationContext : Type 0 where
  pub venture_id : String
  pub actor_id : String
  pub tool : String
  pub operation : String
  pub resource : String
  pub now : DateTime

-- `CapabilityValidator::new`
abbrev pub new_validator : String → CapabilityValidator
new_validator trusted = record { trusted_issuer_public_key_b64 = trusted; uses = [] }

-- `entry(token_id).or_insert(0)`: the count that it reaches, and the map with another count there
abbrev pub uses_of : Uuid → List (Uuid × ℕ) → ℕ
uses_of id [] = 0
uses_of id ((k, n) ∷ uses) = let rest = uses_of id uses in if k == id then n else rest

abbrev pub set_uses : Uuid → ℕ → List (Uuid × ℕ) → List (Uuid × ℕ)
set_uses id n [] = (id, n) ∷ []
set_uses id n ((k, m) ∷ uses) =
    let rest = set_uses id n uses in if k == id then (k, n) ∷ uses else (k, m) ∷ rest

module _ (c : Crypto) (body_to_vec : CapabilityTokenBody → Bytes) where
  abbrev pub token_signing_bytes : CapabilityToken → Bytes
  token_signing_bytes token = body_to_vec (token_body token)

  -- the token before it is signed
  abbrev unsigned :
      CapabilityIssuer → DateTime → Uuid → PolicyDecision → IssueOptions → CapabilityToken
  unsigned issuer now token_id decision options = record {
    token_id = token_id;
    venture_id = decision.request.venture_id;
    actor_id = decision.request.actor_id;
    tool = decision.request.tool;
    operation = decision.request.operation;
    resource = decision.request.resource;
    max_uses = options.max_uses;
    issued_at = now;
    expires_at = now +ℤ options.ttl;
    policy_decision_id = decision.decision_id;
    issuer_public_key_b64 = issuer.identity.public_key_b64;
    signature_b64 = "";
  }

  pub issue :
      CapabilityIssuer
      → DateTime
      → Uuid
      → PolicyDecision
      → IssueOptions
      → Bool
      → Result CapabilityError CapabilityToken
  issue issuer now token_id decision options approved = do
    reject (not decision.allowed) policy_denied
    reject (decision.requires_approval && not approved) approval_required
    reject (leb_ℤ options.ttl (pos 0)) invalid_lifetime
    reject (options.max_uses == 0) invalid_use_limit
    let token = unsigned issuer now token_id decision options
    ok (record token {
      signature_b64 = sign_legacy_v1 c issuer.identity (token_signing_bytes token);
    })

  -- the checks of `validate` before it counts
  check_token :
      CapabilityToken → ValidationContext → CapabilityValidator → Result CapabilityError (Unit {0})
  check_token token context validator = do
    require_eq token.issuer_public_key_b64 validator.trusted_issuer_public_key_b64 untrusted_issuer
    map_err (λ _. invalid_signature)
        (verify_legacy_v1 c token.issuer_public_key_b64 (token_signing_bytes token)
          token.signature_b64)
    require_eq token.venture_id context.venture_id venture_mismatch
    require_eq token.actor_id context.actor_id actor_mismatch
    reject
        ((token.tool != context.tool)
          || (token.operation != context.operation)
          || (token.resource != context.resource))
        scope_mismatch
    reject (leb_ℤ token.expires_at context.now) expired

  -- the count, which stays in the map when the token is exhausted
  count_use :
      CapabilityToken
      → CapabilityValidator
      → ℕ
      → Bool
      → Result CapabilityError (Unit {0}) × CapabilityValidator
  count_use token validator count true =
      (err exhausted, record validator { uses = set_uses token.token_id count validator.uses })
  count_use token validator count false =
      (ok tt, record validator { uses = set_uses token.token_id (suc count) validator.uses })

  after_checks :
      CapabilityToken
      → CapabilityValidator
      → Result CapabilityError (Unit {0})
      → Result CapabilityError (Unit {0}) × CapabilityValidator
  after_checks token validator (err error) = (err error, validator)
  after_checks token validator (ok _) =
      let count = uses_of token.token_id validator.uses in
      count_use token validator count (leb token.max_uses count)

  pub validate :
      CapabilityToken
      → ValidationContext
      → CapabilityValidator
      → Result CapabilityError (Unit {0}) × CapabilityValidator
  validate token context validator =
      after_checks token validator (check_token token context validator)
