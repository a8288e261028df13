-- ===== src/Capability/V1/Uses.antt =====
-- The bound on the uses of V1 tokens, crates/capability/src/lib.rs.
use soverign_founder_os.Base.{
  ℕ, suc, ◌+◌, ◌≤◌, ◌≡◌, ◌≢◌, ◌⊎◌, refl, String, Bool, true, false, ◌&&◌, List, [], ◌∷◌, All,
  Result, ok, err, arith, leb, ◌==◌, nat_eq, is_ok, if◌then◌else◌,
}
use soverign_founder_os.Base.Text.{Bytes}
use soverign_founder_os.Contracts.{Uuid, CapabilityToken, CapabilityTokenBody}
use soverign_founder_os.External.{Crypto}
use soverign_founder_os.Capability.V1.{
  CapabilityError, CapabilityValidator, ValidationContext, new_validator, uses_of, set_uses,
  check_token, count_use, after_checks, validate,
}

uses_of-set_uses :
    (j k : Uuid) (n : ℕ) (uses : List (Uuid × ℕ))
    → uses_of j (set_uses k n uses) ≡ (if k == j then n else uses_of j uses)
uses_of-set_uses j k n [] = ground arith
uses_of-set_uses j k n ((i, m) ∷ uses) = ground (arith, uses_of-set_uses j k n uses)

module _ (c : Crypto) (body_to_vec : CapabilityTokenBody → Bytes) where
  -- A call of `validate`.
  pub record Use : Type 0 where
    pub token : CapabilityToken
    pub context : ValidationContext

  -- One, where the call accepts a token of that id.
  abbrev hit : Uuid → CapabilityToken → Result CapabilityError (Unit {0}) → ℕ
  hit id token r = if is_ok r && (token.token_id == id) then 1 else 0

  -- How many of the calls accept a token of that id.
  pub accepted : Uuid → List Use → CapabilityValidator → ℕ
  accepted id [] validator = 0
  accepted id (call ∷ uses) validator =
      hit id call.token (validate c body_to_vec call.token call.context validator).0
      + accepted id uses (validate c body_to_vec call.token call.context validator).1

  -- The call is of another token, or of one for at most `limit` uses.
  abbrev pub IsLimited : Uuid → ℕ → Use → Type 0
  IsLimited id limit call = (call.token.token_id ≢ id) ⊎ (call.token.max_uses ≤ limit)

  counted :
      (id : Uuid) (limit : ℕ) (token : CapabilityToken) (validator : CapabilityValidator)
      (checks : Result CapabilityError (Unit {0}))
      → uses_of id validator.uses ≤ limit
      → (token.token_id ≢ id) ⊎ (token.max_uses ≤ limit)
      → let (r, after) = after_checks c body_to_vec token validator checks in
        (hit id token r + uses_of id validator.uses ≡ uses_of id after.uses)
        × (uses_of id after.uses ≤ limit)
  unfolding after_checks count_use
  counted id limit token validator (err error) below limited = (ground arith, below)
  counted id limit token validator (ok _) below limited =
      spent (leb token.max_uses (uses_of token.token_id validator.uses)) refl
    where
      spent :
          (b : Bool)
          → leb token.max_uses (uses_of token.token_id validator.uses) ≡ b
          → let (r, after) =
              count_use c body_to_vec token validator (uses_of token.token_id validator.uses) b in
            (hit id token r + uses_of id validator.uses ≡ uses_of id after.uses)
            × (uses_of id after.uses ≤ limit)
      spent true e = ground (
        arith,
        uses_of-set_uses id token.token_id (uses_of token.token_id validator.uses) validator.uses,
      )
      spent false e = ground (
        arith,
        uses_of-set_uses id token.token_id (suc (uses_of token.token_id validator.uses))
            validator.uses,
      )

  accepted_below :
      (id : Uuid) (limit : ℕ) (uses : List Use) (validator : CapabilityValidator)
      → uses_of id validator.uses ≤ limit
      → All (IsLimited id limit) uses
      → accepted id uses validator + uses_of id validator.uses ≤ limit
  unfolding accepted validate
  accepted_below id limit [] validator below limited = omega (arith, below)
  accepted_below id limit (call ∷ uses) validator below limited =
      let checks = check_token c body_to_vec call.token call.context validator in
      let (count, still) = counted id limit call.token validator checks below limited.0 in
      let after = (after_checks c body_to_vec call.token validator checks).1 in
      omega (arith, count, accepted_below id limit uses after still limited.1)

  -- However a validator is called, it accepts a token id at most as often as the tokens of that id
  -- allow: if each that is presented is for at most `limit` uses, at most `limit` calls succeed.
  pub accepted_limit :
      (id : Uuid) (limit : ℕ) (trusted : String) (uses : List Use)
      → All (IsLimited id limit) uses
      → accepted id uses (new_validator trusted) ≤ limit
  accepted_limit id limit trusted uses limited =
      omega (arith, accepted_below id limit uses (new_validator trusted) (ground arith) limited)
