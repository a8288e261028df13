-- ===== src/Capability/Validator/OneUse/Runs.antt =====
-- Calls of `authorize_and_consume_approved` in a row, crates/capability/src/v2.rs.
use soverign_founder_os.Base.{
  ◌≡◌, ◌≢◌, sym, Bool, Option, some, none, List, [], ◌∷◌, Result, ok, arith, nat_eq,
}
use soverign_founder_os.Base.Int.{ℤ}
use soverign_founder_os.Base.Text.{Bytes}
use soverign_founder_os.Contracts.{Uuid}
use soverign_founder_os.External.{Crypto, Cose}
use soverign_founder_os.Authority.{ClaimIo, Formats}
use soverign_founder_os.Capability.Errors.{CapabilityV2Error}
use soverign_founder_os.Capability.Claims.{ApprovalEvidenceV2, CapabilityClaimsV2, Jcs}
use soverign_founder_os.Capability.Validator.{
  CapabilityValidatorV2, CapabilityV2ValidationContext, authorize, authorize_and_consume_approved,
}
use soverign_founder_os.Capability.Validator.Bound.{IsAnswered, IsAnswered-some}
use soverign_founder_os.Capability.Validator.Bound.Authorized.{authorize-IsAuthorized}
use soverign_founder_os.Capability.Validator.OneUse.{
  IsSpent, Remembers, Outcome, refused, accepted, outcome, accepted-Remembers, Remembers-keeps,
}

module _ (f : Formats) where
  module _ (c : Crypto) (e : Cose) (j : Jcs) where
    -- The arguments of one call.
    pub record Call : Type 0 where
      pub io : ClaimIo × ClaimIo × ClaimIo
      pub now_unix : ℤ
      pub token : Bytes
      pub context : CapabilityV2ValidationContext
      pub approval : Option Bytes

    abbrev pub answer : Call → CapabilityValidatorV2 → Result CapabilityV2Error CapabilityClaimsV2
    answer call validator =
        (authorize_and_consume_approved f c e j call.io call.now_unix validator call.token
          call.context call.approval).0

    abbrev pub after_call : Call → CapabilityValidatorV2 → CapabilityValidatorV2
    after_call call validator =
        (authorize_and_consume_approved f c e j call.io call.now_unix validator call.token
          call.context call.approval).1

    unfoldable pub after_calls : List Call → CapabilityValidatorV2 → CapabilityValidatorV2
    after_calls [] validator = validator
    after_calls (call ∷ calls) validator = after_calls calls (after_call call validator)

    Remembers-all :
        (calls : List Call) (validator : CapabilityValidatorV2) (claims : CapabilityClaimsV2)
        → Remembers validator claims
        → Remembers (after_calls calls validator) claims
    unfolding after_calls
    Remembers-all [] validator claims m = m
    Remembers-all (call ∷ calls) validator claims m =
        Remembers-all calls (after_call call validator) claims (
          Remembers-keeps f c e j call.io call.now_unix validator call.token call.context
            call.approval claims m)

    -- Not the same approval, where both have one.
    abbrev pub IsDistinct : Option ApprovalEvidenceV2 → Option ApprovalEvidenceV2 → Type 0
    IsDistinct (some first) (some second) = first.approval_id ≢ second.approval_id
    IsDistinct _ _ = Unit

    distinct :
        (validator : CapabilityValidatorV2) (context : CapabilityV2ValidationContext) (now : ℤ)
        (required : Bool) (first second : Option ApprovalEvidenceV2) (id : Option Uuid)
        → IsSpent first validator.consumed_approvals
        → IsAnswered c e j validator context now required second id
        → IsDistinct first second
    unfolding IsSpent
    distinct validator context now required none second id spent answered = tt
    distinct validator context now required (some first) none id spent answered = tt
    distinct validator context now required (some first) (some second) id spent answered =
        let fresh =
          (IsAnswered-some c e j validator context now required second id answered).1.unused in
        λ same. ground (arith, spent, fresh)

    IsDistinct-claims :
        (call : Call) (validator : CapabilityValidatorV2) {first second : CapabilityClaimsV2}
        → Remembers validator first
        → answer call validator ≡ ok second
        → (second.token_id ≢ first.token_id)
          × (second.idempotency_key ≢ first.idempotency_key)
          × IsDistinct first.approval_evidence second.approval_evidence
    unfolding authorize_and_consume_approved
    IsDistinct-claims call validator {first} {second} m = from (
        outcome f call.io call.now_unix validator
          (authorize c e j validator call.now_unix call.token call.context call.approval))
      where
        from :
            {r : Result CapabilityV2Error CapabilityClaimsV2} {after : CapabilityValidatorV2}
            → Outcome validator
                (authorize c e j validator call.now_unix call.token call.context call.approval)
                r
                after
            → r ≡ ok second
            → (second.token_id ≢ first.token_id)
              × (second.idempotency_key ≢ first.idempotency_key)
              × IsDistinct first.approval_evidence second.approval_evidence
        from (refused _ store) h = absurd (ground arith)
        from (accepted claims id fingerprint store authorized) h =
            let good =
              authorize-IsAuthorized c e j validator call.now_unix call.token call.context
                call.approval authorized in
            let same : claims ≡ second = ground arith in
            rw (sym same) (
              (λ t. ground (arith, m.token, good.unused)),
              (λ k. ground (arith, m.key, good.unbound)),
              distinct validator call.context call.now_unix
                  call.context.policy_decision.requires_approval first.approval_evidence
                  claims.approval_evidence id m.approval good.answered,
            )

    -- However many calls, of any kind and outcome, stand between two accepted ones, the two consume
    -- different tokens, under different idempotency keys, and never the same approval.
    pub one_use :
        (validator : CapabilityValidatorV2) (first : Call) (between : List Call) (second : Call)
        {spent claims : CapabilityClaimsV2}
        → answer first validator ≡ ok spent
        → answer second (after_calls between (after_call first validator)) ≡ ok claims
        → (claims.token_id ≢ spent.token_id)
          × (claims.idempotency_key ≢ spent.idempotency_key)
          × IsDistinct spent.approval_evidence claims.approval_evidence
    one_use validator first between second {spent} h =
        IsDistinct-claims second (after_calls between (after_call first validator)) (
          Remembers-all between (after_call first validator) spent (
            accepted-Remembers f c e j first.io first.now_unix validator first.token first.context
              first.approval h))
