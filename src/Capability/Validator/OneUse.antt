-- ===== src/Capability/Validator/OneUse.antt =====
-- The bookkeeping of `authorize_and_consume_inner` of crates/capability/src/v2.rs over many calls.
pub mod Runs
use soverign_founder_os.Base.{
  ℕ, ◌≡◌, ◌≢◌, ◌⊎◌, refl, ap, sym, String, Bool, true, false, ◌||◌, Option, some, none, List, [],
  ◌∷◌, Result, ok, err, arith, any, Eq, ◌==◌, nat_eq, ==-refl, inl, inr, if◌then◌else◌,
}
use soverign_founder_os.Base.Int.{ℤ}
use soverign_founder_os.Base.Text.{Bytes}
use soverign_founder_os.Contracts.{Uuid}
use soverign_founder_os.External.{Crypto, Cose}
use soverign_founder_os.Authority.{AuthorityStore, ClaimIo, Formats}
use soverign_founder_os.Artifact.{Digest}
use soverign_founder_os.Capability.Errors.{CapabilityV2Error}
use soverign_founder_os.Capability.Claims.{ApprovalEvidenceV2, CapabilityClaimsV2, Jcs}
use soverign_founder_os.Capability.Validator.{
  CapabilityValidatorV2, CapabilityV2ValidationContext, contains_uuid, lookup_fingerprint,
  authorize, consume, consume_durably, finish, and_consume, durable_claims, insert_approval,
  authorize_and_consume_approved,
}
use soverign_founder_os.Capability.Validator.Bound.{IsAnswered, IsAnswered-some}
use soverign_founder_os.Capability.Validator.Bound.Authorized.{IsAuthorized, authorize-IsAuthorized}

-- What the process remembers.
abbrev pub memory : CapabilityValidatorV2 → List Uuid × List (Uuid × Digest) × List Uuid
memory validator = (validator.consumed_tokens, validator.idempotency, validator.consumed_approvals)

-- What the claims stand for is spent: the token, its key, and the approval behind it.
pub IsSpent : Option ApprovalEvidenceV2 → List Uuid → Type 0
IsSpent none ids = Unit
IsSpent (some evidence) ids = contains_uuid evidence.approval_id ids ≡ true

pub record Remembers (validator : CapabilityValidatorV2) (claims : CapabilityClaimsV2)
    : Type 0 where
  pub token : contains_uuid claims.token_id validator.consumed_tokens ≡ true
  pub key : lookup_fingerprint claims.idempotency_key validator.idempotency ≢ none
  pub approval : IsSpent claims.approval_evidence validator.consumed_approvals

IsSpent-insert :
    (evidence : Option ApprovalEvidenceV2) (id : Option Uuid) (ids : List Uuid)
    → IsSpent evidence ids
    → IsSpent evidence (insert_approval id ids)
unfolding IsSpent
IsSpent-insert none id ids h = tt
IsSpent-insert (some evidence) none ids h = h
IsSpent-insert (some evidence) (some id) ids h = ground (arith, h)

Remembers-consume :
    (validator : CapabilityValidatorV2) (claims new : CapabilityClaimsV2) (id : Option Uuid)
    (fingerprint : Digest)
    → Remembers validator claims
    → Remembers (consume new id fingerprint validator) claims
Remembers-consume validator claims new id fingerprint m = record {
  token = ground (arith, m.token);
  key = ground (arith, m.key);
  approval = IsSpent-insert claims.approval_evidence id validator.consumed_approvals m.approval;
}

-- A call's outcome: an error and the same memory, or the authorized claims and them remembered.
data Outcome (validator : CapabilityValidatorV2)
    (authorized : Result CapabilityV2Error (CapabilityClaimsV2 × Option Uuid × Digest))
    : Result CapabilityV2Error CapabilityClaimsV2 → CapabilityValidatorV2 → Type 0 where
  refused :
      (error : CapabilityV2Error) (store : Option AuthorityStore)
      → Outcome validator authorized (err error) (record validator { authority_store = store })
  accepted :
      (claims : CapabilityClaimsV2) (id : Option Uuid) (fingerprint : Digest)
      (store : Option AuthorityStore)
      → authorized ≡ ok (claims, id, fingerprint)
      → Outcome validator authorized
          (ok claims)
          (consume claims id fingerprint (record validator { authority_store = store }))

module _ (f : Formats) where
  finish_outcome :
      (validator : CapabilityValidatorV2) (claims : CapabilityClaimsV2) (id : Option Uuid)
      (fingerprint : Digest) (durable : Result CapabilityV2Error (Unit {0}) × AuthorityStore)
      → Outcome validator
          (ok (claims, id, fingerprint))
          (finish f claims id fingerprint validator durable).0
          (finish f claims id fingerprint validator durable).1
  unfolding finish
  finish_outcome validator claims id fingerprint (err error, store) = refused error (some store)
  finish_outcome validator claims id fingerprint (ok _, store) =
      accepted claims id fingerprint (some store) refl

  consume_outcome :
      (io : ClaimIo × ClaimIo × ClaimIo) (now : ℤ) (validator : CapabilityValidatorV2)
      (authority : Option AuthorityStore) (claims : CapabilityClaimsV2) (id : Option Uuid)
      (fingerprint : Digest)
      → Outcome validator
          (ok (claims, id, fingerprint))
          (consume_durably f io now validator authority (claims, id, fingerprint)).0
          (consume_durably f io now validator authority (claims, id, fingerprint)).1
  unfolding consume_durably
  consume_outcome io now validator none claims id fingerprint =
      accepted claims id fingerprint validator.authority_store refl
  consume_outcome io now validator (some store) claims id fingerprint =
      finish_outcome validator claims id fingerprint
        (durable_claims f io claims id fingerprint now store)

  outcome :
      (io : ClaimIo × ClaimIo × ClaimIo) (now : ℤ) (validator : CapabilityValidatorV2)
      (authorized : Result CapabilityV2Error (CapabilityClaimsV2 × Option Uuid × Digest))
      → Outcome validator authorized
          (and_consume f io now validator authorized).0
          (and_consume f io now validator authorized).1
  unfolding and_consume
  outcome io now validator (err error) = refused error validator.authority_store
  outcome io now validator (ok (claims, id, fingerprint)) =
      consume_outcome io now validator validator.authority_store claims id fingerprint

  module _ (c : Crypto) (e : Cose) (j : Jcs) where
    -- A call that answers an error leaves what the process remembers as it was: the tokens, the
    -- bindings of the idempotency keys and the approvals.
    pub refused_keeps :
        (io : ClaimIo × ClaimIo × ClaimIo) (now : ℤ) (validator : CapabilityValidatorV2)
        (token : Bytes) (context : CapabilityV2ValidationContext) (approval : Option Bytes)
        {error : CapabilityV2Error}
        → (authorize_and_consume_approved f c e j io now validator token context approval).0
          ≡ err error
        → memory (authorize_and_consume_approved f c e j io now validator token context approval).1
          ≡ memory validator
    unfolding authorize_and_consume_approved
    refused_keeps io now validator token context approval {error} =
        from (outcome io now validator (authorize c e j validator now token context approval))
      where
        from :
            {r : Result CapabilityV2Error CapabilityClaimsV2} {after : CapabilityValidatorV2}
            → Outcome validator (authorize c e j validator now token context approval) r after
            → r ≡ err error
            → memory after ≡ memory validator
        from (refused _ store) h = refl
        from (accepted claims id fingerprint store authorized) h = absurd (ground arith)

    IsSpent-id :
        (validator : CapabilityValidatorV2) (context : CapabilityV2ValidationContext) (now : ℤ)
        (required : Bool) (evidence : Option ApprovalEvidenceV2) (id : Option Uuid)
        (ids : List Uuid)
        → IsAnswered c e j validator context now required evidence id
        → IsSpent evidence (insert_approval id ids)
    unfolding IsSpent
    IsSpent-id validator context now required none id ids answered = tt
    IsSpent-id validator context now required (some evidence) id ids answered =
        rw (IsAnswered-some c e j validator context now required evidence id answered).0
          (ground (arith, ==-refl evidence.approval_id))

    -- The claims of an accepted call are remembered.
    pub accepted-Remembers :
        (io : ClaimIo × ClaimIo × ClaimIo) (now : ℤ) (validator : CapabilityValidatorV2)
        (token : Bytes) (context : CapabilityV2ValidationContext) (approval : Option Bytes)
        {claims : CapabilityClaimsV2}
        → (authorize_and_consume_approved f c e j io now validator token context approval).0
          ≡ ok claims
        → Remembers
            (authorize_and_consume_approved f c e j io now validator token context approval).1
            claims
    unfolding authorize_and_consume_approved
    accepted-Remembers io now validator token context approval {claims} =
        from (outcome io now validator (authorize c e j validator now token context approval))
      where
        from :
            {r : Result CapabilityV2Error CapabilityClaimsV2} {after : CapabilityValidatorV2}
            → Outcome validator (authorize c e j validator now token context approval) r after
            → r ≡ ok claims
            → Remembers after claims
        from (refused _ store) h = absurd (ground arith)
        from (accepted claims' id fingerprint store authorized) h =
            let good =
              authorize-IsAuthorized c e j validator now token context approval authorized in
            let same : claims' ≡ claims = ground arith in
            rw (sym same) (record {
              token = ground (arith, ==-refl claims'.token_id);
              key = ground (arith, ==-refl claims'.idempotency_key);
              approval =
                  IsSpent-id validator context now context.policy_decision.requires_approval
                    claims'.approval_evidence id validator.consumed_approvals good.answered;
            })

    Remembers-keeps :
        (io : ClaimIo × ClaimIo × ClaimIo) (now : ℤ) (validator : CapabilityValidatorV2)
        (token : Bytes) (context : CapabilityV2ValidationContext) (approval : Option Bytes)
        (claims : CapabilityClaimsV2)
        → Remembers validator claims
        → Remembers
            (authorize_and_consume_approved f c e j io now validator token context approval).1
            claims
    unfolding authorize_and_consume_approved
    Remembers-keeps io now validator token context approval claims m =
        from (outcome io now validator (authorize c e j validator now token context approval))
      where
        from :
            {r : Result CapabilityV2Error CapabilityClaimsV2} {after : CapabilityValidatorV2}
            → Outcome validator (authorize c e j validator now token context approval) r after
            → Remembers after claims
        from (refused _ store) = record { token = m.token; key = m.key; approval = m.approval }
        from (accepted new id fingerprint store authorized) =
            Remembers-consume (record validator { authority_store = store }) claims new id
              fingerprint (record { token = m.token; key = m.key; approval = m.approval })
