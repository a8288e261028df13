-- ===== src/Capability/Validator/Tests.antt =====
-- The theorems on crates/capability/src/v2.rs at concrete tokens.
use soverign_founder_os.Base.{
  ℕ, ◌≡◌, ◌≢◌, ◌↔◌, refl, subst, sym, ap, ◌∙◌, String, Bool, true, false, Option, some, none, List,
  [], ◌∷◌, Result, ok, err, arith, ◌==◌, nat_eq, any, if◌then◌else◌,
}
use soverign_founder_os.Base.Int.{pos, ◌≤ℤ◌, ◌<ℤ◌, ◌+ℤ◌}
use soverign_founder_os.Base.Text.{Bytes}
use soverign_founder_os.Contracts.{Uuid}
use soverign_founder_os.External.Toy.{toy_crypto, toy_cose}
use soverign_founder_os.Identity.{authority, cose}
use soverign_founder_os.Identity.Trust.{verify}
use soverign_founder_os.Identity.Trust.Verify.{verify_malformed}
use soverign_founder_os.Identity.Toy.{toy_store, toy-Trusts}
use soverign_founder_os.Artifact.{Digest}
use soverign_founder_os.Authority.Toy.{toy_formats, io}
use soverign_founder_os.Capability.Toy.{toy_jcs}
use soverign_founder_os.Capability.Errors.{map_identity_error}
use soverign_founder_os.Capability.Claims.{CapabilityClaimsV2}
use soverign_founder_os.Capability.Issuer.Issued.{IsToken, issue_inner-IsToken}
use soverign_founder_os.Capability.Issuer.Sample.{
  sample_issuer, sample_request, sample_token, sample_issued,
}
use soverign_founder_os.Capability.Validator.{
  CapabilityValidatorV2, authorize, authorize_and_consume_approved, and_consume, consume,
  consume_durably, open_token,
}
use soverign_founder_os.Capability.Validator.Bound.Authorized.{IsAuthorized, authorize-IsAuthorized}
use soverign_founder_os.Capability.Validator.OneUse.{memory, refused_keeps}
use soverign_founder_os.Capability.Validator.OneUse.Runs.{
  Call, answer, after_calls, one_use, IsDistinct,
}
use soverign_founder_os.Capability.Validator.Roundtrip.{
  context_of, IsMatching, authorize-issue_inner,
}

abbrev validator : CapabilityValidatorV2
validator = record {
  trust_store = toy_store authority;
  expected_issuer = "issuer";
  expected_audience = "host";
  consumed_tokens = [];
  idempotency = [];
  approvals = none;
  consumed_approvals = [];
  authority_store = none;
}

matching : IsMatching toy_crypto toy_cose toy_jcs validator sample_issuer (pos 20) 77 6
matching = record {
  same_issuer = refl;
  same_audience = refl;
  trusts = toy-Trusts authority 20 (ground arith);
  unused = refl;
  unbound = refl;
}

issue_inner-IsToken_example :
    IsToken toy_crypto toy_cose toy_jcs sample_issuer
      (sample_request 6)
      (pos 10)
      77
      (sample_token 77 6)
issue_inner-IsToken_example =
    issue_inner-IsToken toy_crypto toy_cose toy_jcs sample_issuer (pos 10) 77 (sample_request 6)
      (sample_issued 77 6)

before_expiry : pos 20 <ℤ pos 10 +ℤ pos 60
unfolding ◌+ℤ◌
before_expiry = ground arith

fresh : pos 20 ≤ℤ pos 10 +ℤ pos 30
unfolding ◌+ℤ◌
fresh = ground arith

authorize-issue_inner_example :
    (claims : CapabilityClaimsV2) × (fingerprint : Digest) × (authorize toy_crypto toy_cose toy_jcs
        validator
        (pos 20)
        (sample_token 77 6)
        (context_of (sample_request 6))
        none
      ≡ ok (claims, none, fingerprint))
    × (claims.token_id ≡ 77)
    × (claims.idempotency_key ≡ 6)
authorize-issue_inner_example =
    authorize-issue_inner toy_crypto toy_cose toy_jcs sample_issuer (pos 10) (pos 20) 77
      (sample_request 6) validator (sample_issued 77 6) matching (ground arith) before_expiry fresh
      (λ x. (_, refl))

-- What the sample token is authorized as.
authorized :
    (claims : CapabilityClaimsV2) × (fingerprint : Digest) × (authorize toy_crypto toy_cose toy_jcs
        validator
        (pos 20)
        (sample_token 77 6)
        (context_of (sample_request 6))
        none
      ≡ ok (claims, none, fingerprint))
    × (claims.token_id ≡ 77)
    × (claims.idempotency_key ≡ 6)
authorized =
    authorize-issue_inner toy_crypto toy_cose toy_jcs sample_issuer (pos 10) (pos 20) 77
      (sample_request 6) validator (sample_issued 77 6) matching (ground arith) before_expiry fresh
      (λ x. (_, refl))

authorize-IsAuthorized_example :
    IsAuthorized toy_crypto toy_cose toy_jcs validator
      (pos 20)
      (context_of (sample_request 6))
      authorized.0
      none
      authorized.1
authorize-IsAuthorized_example =
    authorize-IsAuthorized toy_crypto toy_cose toy_jcs validator (pos 20) (sample_token 77 6)
      (context_of (sample_request 6)) none authorized.2

unreadable :
    verify toy_crypto toy_cose (toy_store authority) [] "issuer" (pos 20) ≡ err (cose "malformed")
unfolding soverign_founder_os.Base.Text.trim
unreadable =
    verify_malformed toy_crypto toy_cose (toy_store authority) [] "issuer" (pos 20) refl refl

refused :
    (authorize_and_consume_approved toy_formats toy_crypto toy_cose toy_jcs
      (io, io, io)
      (pos 20)
      validator
      []
      (context_of (sample_request 6))
      none).0
    ≡ err (map_identity_error (cose "malformed"))
unfolding authorize_and_consume_approved and_consume authorize open_token
refused = rw unreadable refl

refused_keeps_example :
    memory
      (authorize_and_consume_approved toy_formats toy_crypto toy_cose toy_jcs
        (io, io, io)
        (pos 20)
        validator
        []
        (context_of (sample_request 6))
        none).1
    ≡ ([], [], [])
refused_keeps_example =
    refused_keeps toy_formats toy_crypto toy_cose toy_jcs (io, io, io) (pos 20) validator []
      (context_of (sample_request 6)) none refused

abbrev call : Uuid → Uuid → Call toy_formats toy_crypto toy_cose toy_jcs
call id key = record {
  io = (io, io, io);
  now_unix = pos 20;
  token = sample_token id key;
  context = context_of (sample_request key);
  approval = none;
}

abbrev after : CapabilityValidatorV2
after = consume authorized.0 none authorized.1 validator

first :
    authorize_and_consume_approved toy_formats toy_crypto toy_cose toy_jcs
      (io, io, io)
      (pos 20)
      validator
      (sample_token 77 6)
      (context_of (sample_request 6))
      none
    ≡ (ok authorized.0, after)
unfolding authorize_and_consume_approved and_consume consume_durably
first = rw authorized.2 refl

IsMatching-after : IsMatching toy_crypto toy_cose toy_jcs after sample_issuer (pos 20) 78 7
IsMatching-after = record {
  same_issuer = refl;
  same_audience = refl;
  trusts = toy-Trusts authority 20 (ground arith);
  unused = rw authorized.3 refl;
  unbound = rw authorized.4 refl;
}

second_authorized :
    (claims : CapabilityClaimsV2) × (fingerprint : Digest) × (authorize toy_crypto toy_cose toy_jcs
        after
        (pos 20)
        (sample_token 78 7)
        (context_of (sample_request 7))
        none
      ≡ ok (claims, none, fingerprint))
    × (claims.token_id ≡ 78)
    × (claims.idempotency_key ≡ 7)
second_authorized =
    authorize-issue_inner toy_crypto toy_cose toy_jcs sample_issuer (pos 10) (pos 20) 78
      (sample_request 7) after (sample_issued 78 7) IsMatching-after (ground arith) before_expiry
      fresh (λ x. (_, refl))

second :
    (authorize_and_consume_approved toy_formats toy_crypto toy_cose toy_jcs
      (io, io, io)
      (pos 20)
      after
      (sample_token 78 7)
      (context_of (sample_request 7))
      none).0
    ≡ ok second_authorized.0
unfolding authorize_and_consume_approved and_consume consume_durably
second = rw second_authorized.2 refl

one_use_example :
    (second_authorized.0.token_id ≢ authorized.0.token_id)
    × (second_authorized.0.idempotency_key ≢ authorized.0.idempotency_key)
    × IsDistinct toy_formats toy_crypto toy_cose toy_jcs authorized.0.approval_evidence
        second_authorized.0.approval_evidence
unfolding after_calls
one_use_example =
    one_use toy_formats toy_crypto toy_cose toy_jcs validator (call 77 6) [] (call 78 7)
      (ap (λ r. r.0) first)
      (subst
        (λ v.
          answer toy_formats toy_crypto toy_cose toy_jcs (call 78 7)
            (after_calls toy_formats toy_crypto toy_cose toy_jcs [] v)
          ≡ ok second_authorized.0)
        (sym (ap (λ r. r.1) first)) second)
