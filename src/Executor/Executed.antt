-- ===== src/Executor/Executed.antt =====
-- What an execution by `execute_approved` of crates/sandbox/src/lib.rs comes to.
use soverign_founder_os.Base.{
  ◌≡◌, refl, sym, ap, subst, true, ◌⊎◌, inl, inr, Option, some, none, Result, ok, err, map_err,
  ◌>>=◌, ◌>>◌, any, arith, list_eq, nat_eq, list_beq_iff,
}
use soverign_founder_os.Base.Files.{Dir}
use soverign_founder_os.Base.Text.{Bytes}
use soverign_founder_os.External.{Crypto, Cose}
use soverign_founder_os.Artifact.{PreparedInvocation}
use soverign_founder_os.Artifact.Manifest.{selector_beq}
use soverign_founder_os.Authority.{Formats}
use soverign_founder_os.Capability.Errors.{CapabilityV2Error}
use soverign_founder_os.Capability.Claims.{CapabilityClaimsV2, Jcs}
use soverign_founder_os.Capability.Validator.{CapabilityValidatorV2}
use soverign_founder_os.Capability.Validator.OneUse.{Remembers, accepted-Remembers}
use soverign_founder_os.Journal.{
  JournalError, ExecutionGuard, begin, record_started, finish, journal_path,
  Formats as JournalFormats,
}
use soverign_founder_os.Journal.Recovery.Session.{IsRecovered, begin-IsRecovered}
use soverign_founder_os.Executor.{
  SandboxError, capability_v2, context_of, WasmExecutionResult, VerifiedExecutionRequest,
  VerifiedSandboxExecutor, Run, check_request, map_journal_error, on_guard, intent_of, open_guard,
  outcome_of, Returned, close, run_guest, run_authorized, authorization, run_begun, run_checked,
  execute_approved,
}

-- the checks of the request
pub record IsAdmitted (executor : VerifiedSandboxExecutor) (request : VerifiedExecutionRequest)
    : Type 0 where
  pub component :
      request.admitted.artifact.component_digest ≡ request.invocation.artifact.component_digest
  pub manifest :
      request.admitted.artifact.manifest_digest ≡ request.invocation.artifact.manifest_digest
  pub allowed : any (selector_beq request.invocation.operation) executor.allowed_operations ≡ true

check_request-IsAdmitted :
    (executor : VerifiedSandboxExecutor) (request : VerifiedExecutionRequest) {u : Unit {0}}
    → check_request executor request ≡ ok u
    → IsAdmitted executor request
unfolding check_request
check_request-IsAdmitted executor request h =
    let a = request.admitted.artifact in
    let i = request.invocation.artifact in
    record {
      component = ground (arith, list_beq_iff a.component_digest i.component_digest);
      manifest = ground (arith, list_beq_iff a.manifest_digest i.manifest_digest);
      allowed = ground arith;
    }

IsAdmitted-check_request :
    (executor : VerifiedSandboxExecutor) (request : VerifiedExecutionRequest) {error : SandboxError}
    → check_request executor request ≡ err error
    → IsAdmitted executor request
    → ⊥
unfolding check_request
IsAdmitted-check_request executor request h admitted =
    let a = request.admitted.artifact in
    let i = request.invocation.artifact in
    ground (
      arith,
      admitted.component,
      admitted.manifest,
      admitted.allowed,
      list_beq_iff a.component_digest i.component_digest,
      list_beq_iff a.manifest_digest i.manifest_digest,
    )

module _ (f : JournalFormats) (g : Formats) (c : Crypto) (e : Cose) (j : Jcs)
    (result_to_vec : WasmExecutionResult → Bytes) {W : Type 0}
    (wasm : PreparedInvocation → W → Result SandboxError WasmExecutionResult × W) where
  module _ (run : Run) (request : VerifiedExecutionRequest) (approval : Option Bytes)
      (executor : VerifiedSandboxExecutor) (sandbox : W) where
    -- the sandbox's answer, and what it is after
    abbrev pub guest : Result SandboxError WasmExecutionResult × W
    guest = wasm request.invocation sandbox

    -- the journal, if there is one, reads honestly for the outcome of the guest
    abbrev pub IsJournalled : Option Dir → Option Dir → Result JournalError (Unit {0}) → Type 0
    IsJournalled (some dir) (some dir') recorded =
        IsRecovered f (intent_of f g c e j result_to_vec run request.invocation) true
          (outcome_of f g c e j result_to_vec guest.0) recorded (journal_path f run.execution_id)
          dir'
    IsJournalled none none recorded = recorded ≡ ok tt
    IsJournalled _ _ recorded = ⊥

    -- the intent could not be recorded
    abbrev pub IsUnbegun : Option Dir → SandboxError → Type 0
    IsUnbegun none error = ⊥
    IsUnbegun (some dir) error =
        (failure : JournalError) × ((begin f run.begins
            (intent_of f g c e j result_to_vec run request.invocation) dir).0
          ≡ err failure)
        × (error ≡ map_journal_error failure)

    -- the intent was recorded, the start could not be
    abbrev pub IsUnstarted : Option Dir → SandboxError → Type 0
    IsUnstarted none error = ⊥
    IsUnstarted (some dir) error =
        (guard : ExecutionGuard) × (dir' : Dir) × (failure : JournalError) × (begin f run.begins
            (intent_of f g c e j result_to_vec run request.invocation) dir
          ≡ (ok guard, dir'))
        × ((record_started f run.starts guard dir').0 ≡ err failure)
        × (error ≡ map_journal_error failure)

    -- Neither the validator nor the sandbox was asked.
    pub record IsBarred (journal : Option Dir) (r : Returned f g c e j result_to_vec wasm)
        : Type 0 where
      pub stayed : r.sandbox ≡ sandbox
      pub kept : r.executor.validator ≡ executor.validator
      pub error : SandboxError
      pub answer : r.result ≡ err error
      pub why : (IsAdmitted executor request → ⊥) ⊎ IsUnbegun journal error

    abbrev pub authorization_here :
        Result CapabilityV2Error CapabilityClaimsV2 × CapabilityValidatorV2
    authorization_here =
        authorization f g c e j result_to_vec wasm run request approval executor.validator

    -- the validator accepted, and is left as one that will not accept the same again
    pub record IsSpent (r : Returned f g c e j result_to_vec wasm) : Type 0 where
      pub claims : CapabilityClaimsV2
      pub authorized : authorization_here.0 ≡ ok claims
      pub remembered : Remembers r.executor.validator claims

    -- The validator was asked, and the sandbox was not.
    pub record IsStopped (journal : Option Dir) (r : Returned f g c e j result_to_vec wasm)
        : Type 0 where
      pub admitted : IsAdmitted executor request
      pub stayed : r.sandbox ≡ sandbox
      pub left : r.executor.validator ≡ authorization_here.1
      pub why :
          ((error : CapabilityV2Error) × (authorization_here.0 ≡ err error)
            × (r.result ≡ err (capability_v2 error)))
          ⊎ ((error : SandboxError) × IsSpent r
              × IsUnstarted journal error
              × (r.result ≡ err error))

    pub record IsRun (journal : Option Dir) (r : Returned f g c e j result_to_vec wasm)
        : Type 0 where
      pub admitted : IsAdmitted executor request
      pub left : r.executor.validator ≡ authorization_here.1
      pub spent : IsSpent r
      pub asked : r.sandbox ≡ guest.1
      pub recorded : Result JournalError (Unit {0})
      pub journalled : IsJournalled journal r.executor.journal recorded
      pub answer : r.result ≡ (map_err map_journal_error recorded >> guest.0)

    abbrev pub IsExecuted : Option Dir → Returned f g c e j result_to_vec wasm → Type 0
    IsExecuted journal r = IsBarred journal r ⊎ IsStopped journal r ⊎ IsRun journal r

    accepted-IsSpent :
        (r : Returned f g c e j result_to_vec wasm) (claims : CapabilityClaimsV2)
        → authorization_here.0 ≡ ok claims
        → r.executor.validator ≡ authorization_here.1
        → IsSpent r
    accepted-IsSpent r claims h left = record {
      claims = claims;
      authorized = h;
      remembered =
          subst (λ v. Remembers v claims) (sym left)
            (accepted-Remembers g c e j run.io run.now_unix executor.validator request.token
              (context_of request) approval h);
    }

    module _ (admitted : IsAdmitted executor request) where
      unjournalled :
          (authorized : Result CapabilityV2Error CapabilityClaimsV2)
          → (authorization f g c e j result_to_vec wasm run request approval executor.validator).0
            ≡ authorized
          → IsExecuted none (
              run_authorized f g c e j result_to_vec wasm run request.invocation none
                (record executor {
                  validator =
                      (authorization f g c e j result_to_vec wasm run request approval
                        executor.validator).1;
                  journal = none;
                })
                sandbox
                authorized)
      unfolding run_authorized run_guest on_guard close
      unjournalled (err error) h = inr (
          inl (record {
            admitted = admitted;
            stayed = refl;
            left = refl;
            why = inl (error, h, refl);
          }))
      unjournalled (ok claims) h = inr (
          inr (record {
            admitted = admitted;
            left = refl;
            spent = accepted-IsSpent _ claims h refl;
            asked = refl;
            recorded = ok tt;
            journalled = refl;
            answer = refl;
          }))

      started :
          (claims : CapabilityClaimsV2) (guard : ExecutionGuard) (dir dir' dir'' : Dir)
          (s : Result JournalError (Unit {0})) (ex : VerifiedSandboxExecutor)
          → ex.validator ≡ authorization_here.1
          → (authorization f g c e j result_to_vec wasm run request approval executor.validator).0
            ≡ ok claims
          → begin f run.begins (intent_of f g c e j result_to_vec run request.invocation) dir
            ≡ (ok guard, dir')
          → record_started f run.starts guard dir' ≡ (s, dir'')
          → IsExecuted (some dir) (
              run_guest f g c e j result_to_vec wasm run request.invocation
                (some guard)
                ex
                sandbox
                (map_err map_journal_error s, some dir''))
      unfolding run_guest on_guard close
      started claims guard dir dir' dir'' (err failure) ex left h begun has_started = inr (
          inl (record {
            admitted = admitted;
            stayed = refl;
            left = left;
            why = inr (
              map_journal_error failure,
              accepted-IsSpent _ claims h left,
              (guard, dir', failure, begun, ap (λ p. p.0) has_started, refl),
              refl,
            );
          }))
      started claims guard dir dir' dir'' (ok tt) ex left h begun has_started = inr (
          inr (record {
            admitted = admitted;
            left = left;
            spent = accepted-IsSpent _ claims h left;
            asked = refl;
            recorded =
                (finish f run.ends guard (outcome_of f g c e j result_to_vec guest.0) dir'').0;
            journalled =
                begin-IsRecovered f (intent_of f g c e j result_to_vec run request.invocation)
                  run.begins run.starts run.ends guard dir dir' dir'' true
                  (outcome_of f g c e j result_to_vec guest.0) begun has_started;
            answer = refl;
          }))

      journalled :
          (authorized : Result CapabilityV2Error CapabilityClaimsV2) (guard : ExecutionGuard)
          (dir dir' : Dir)
          → (authorization f g c e j result_to_vec wasm run request approval executor.validator).0
            ≡ authorized
          → begin f run.begins (intent_of f g c e j result_to_vec run request.invocation) dir
            ≡ (ok guard, dir')
          → IsExecuted (some dir) (
              run_authorized f g c e j result_to_vec wasm run request.invocation
                (some guard)
                (record executor {
                  validator =
                      (authorization f g c e j result_to_vec wasm run request approval
                        executor.validator).1;
                  journal = some dir';
                })
                sandbox
                authorized)
      unfolding run_authorized on_guard
      journalled (err error) guard dir dir' h begun = inr (
          inl (record {
            admitted = admitted;
            stayed = refl;
            left = refl;
            why = inl (error, h, refl);
          }))
      journalled (ok claims) guard dir dir' h begun =
          started claims guard dir dir' _ _ _ refl h begun refl

      begun_with :
          (b : Result JournalError ExecutionGuard) (dir dir' : Dir)
          → begin f run.begins (intent_of f g c e j result_to_vec run request.invocation) dir
            ≡ (b, dir')
          → IsExecuted (some dir) (
              run_begun f g c e j result_to_vec wasm run request approval executor sandbox
                (map_err map_journal_error b >>= λ guard. ok (some guard), some dir'))
      unfolding run_begun
      begun_with (err failure) dir dir' begun = inl (record {
        stayed = refl;
        kept = refl;
        error = map_journal_error failure;
        answer = refl;
        why = inr (failure, ap (λ p. p.0) begun, refl);
      })
      begun_with (ok guard) dir dir' begun = journalled _ guard dir dir' refl begun

      opened :
          (journal : Option Dir)
          → IsExecuted journal (
              run_begun f g c e j result_to_vec wasm run request approval executor sandbox
                (open_guard f g c e j result_to_vec run request.invocation journal))
      unfolding open_guard run_begun
      opened none = unjournalled _ refl
      opened (some dir) = begun_with _ dir _ refl

    checked :
        (check : Result SandboxError (Unit {0}))
        → check_request executor request ≡ check
        → IsExecuted executor.journal
            (run_checked f g c e j result_to_vec wasm run request approval executor sandbox check)
    unfolding run_checked
    checked (err error) h = inl (record {
      stayed = refl;
      kept = refl;
      error = error;
      answer = refl;
      why = inl (IsAdmitted-check_request executor request h);
    })
    checked (ok tt) h =
        opened (check_request-IsAdmitted executor request {u = tt} h) executor.journal

    -- One of three things happens. Nobody was asked: the artifact of the invocation is not the admitted
    -- one, its operation is not allowed exactly as it is, or the journal could not record the intent;
    -- the validator is as before, and the caller gets an error. Or the validator was asked and the sandbox
    -- was not: the validator refused, and the caller gets its error, or it accepted and the journal
    -- could not record the start, and the caller gets the journal's error. Or the validator accepted,
    -- the sandbox was asked once, and, where there is a journal, its file for this execution reads
    -- honestly for the outcome, the hash of the result or the code of the error; the caller gets what the
    -- sandbox answered, unless the verdict could not be recorded. Wherever the validator was asked, the
    -- executor is left with the validator that answered, and where it accepted, that one holds the
    -- capability as used.
    pub execute_approved-IsExecuted :
        IsExecuted executor.journal
          (execute_approved f g c e j result_to_vec wasm run request approval executor sandbox)
    unfolding execute_approved
    execute_approved-IsExecuted = checked (check_request executor request) refl
