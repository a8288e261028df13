-- ===== src/Executor.antt =====
-- crates/sandbox/src/lib.rs: `VerifiedSandboxExecutor`, which runs an admitted artifact once for each
-- capability. The WebAssembly sandbox is a function of the invocation and of its own state, which shows
-- whether it was asked; serde_json's text of a result is an argument, too.
pub mod Executed
mod Tests
use soverign_founder_os.Base.{
  ℕ, ◌≡◌, String, Bool, true, false, not, ◌||◌, Option, some, none, List, Result, ok, err, reject,
  map_err, ◌>>=◌, ◌>>◌, any, ◌!=◌, list_eq, nat_eq,
}
use soverign_founder_os.Base.Int.{ℤ}
use soverign_founder_os.Base.Files.{Dir}
use soverign_founder_os.Base.Text.{Bytes}
use soverign_founder_os.Contracts.{Uuid}
use soverign_founder_os.External.{Crypto, Cose}
use soverign_founder_os.Artifact.{OperationSelector, PreparedInvocation}
use soverign_founder_os.Artifact.Manifest.{selector_beq}
use soverign_founder_os.Artifact.Admission.{AdmittedArtifact}
use soverign_founder_os.Policy.{PolicyAuthorizationV2}
use soverign_founder_os.Authority.{ClaimIo, Formats}
use soverign_founder_os.Capability.Errors.{CapabilityV2Error}
use soverign_founder_os.Capability.V1.{CapabilityError}
use soverign_founder_os.Capability.Claims.{CapabilityClaimsV2, Jcs}
use soverign_founder_os.Capability.Validator.{
  CapabilityV2ValidationContext, CapabilityValidatorV2, authorize_and_consume_approved,
}
use soverign_founder_os.Journal.{
  JournalError, unavailable, intent_not_persisted, corrupt_record, ExecutionIntent,
  ExecutionOutcome, completed, failed, ExecutionGuard, Write, begin, record_started, finish,
  Formats as JournalFormats,
}
use Prim.Native.String.{◌++◌ as str_append}

pub data SandboxError : Type 0 where
  capability : CapabilityError → SandboxError
  capability_v2 : CapabilityV2Error → SandboxError
  tool_not_allowed : String → SandboxError
  artifact_not_admitted compile_worker_timeout : SandboxError
  compile_worker_failed compiled_cache_unavailable : String → SandboxError
  compiled_cache_poisoned guest_input_rejected : String → SandboxError
  verified_operation_not_allowed : OperationSelector → SandboxError
  execution_failed : String → SandboxError
  invalid_runtime_limits runtime_busy fuel_exhausted deadline_exceeded : SandboxError
  runtime_initialization runtime_unavailable : String → SandboxError
  module_too_large : ℕ → ℕ → SandboxError
  invalid_module : String → SandboxError
  forbidden_import : String → String → SandboxError
  missing_entrypoint : String → SandboxError
  invalid_entrypoint : String → String → SandboxError
  instantiation_failed resource_limit_exceeded guest_trap : String → SandboxError
  execution_intent_not_persisted : SandboxError
  execution_journal_unavailable : String → SandboxError

-- `SandboxError::stable_code`
pub stable_code : SandboxError → String
stable_code fuel_exhausted = "fuel_exhausted"
stable_code deadline_exceeded = "deadline_exceeded"
stable_code (resource_limit_exceeded _) = "resource_limit"
stable_code (guest_trap _) = "guest_trap"
stable_code (missing_entrypoint _) = "missing_abi"
stable_code (invalid_entrypoint _ _) = "incompatible_abi"
stable_code (invalid_module _) = "invalid_module"
stable_code (instantiation_failed _) = "instantiate_failed"
stable_code (forbidden_import _ _) = "forbidden_import"
stable_code (module_too_large _ _) = "module_too_large"
stable_code _ = "execution_failed"

pub data ExecutionRuntime : Type 0 where
  in_process_simulation wasmtime_core_phase_a : ExecutionRuntime
  wasmtime_verified_pure_compute_v2 : ExecutionRuntime

pub record WasmExecutionResult : Type 0 where
  pub exit_code : ℤ
  pub fuel_consumed : ℕ
  pub runtime : ExecutionRuntime

-- the token is its bytes
pub record VerifiedExecutionRequest : Type 0 where
  pub token : Bytes
  pub invocation : PreparedInvocation
  pub admitted : AdmittedArtifact
  pub venture_id : String
  pub subject_id : String
  pub session_id : Uuid
  pub policy_decision : PolicyAuthorizationV2

-- `VerifiedSandboxExecutor`; the journal is its directory
pub record VerifiedSandboxExecutor : Type 0 where
  pub validator : CapabilityValidatorV2
  pub allowed_operations : List OperationSelector
  pub journal : Option Dir

-- `map_journal_error`
pub map_journal_error : JournalError → SandboxError
map_journal_error intent_not_persisted = execution_intent_not_persisted
map_journal_error (unavailable reason) =
    execution_journal_unavailable (str_append "execution journal unavailable: " reason)
map_journal_error corrupt_record =
    execution_journal_unavailable "execution record is invalid or corrupt"

-- What one execution meets: the claims of the authority store, the clocks, the id of the execution, and
-- the writes of the journal.
pub record Run : Type 0 where
  pub io : ClaimIo × ClaimIo × ClaimIo
  pub now_unix : ℤ
  pub requested_at_unix : ℤ
  pub execution_id : Uuid
  pub begins : Write
  pub starts : Write
  pub ends : Write

-- the checks before the journal and the capability
pub check_request :
    VerifiedSandboxExecutor → VerifiedExecutionRequest → Result SandboxError (Unit {0})
check_request executor request = do
  let admitted = request.admitted.artifact
  let invoked = request.invocation.artifact
  reject
      (admitted.component_digest != invoked.component_digest
        || admitted.manifest_digest != invoked.manifest_digest)
      artifact_not_admitted
  let selector = request.invocation.operation
  reject (not (any (selector_beq selector) executor.allowed_operations))
      (verified_operation_not_allowed selector)

abbrev pub context_of : VerifiedExecutionRequest → CapabilityV2ValidationContext
context_of request = record {
  venture_id = request.venture_id;
  subject_id = request.subject_id;
  session_id = request.session_id;
  policy_decision = request.policy_decision;
  prepared_invocation = request.invocation;
}

-- `guard.…` where there is a journal
pub on_guard :
    Option ExecutionGuard
    → Option Dir
    → (ExecutionGuard → Dir → Result JournalError (Unit {0}) × Dir)
    → Result SandboxError (Unit {0}) × Option Dir
on_guard (some guard) (some dir) operation =
    let (result, dir') = operation guard dir in (map_err map_journal_error result, some dir')
on_guard _ journal operation = (ok tt, journal)

module _ (f : JournalFormats) (g : Formats) (c : Crypto) (e : Cose) (j : Jcs)
    (result_to_vec : WasmExecutionResult → Bytes) where
  -- `result_hash`
  abbrev pub result_hash : WasmExecutionResult → String
  result_hash result = c.hex_encode (c.sha256 (result_to_vec result))

  abbrev pub intent_of : Run → PreparedInvocation → ExecutionIntent
  intent_of run invocation = record {
    execution_id = run.execution_id;
    component_digest_hex = c.hex_encode invocation.artifact.component_digest;
    canonical_input_digest_hex = c.hex_encode invocation.input_digest;
    requested_at_unix = run.requested_at_unix;
  }

  -- the intent, where there is a journal
  pub open_guard :
      Run
      → PreparedInvocation
      → Option Dir
      → Result SandboxError (Option ExecutionGuard) × Option Dir
  open_guard run invocation none = (ok none, none)
  open_guard run invocation (some dir) =
      let (begun, dir') = begin f run.begins (intent_of run invocation) dir in
      (map_err map_journal_error begun >>= λ guard. ok (some guard), some dir')

  pub outcome_of : Result SandboxError WasmExecutionResult → ExecutionOutcome
  outcome_of (ok result) = ExecutionOutcome.completed (result_hash result)
  outcome_of (err error) = ExecutionOutcome.failed (stable_code error)

  module _ {W : Type 0}
      (wasm : PreparedInvocation → W → Result SandboxError WasmExecutionResult × W) where
    -- what the caller gets, the executor and the sandbox that are left
    pub record Returned : Type 0 where
      pub result : Result SandboxError WasmExecutionResult
      pub executor : VerifiedSandboxExecutor
      pub sandbox : W

    -- the verdict has been written, or could not be
    pub close :
        Result SandboxError WasmExecutionResult
        → VerifiedSandboxExecutor
        → W
        → Result SandboxError (Unit {0}) × Option Dir
        → Returned
    close result executor sandbox (recorded, journal) = record {
      result = recorded >> result;
      executor = record executor { journal = journal };
      sandbox = sandbox;
    }

    -- the guest runs, once the start has been recorded
    pub run_guest :
        Run
        → PreparedInvocation
        → Option ExecutionGuard
        → VerifiedSandboxExecutor
        → W
        → Result SandboxError (Unit {0}) × Option Dir
        → Returned
    run_guest run invocation guard executor sandbox (err error, journal) = record {
      result = err error;
      executor = record executor { journal = journal };
      sandbox = sandbox;
    }
    run_guest run invocation guard executor sandbox (ok _, journal) =
        let (result, sandbox') = wasm invocation sandbox in
        close result executor sandbox'
          (on_guard guard journal (λ u dir. finish f run.ends u (outcome_of result) dir))

    -- after `authorize_and_consume_approved`
    pub run_authorized :
        Run
        → PreparedInvocation
        → Option ExecutionGuard
        → VerifiedSandboxExecutor
        → W
        → Result CapabilityV2Error CapabilityClaimsV2
        → Returned
    run_authorized run invocation guard executor sandbox (err error) =
        let denied = ExecutionOutcome.failed "authorization_denied" in
        let (_, journal) =
          on_guard guard executor.journal (λ u dir. finish f run.ends u denied dir) in
        record {
          result = err (capability_v2 error);
          executor = record executor { journal = journal };
          sandbox = sandbox;
        }
    run_authorized run invocation guard executor sandbox (ok claims) =
        run_guest run invocation guard executor sandbox
          (on_guard guard executor.journal (record_started f run.starts))

    abbrev pub authorization :
        Run
        → VerifiedExecutionRequest
        → Option Bytes
        → CapabilityValidatorV2
        → Result CapabilityV2Error CapabilityClaimsV2 × CapabilityValidatorV2
    authorization run request approval validator =
        authorize_and_consume_approved g c e j run.io run.now_unix validator request.token
          (context_of request) approval

    -- after the intent
    pub run_begun :
        Run
        → VerifiedExecutionRequest
        → Option Bytes
        → VerifiedSandboxExecutor
        → W
        → Result SandboxError (Option ExecutionGuard) × Option Dir
        → Returned
    run_begun run request approval executor sandbox (err error, journal) = record {
      result = err error;
      executor = record executor { journal = journal };
      sandbox = sandbox;
    }
    run_begun run request approval executor sandbox (ok guard, journal) =
        let (authorized, validator) = authorization run request approval executor.validator in
        run_authorized run request.invocation guard
          (record executor { validator = validator; journal = journal }) sandbox authorized

    -- after the checks of the request
    pub run_checked :
        Run
        → VerifiedExecutionRequest
        → Option Bytes
        → VerifiedSandboxExecutor
        → W
        → Result SandboxError (Unit {0})
        → Returned
    run_checked run request approval executor sandbox (err error) = record {
      result = err error;
      executor = executor;
      sandbox = sandbox;
    }
    run_checked run request approval executor sandbox (ok _) =
        run_begun run request approval executor sandbox
          (open_guard run request.invocation executor.journal)

    -- `execute_approved`; `execute` is this without an approval
    pub execute_approved :
        Run → VerifiedExecutionRequest → Option Bytes → VerifiedSandboxExecutor → W → Returned
    execute_approved run request approval executor sandbox =
        run_checked run request approval executor sandbox (check_request executor request)
