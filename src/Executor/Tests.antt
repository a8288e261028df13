-- ===== src/Executor/Tests.antt =====
-- An execution by `execute_approved` of crates/sandbox/src/lib.rs with the sample token, and one whose
-- artifact is not the admitted one.
use soverign_founder_os.Base.{ℕ, suc, ◌≡◌, refl, some, none, [], ◌∷◌, Result, ok, arith}
use soverign_founder_os.Base.Files.{lookup, insert}
use soverign_founder_os.Base.Int.{pos, ◌≤ℤ◌, ◌<ℤ◌, ◌+ℤ◌}
use soverign_founder_os.Base.Text.{Bytes}
use soverign_founder_os.External.Toy.{toy_crypto, toy_cose}
use soverign_founder_os.Identity.{authority}
use soverign_founder_os.Identity.Toy.{toy_store, toy-Trusts}
use soverign_founder_os.Artifact.{PreparedInvocation, VerifiedArtifact, Digest}
use soverign_founder_os.Artifact.Toy.{toy_prepared}
use soverign_founder_os.Artifact.Admission.{AdmittedArtifact}
use soverign_founder_os.Artifact.Serde.{admitted}
use soverign_founder_os.Authority.Toy.{toy_formats, io}
use soverign_founder_os.Capability.Toy.{toy_jcs}
use soverign_founder_os.Capability.Issuer.Sample.{
  sample_issuer, sample_request, sample_decision, sample_token, sample_issued,
}
use soverign_founder_os.Capability.Claims.{CapabilityClaimsV2}
use soverign_founder_os.Capability.Validator.{
  authorize, authorize_and_consume_approved, and_consume, consume_durably,
}
use soverign_founder_os.Capability.Validator.Roundtrip.{IsMatching, authorize-issue_inner}
use soverign_founder_os.Journal.{
  flushed, Formats, begin, begin_at, append_line, written, append_record, append_at,
}
use soverign_founder_os.Journal.Toy.{toy_journal}
use soverign_founder_os.Executor.{
  SandboxError, WasmExecutionResult, wasmtime_verified_pure_compute_v2, VerifiedExecutionRequest,
  VerifiedSandboxExecutor, Run, check_request, run_checked, execute_approved, context_of,
  open_guard, run_begun, run_authorized, run_guest, on_guard, close,
}
use soverign_founder_os.Executor.Executed.{IsExecuted, execute_approved-IsExecuted}

abbrev admission : VerifiedArtifact → AdmittedArtifact
admission artifact = record {
  artifact = artifact;
  admission = record {
    typ = "sovereign.artifact-admission";
    version = 1;
    admission_id = 9;
    admitting_issuer = "owner";
    admitting_key_id = 8 ∷ [];
    component_digest = artifact.component_digest;
    manifest_digest = artifact.manifest_digest;
    backend = artifact.manifest.backend;
    risk_class = artifact.manifest.risk_class;
    abi = artifact.manifest.abi;
    effective_host_capabilities = [];
    installation_state = admitted;
    canonicalization_profile = "rfc8785-jcs+sovereign-digest-v1";
    admitted_at_unix = pos 5;
  };
}

abbrev request : VerifiedArtifact → VerifiedExecutionRequest
request artifact = record {
  token = sample_token 77 6;
  invocation = toy_prepared;
  admitted = admission artifact;
  venture_id = "venture";
  subject_id = "founder";
  session_id = 5;
  policy_decision = sample_decision 6;
}

abbrev executor : VerifiedSandboxExecutor
executor = record {
  validator = record {
    trust_store = toy_store authority;
    expected_issuer = "issuer";
    expected_audience = "host";
    consumed_tokens = [];
    idempotency = [];
    approvals = none;
    consumed_approvals = [];
    authority_store = none;
  };
  allowed_operations = toy_prepared.operation ∷ [];
  journal = some [];
}

abbrev run : Run
run = record {
  io = (io, io, io);
  now_unix = pos 20;
  requested_at_unix = pos 20;
  execution_id = 0;
  begins = flushed;
  starts = flushed;
  ends = flushed;
}

-- the sandbox counts how often it is asked
abbrev wasm : PreparedInvocation → ℕ → Result SandboxError WasmExecutionResult × ℕ
wasm invocation asked = (
  ok (record { exit_code = pos 0; fuel_consumed = 7; runtime = wasmtime_verified_pure_compute_v2 }),
  suc asked,
)

abbrev result_to_vec : WasmExecutionResult → Bytes
result_to_vec result = result.fuel_consumed ∷ []

abbrev formats : Formats
formats = toy_journal (record {
  execution_id = 0;
  component_digest_hex = toy_crypto.hex_encode (1 ∷ []);
  canonical_input_digest_hex = toy_crypto.hex_encode (3 ∷ []);
  requested_at_unix = pos 20;
})

matching : IsMatching toy_crypto toy_cose toy_jcs executor.validator sample_issuer (pos 20) 77 6
matching = record {
  same_issuer = refl;
  same_audience = refl;
  trusts = toy-Trusts authority 20 (ground arith);
  unused = refl;
  unbound = refl;
}

before_expiry : pos 20 <ℤ pos 10 +ℤ pos 60
unfolding ◌+ℤ◌
before_expiry = ground arith

fresh : pos 20 ≤ℤ pos 10 +ℤ pos 30
unfolding ◌+ℤ◌
fresh = ground arith

authorized :
    (claims : CapabilityClaimsV2) × (fingerprint : Digest) × (authorize toy_crypto toy_cose toy_jcs
        executor.validator
        (pos 20)
        (sample_token 77 6)
        (context_of (request toy_prepared.artifact))
        none
      ≡ ok (claims, none, fingerprint))
    × (claims.token_id ≡ 77)
    × (claims.idempotency_key ≡ 6)
authorized =
    authorize-issue_inner toy_crypto toy_cose toy_jcs sample_issuer (pos 10) (pos 20) 77
      (sample_request 6) executor.validator (sample_issued 77 6) matching (ground arith)
      before_expiry fresh (λ x. (_, refl))

-- the sandbox is asked once
asked :
    (execute_approved formats toy_formats toy_crypto toy_cose toy_jcs result_to_vec wasm run
      (request toy_prepared.artifact)
      none
      executor
      0).sandbox
    ≡ 1
unfolding execute_approved check_request run_checked open_guard run_begun
    authorize_and_consume_approved and_consume consume_durably run_authorized run_guest on_guard
    begin begin_at append_line written lookup insert append_record append_at close
asked = rw authorized.2 refl

execute_approved-IsExecuted_example :
    IsExecuted formats toy_formats toy_crypto toy_cose toy_jcs result_to_vec wasm run
      (request toy_prepared.artifact)
      none
      executor
      0
      executor.journal
      (execute_approved formats toy_formats toy_crypto toy_cose toy_jcs result_to_vec wasm run
        (request toy_prepared.artifact)
        none
        executor
        0)
execute_approved-IsExecuted_example =
    execute_approved-IsExecuted formats toy_formats toy_crypto toy_cose toy_jcs result_to_vec wasm
      run (request toy_prepared.artifact) none executor 0
