-- ===== src/Lib.antt =====
-- Sovereign Founder OS: the trusted core of the repository and what it guarantees.
--
-- The program lets agents act for a founder only through authority that is checked at each step. A
-- request is judged by the policy engine (crates/policy); an authorization is turned into a signed
-- one-use token by an issuer, with a signed approval of a human where the decision wants one, and a
-- validator checks the token against the prepared invocation and consumes it (crates/capability); the
-- consumption is made durable by files that are claimed by hard links (crates/authority); signatures,
-- roles and trusted keys are those of crates/identity; and every action is an event in a chain of
-- hashes signed by the device (crates/audit-ledger). What an invocation runs is an artifact that its
-- publisher signed and the owner admitted, on an input of the declared type (crates/artifact); an
-- executor runs it in a sandbox, once for each capability (crates/sandbox), and keeps a journal of
-- what it began and how it ended (crates/execution). Drafts come from models behind a gateway
-- (crates/model). The data in common is that of crates/contracts.
--
-- The files, and the code that each models:
--   Base, Base/*         the language and its standard library: results, equality, i64, texts, files
--   Contracts            crates/contracts/src/lib.rs
--   External             sha2, hex, base64, ed25519-dalek and coset, as parameters with laws;
--                        External/Toy is a concrete instance for the witnesses, and is not secure
--   Identity, Identity/* crates/identity/src: roles.rs, device.rs, signer.rs and trust.rs
--   Artifact             crates/artifact/src: the data of manifests and of prepared invocations
--   Artifact/Errors      crates/artifact/src/error.rs
--   Artifact/Json        crates/artifact/src/schema.rs: JSON values, duplicate keys, the depth
--   Artifact/Schema      the same file: limits and declarations of schemas
--   Artifact/Input       the same file: the validation of an input
--   Artifact/Manifest    crates/artifact/src/selector.rs, and the checks in manifest.rs
--   Artifact/Verifier    crates/artifact/src/manifest.rs: limits, intents and the verifier
--   Artifact/Invocation  crates/artifact/src/invocation.rs
--   Artifact/Admission   crates/artifact/src/admission.rs; Admission/Load is `load`
--   Artifact/Serde       the record of an admission, and the encodings
--   Gateway, Gateway/*   crates/model/src/lib.rs
--   Journal, Journal/*   crates/execution/src/lib.rs: the journal of executions and its recovery
--   Executor, */*        crates/sandbox/src/lib.rs: the verified executor
--   Policy, Policy/*     crates/policy/src/lib.rs
--   Ledger, Ledger/*     crates/audit-ledger/src/lib.rs
--   Authority, */*       crates/authority/src/lib.rs
--   Capability, */*      crates/capability/src/v2.rs and approval.rs; Capability/V1 is lib.rs, V1 tokens
--   Workflow, */*        crates/workflow/src/lib.rs: steps that resume from a checkpoint
-- A function keeps the name that it has in the source. Methods that change `self` take the state as
-- their last explicit argument and return it beside their result; where an early return leaves a
-- changed state behind, as in `append` and the durable claims, the model returns that state with the
-- error. A long function is composed of helpers, one for each part between two comments of the
-- source.
--
-- Numbers: an `i64` is an integer with the checked sum and difference of the source, and a length is a
-- natural number. A `Uuid` is its number, a digest its bytes, a map a list that is searched from the
-- front, or in the order of its keys where that order shows, a set a list. Fresh ids, the clock and the
-- answers of the file system are arguments. The loops are structural recursions on lists, but for the
-- two loops over a stack in schema.rs. Their fuel is the number of nodes of the schema or the value
-- that they walk, each of which is pushed once.
--
-- Parameters: the cryptography and COSE (`External.Crypto`, `External.Cose`), serde_json and its
-- canonicalizer (`Ledger.Json`, `Authority.Formats`, `Workflow.Formats`, `Capability.Claims.Jcs`,
-- `Artifact.Json.Reader`, `Artifact.Serde.Serde`, `Journal.Formats`), the providers of models
-- (`Gateway.ModelProvider`), and the WebAssembly sandbox (an argument of `execute_approved`). Their
-- laws say that reading gives back what was written, that a part of a written record is none, that a
-- signature verifies under its key, and what lengths there are. No law says that a hash has no
-- collisions: `tamper_evident` returns one.
--
-- Not modelled: files of keys and the replacement of the ledger's file, the raw protected header that
-- coset keeps beside the parsed one, how a repeated key travels in the text of an error of serde, the
-- effects outbox, the vault, wasmtime, the workers that compile for it and their cache, the executor
-- of V1 tokens, and the command line. Simplified: a header of COSE is its algorithm, key id and content
-- type, `sign_cose` cannot fail to serialize, and a dangling link under the name of a workflow's
-- checkpoint is read as corrupt, where the source finds no checkpoint.
pub mod Base
pub mod Contracts
pub mod External
pub mod Identity
pub mod Artifact
pub mod Policy
pub mod Ledger
pub mod Authority
pub mod Capability
pub mod Workflow
pub mod Gateway
pub mod Journal
pub mod Executor
