-- ===== src/Workflow.antt =====
-- crates/workflow/src/lib.rs: the runner of one workflow over its durable checkpoint. A step is a
-- function of its context, since the crate wants steps to be deterministic. The directory is the entry
-- under the name of the checkpoint; whether it can be read, and the error of each write, are arguments.
-- A temporary file that is left behind does not show: every write removes it first.
pub mod Sound
pub mod Fresh
mod Tests
use soverign_founder_os.Base.{
  ℕ, suc, ◌+◌, ◌*◌, ◌≡◌, String, Bool, true, false, not, Option, some, none, List, [], ◌∷◌, ◌++◌,
  Result, ok, err, reject, require_eq, ok_or, map_err, ◌>>=◌, ◌>>◌, ltb, length, get_elem?, Eq,
  ◌==◌, ◌!=◌, string_eq, if◌then◌else◌,
}
use soverign_founder_os.Base.Text.{Bytes}
use soverign_founder_os.Base.Files.{Entry, file, special}
use soverign_founder_os.Contracts.{Uuid}

abbrev max_checkpoint_bytes : ℕ
max_checkpoint_bytes = 256 * 1024

pub data WorkflowError : Type 0 where
  unavailable : String → WorkflowError
  corrupt_checkpoint workflow_mismatch : WorkflowError
  step_divergence : String → WorkflowError
  step_failed : String → String → WorkflowError

pub record StepReceipt : Type 0 where
  pub index : ℕ
  pub name : String
  pub idempotency_key : Uuid
  pub output_digest_hex : String

pub record Checkpoint : Type 0 where
  pub workflow_id : String
  pub completed : List StepReceipt
  pub done : Bool

-- `Checkpoint::empty`
abbrev pub empty : String → Checkpoint
empty workflow_id = record { workflow_id = workflow_id; completed = []; done = false }

pub record StepContext : Type 0 where
  pub workflow_id : String
  pub prior : List StepReceipt

pub record WorkflowStep : Type 0 where
  pub name : String
  pub run : StepContext → Result String Bytes

pub record WorkflowSummary : Type 0 where
  pub workflow_id : String
  pub receipts : List StepReceipt
  pub executed_now : List ℕ

-- serde_json, and the digest and the UUID v5 of the receipts
pub record Formats : Type 0 where
  pub to_vec : Checkpoint → Result String Bytes
  pub from_slice : Bytes → Option Checkpoint
  pub digest_hex : Bytes → String
  pub step_idempotency_key : String → ℕ → String → Uuid
  pub from-to : (x : Checkpoint) (b : Bytes) → to_vec x ≡ ok b → from_slice b ≡ some x

-- the loop over the receipts of the checkpoint
check_receipts : List WorkflowStep → List StepReceipt → Result WorkflowError (Unit {0})
check_receipts steps [] = ok tt
check_receipts steps (receipt ∷ receipts) = do
  declared ← ok_or (get_elem? steps receipt.index) (step_divergence "missing step index")
  require_eq declared.name receipt.name (step_divergence "step name changed")
  check_receipts steps receipts

-- both guards against a workflow that changed under its checkpoint
check_steps : List WorkflowStep → List StepReceipt → Result WorkflowError (Unit {0})
check_steps steps receipts = do
  reject (ltb (length steps) (length receipts)) (step_divergence "fewer steps than completed")
  check_receipts steps receipts

module _ (f : Formats) (workflow_id : String) where
  -- `WorkflowRunner::checkpoint`
  pub checkpoint : Bool → Option Entry → Result WorkflowError Checkpoint
  checkpoint readable none = ok (empty workflow_id)
  checkpoint readable (some special) = err corrupt_checkpoint
  checkpoint readable (some (file bytes)) = do
    reject (ltb max_checkpoint_bytes (length bytes)) corrupt_checkpoint
    reject (not readable) (unavailable "read")
    found ← ok_or (f.from_slice bytes) corrupt_checkpoint
    require_eq found.workflow_id workflow_id workflow_mismatch
    ok found

  -- the checkpoint once it is serialized, or is not
  persist_bytes :
      Option String
      → Result String Bytes
      → Option Entry
      → Result WorkflowError (Unit {0}) × Option Entry
  persist_bytes refusal (err reason) stored = (err (unavailable reason), stored)
  persist_bytes (some reason) (ok bytes) stored = (err (unavailable reason), stored)
  persist_bytes none (ok bytes) stored = (ok tt, some (file bytes))

  persist :
      Option String → Checkpoint → Option Entry → Result WorkflowError (Unit {0}) × Option Entry
  persist refusal current stored = persist_bytes refusal (f.to_vec current) stored

  abbrev receipt : ℕ → WorkflowStep → Bytes → StepReceipt
  receipt index step output = record {
    index = index;
    name = step.name;
    idempotency_key = f.step_idempotency_key workflow_id index step.name;
    output_digest_hex = f.digest_hex output;
  }

  -- the receipt of a step that ran, and the checkpoint with it, durable or not
  pushed : Checkpoint → StepReceipt → Checkpoint
  pushed current entry = record current { completed = current.completed ++ entry ∷ [] }

  keep :
      Checkpoint
      → List ℕ
      → Result WorkflowError (Unit {0}) × Option Entry
      → Result WorkflowError (Checkpoint × List ℕ) × Option Entry
  keep current executed (err error, stored) = (err error, stored)
  keep current executed (ok _, stored) = (ok (current, executed), stored)

  record_step :
      Option String
      → ℕ
      → WorkflowStep
      → Checkpoint
      → List ℕ
      → Option Entry
      → Result String Bytes
      → Result WorkflowError (Checkpoint × List ℕ) × Option Entry
  record_step refusal index step current executed stored (err reason) =
      (err (step_failed step.name reason), stored)
  record_step refusal index step current executed stored (ok output) =
      let next = pushed current (receipt index step output) in
      keep next (executed ++ index ∷ []) (persist refusal next stored)

  -- one round of the loop over the steps: a completed step is skipped
  run_step :
      Option String
      → ℕ
      → WorkflowStep
      → Checkpoint
      → List ℕ
      → Option Entry
      → Bool
      → Result WorkflowError (Checkpoint × List ℕ) × Option Entry
  run_step refusal index step current executed stored true = (ok (current, executed), stored)
  run_step refusal index step current executed stored false =
      record_step refusal index step current executed stored
        (step.run (record { workflow_id = workflow_id; prior = current.completed }))

  -- `?` in the loop
  continue :
      Result WorkflowError (Checkpoint × List ℕ) × Option Entry
      → (Checkpoint
          → List ℕ
          → Option Entry
          → Result WorkflowError (Checkpoint × List ℕ) × Option Entry)
      → Result WorkflowError (Checkpoint × List ℕ) × Option Entry
  continue (err error, stored) next = (err error, stored)
  continue (ok (current, executed), stored) next = next current executed stored

  run_steps :
      (ℕ → Option String)
      → ℕ
      → List WorkflowStep
      → Checkpoint
      → List ℕ
      → Option Entry
      → Result WorkflowError (Checkpoint × List ℕ) × Option Entry
  run_steps disk index [] current executed stored = (ok (current, executed), stored)
  run_steps disk index (step ∷ steps) current executed stored =
      continue
        (run_step (disk index) index step current executed stored
          (ltb index (length current.completed)))
        (run_steps disk (suc index) steps)

  -- the last part of `run`: the mark that the workflow is done, and the summary
  summary : Checkpoint → List ℕ → WorkflowSummary
  summary current executed = record {
    workflow_id = workflow_id;
    receipts = current.completed;
    executed_now = executed;
  }

  mark :
      Checkpoint
      → List ℕ
      → Result WorkflowError (Unit {0}) × Option Entry
      → Result WorkflowError WorkflowSummary × Option Entry
  mark current executed (err error, stored) = (err error, stored)
  mark current executed (ok _, stored) = (ok (summary current executed), stored)

  -- the mark is written unless it is there
  mark_done :
      Option String
      → Bool
      → Checkpoint
      → List ℕ
      → Option Entry
      → Result WorkflowError WorkflowSummary × Option Entry
  mark_done refusal true current executed stored = (ok (summary current executed), stored)
  mark_done refusal false current executed stored =
      mark current executed (persist refusal (record current { done = true }) stored)

  complete :
      Option String
      → Result WorkflowError (Checkpoint × List ℕ) × Option Entry
      → Result WorkflowError WorkflowSummary × Option Entry
  complete refusal (err error, stored) = (err error, stored)
  complete refusal (ok (current, executed), stored) =
      mark_done refusal current.done current executed stored

  -- `run` on a checkpoint that was read, or was not
  run_from :
      (ℕ → Option String)
      → List WorkflowStep
      → Option Entry
      → Result WorkflowError Checkpoint
      → Result WorkflowError WorkflowSummary × Option Entry
  run_from disk steps stored (err error) = (err error, stored)
  run_from disk steps stored (ok current) =
      complete (disk (length steps)) (run_steps disk 0 steps current [] stored)

  -- `WorkflowRunner::run`; `disk i` is the error of the write after step `i`, and of the last write at
  -- the number of steps
  pub run :
      Bool
      → (ℕ → Option String)
      → List WorkflowStep
      → Option Entry
      → Result WorkflowError WorkflowSummary × Option Entry
  run readable disk steps stored =
      run_from disk steps stored
        (do current ← checkpoint readable stored; check_steps steps current.completed; ok current)
