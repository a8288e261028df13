-- ===== src/Workflow/Fresh.antt =====
-- The indexes of the steps that a run of crates/workflow/src/lib.rs executes.
pub mod Repeats
use soverign_founder_os.Base.{
  ℕ, suc, ◌≤◌, ◌≡◌, refl, sym, String, Bool, true, false, Option, List, [], ◌∷◌, ◌++◌, All, Result,
  ok, err, arith, ltb, length, length-append, ◌>>=◌,
}
use soverign_founder_os.Base.Text.{Bytes}
use soverign_founder_os.Base.Files.{Entry}
use soverign_founder_os.Workflow.{
  Formats, Checkpoint, WorkflowStep, WorkflowError, WorkflowSummary, check_steps, checkpoint,
  receipt, pushed, keep, record_step, run_step, continue, run_steps, summary, mark, mark_done,
  complete, run_from, run,
}

All-snoc :
    (base i : ℕ) (is : List ℕ)
    → All (λ k. base ≤ k) is
    → base ≤ i
    → All (λ k. base ≤ k) (is ++ i ∷ [])
All-snoc base i [] before h = (h, tt)
All-snoc base i (k ∷ is) before h = (before.0, All-snoc base i is before.1 h)

module _ (f : Formats) (workflow_id : String) (base : ℕ) where
  -- the invariant of the loop
  abbrev IsFresh : Result WorkflowError (Checkpoint × List ℕ) → Type 0
  IsFresh (err error) = Unit
  IsFresh (ok (current, executed)) =
      (base ≤ length current.completed) × All (λ i. base ≤ i) executed

  keep-IsFresh :
      (current : Checkpoint) (executed : List ℕ)
      (p : Result WorkflowError (Unit {0}) × Option Entry)
      → base ≤ length current.completed
      → All (λ i. base ≤ i) executed
      → IsFresh (keep f workflow_id current executed p).0
  unfolding keep
  keep-IsFresh current executed (err error, stored) long fresh = tt
  keep-IsFresh current executed (ok _, stored) long fresh = (long, fresh)

  record_step-IsFresh :
      (refusal : Option String) (index : ℕ) (step : WorkflowStep) (current : Checkpoint)
      (executed : List ℕ) (stored : Option Entry) (v : Result String Bytes)
      → base ≤ index
      → base ≤ length current.completed
      → All (λ i. base ≤ i) executed
      → IsFresh (record_step f workflow_id refusal index step current executed stored v).0
  unfolding record_step pushed
  record_step-IsFresh refusal index step current executed stored (err reason) late long fresh = tt
  record_step-IsFresh refusal index step current executed stored (ok output) late long fresh =
      let entry = receipt f workflow_id index step output in
      keep-IsFresh (pushed f workflow_id current entry) (executed ++ index ∷ []) _
        (omega (arith, long, length-append current.completed (entry ∷ [])))
        (All-snoc base index executed fresh late)

  run_step-IsFresh :
      (refusal : Option String) (index : ℕ) (step : WorkflowStep) (current : Checkpoint)
      (executed : List ℕ) (stored : Option Entry) (skip : Bool)
      → ltb index (length current.completed) ≡ skip
      → base ≤ length current.completed
      → All (λ i. base ≤ i) executed
      → IsFresh (run_step f workflow_id refusal index step current executed stored skip).0
  unfolding run_step
  run_step-IsFresh refusal index step current executed stored true e long fresh = (long, fresh)
  run_step-IsFresh refusal index step current executed stored false e long fresh =
      record_step-IsFresh refusal index step current executed stored _ (ground (arith, e, long))
        long fresh

  continue-IsFresh :
      (p : Result WorkflowError (Checkpoint × List ℕ) × Option Entry)
      (next : Checkpoint
        → List ℕ
        → Option Entry
        → Result WorkflowError (Checkpoint × List ℕ) × Option Entry)
      → IsFresh p.0
      → ((current : Checkpoint) (executed : List ℕ) (stored : Option Entry)
          → base ≤ length current.completed
          → All (λ i. base ≤ i) executed
          → IsFresh (next current executed stored).0)
      → IsFresh (continue f workflow_id p next).0
  unfolding continue
  continue-IsFresh (err error, stored) next good later = tt
  continue-IsFresh (ok (current, executed), stored) next (long, fresh) later =
      later current executed stored long fresh

  run_steps-IsFresh :
      (disk : ℕ → Option String) (index : ℕ) (steps : List WorkflowStep) (current : Checkpoint)
      (executed : List ℕ) (stored : Option Entry)
      → base ≤ length current.completed
      → All (λ i. base ≤ i) executed
      → IsFresh (run_steps f workflow_id disk index steps current executed stored).0
  unfolding run_steps
  run_steps-IsFresh disk index [] current executed stored long fresh = (long, fresh)
  run_steps-IsFresh disk index (step ∷ steps) current executed stored long fresh =
      continue-IsFresh _ (run_steps f workflow_id disk (suc index) steps)
        (run_step-IsFresh (disk index) index step current executed stored _ refl long fresh)
        (run_steps-IsFresh disk (suc index) steps)

  abbrev IsNew : Result WorkflowError WorkflowSummary → Type 0
  IsNew (err error) = Unit
  IsNew (ok s) = All (λ i. base ≤ i) s.executed_now

  mark-IsNew :
      (current : Checkpoint) (executed : List ℕ)
      (p : Result WorkflowError (Unit {0}) × Option Entry)
      → All (λ i. base ≤ i) executed
      → IsNew (mark f workflow_id current executed p).0
  unfolding mark summary
  mark-IsNew current executed (err error, stored) fresh = tt
  mark-IsNew current executed (ok _, stored) fresh = fresh

  mark_done-IsNew :
      (refusal : Option String) (marked : Bool) (current : Checkpoint) (executed : List ℕ)
      (stored : Option Entry)
      → All (λ i. base ≤ i) executed
      → IsNew (mark_done f workflow_id refusal marked current executed stored).0
  unfolding mark_done summary
  mark_done-IsNew refusal true current executed stored fresh = fresh
  mark_done-IsNew refusal false current executed stored fresh = mark-IsNew current executed _ fresh

  complete-IsNew :
      (refusal : Option String) (p : Result WorkflowError (Checkpoint × List ℕ) × Option Entry)
      → IsFresh p.0
      → IsNew (complete f workflow_id refusal p).0
  unfolding complete
  complete-IsNew refusal (err error, stored) good = tt
  complete-IsNew refusal (ok (current, executed), stored) (long, fresh) =
      mark_done-IsNew refusal current.done current executed stored fresh
