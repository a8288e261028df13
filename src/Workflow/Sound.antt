-- ===== src/Workflow/Sound.antt =====
-- What the runner of crates/workflow/src/lib.rs stores and answers: receipts of a run of the steps.
pub mod Resume
use soverign_founder_os.Base.{
  ℕ, suc, ◌+◌, ◌≤◌, ◌<◌, ◌≡◌, ◌⊎◌, inl, inr, refl, sym, ap, ◌∙◌, subst, String, Bool, true, false,
  Option, some, none, List, [], ◌∷◌, ◌++◌, Result, ok, err, arith, ltb, length, length-append,
  Option-cases, >>=-eq-ok, Bool-cases, ◌>>=◌, ◌>>◌, reject, require_eq, ok_or, string_eq, ◌==◌,
  if◌then◌else◌,
}
use text.Mathlib.TextEquality.{eq_iff}
use soverign_founder_os.Base.Text.{Bytes}
use soverign_founder_os.Base.Files.{Entry, file, special}
use soverign_founder_os.Workflow.{
  Formats, Checkpoint, StepReceipt, WorkflowStep, WorkflowError, WorkflowSummary, empty,
  check_steps, checkpoint, persist_bytes, persist, receipt, pushed, keep, record_step, run_step,
  continue, run_steps, summary, mark, complete, run_from, run,
}

module _ (f : Formats) (workflow_id : String) where
  -- From receipts, some of the steps ran one after the other, each on the receipts before it, and
  -- left the other receipts.
  abbrev pub IsRun : List StepReceipt → List WorkflowStep → List StepReceipt → Type 0
  IsRun prior [] receipts = prior ≡ receipts
  IsRun prior (step ∷ steps) receipts =
      (prior ≡ receipts)
      ⊎ ((output : Bytes) × (step.run (record { workflow_id = workflow_id; prior = prior })
            ≡ ok output)
          × IsRun (prior ++ receipt f workflow_id (length prior) step output ∷ []) steps receipts)

  IsRun-refl : (prior : List StepReceipt) (steps : List WorkflowStep) → IsRun prior steps prior
  IsRun-refl prior [] = refl
  IsRun-refl prior (step ∷ steps) = inl refl

  IsRun-length :
      (prior : List StepReceipt) (steps : List WorkflowStep) (receipts : List StepReceipt)
      → IsRun prior steps receipts
      → length prior ≤ length receipts
  IsRun-length prior [] receipts same = ground (arith, same)
  IsRun-length prior (step ∷ steps) receipts (inl same) = ground (arith, same)
  IsRun-length prior (step ∷ steps) receipts (inr (output, ran, rest)) = omega (
    arith,
    IsRun-length (prior ++ receipt f workflow_id (length prior) step output ∷ []) steps receipts
        rest,
    length-append prior (receipt f workflow_id (length prior) step output ∷ []),
  )

  module _ (all : List WorkflowStep) where
    -- What is stored, where it can be read at all, is a checkpoint of this workflow whose receipts
    -- are those of a run of the first steps.
    abbrev pub IsStored : Option Entry → Type 0
    IsStored none = Unit
    IsStored (some special) = Unit
    IsStored (some (file bytes)) =
        (current : Checkpoint) × (f.from_slice bytes ≡ some current)
        × (current.workflow_id ≡ workflow_id)
        × IsRun [] all current.completed

    abbrev Ends : ℕ → Result WorkflowError (Checkpoint × List ℕ) → Type 0
    Ends n (err error) = Unit
    Ends n (ok (current, executed)) =
        (current.workflow_id ≡ workflow_id)
        × IsRun [] all current.completed
        × (length current.completed ≡ n)

    abbrev IsGood : ℕ → Result WorkflowError (Checkpoint × List ℕ) × Option Entry → Type 0
    IsGood n (r, stored) = IsStored stored × Ends n r

    persist_bytes-IsStored :
        (refusal : Option String) (current : Checkpoint) (v : Result String Bytes)
        (stored : Option Entry)
        → f.to_vec current ≡ v
        → current.workflow_id ≡ workflow_id
        → IsRun [] all current.completed
        → IsStored stored
        → IsStored (persist_bytes f workflow_id refusal v stored).1
    unfolding persist_bytes
    persist_bytes-IsStored refusal current (err reason) stored e own ran before = before
    persist_bytes-IsStored (some reason) current (ok bytes) stored e own ran before = before
    persist_bytes-IsStored none current (ok bytes) stored e own ran before =
        (current, f.from-to current bytes e, own, ran)

    abbrev IsNext :
        ℕ
        → (Checkpoint
            → List ℕ
            → Option Entry
            → Result WorkflowError (Checkpoint × List ℕ) × Option Entry)
        → Result WorkflowError (Checkpoint × List ℕ) × Option Entry
        → Type 0
    IsNext n next (err error, stored) = IsStored stored
    IsNext n next (ok (current, executed), stored) = IsGood n (next current executed stored)

    continue-IsGood :
        (n : ℕ) (r : Result WorkflowError (Checkpoint × List ℕ) × Option Entry)
        (next : Checkpoint
          → List ℕ
          → Option Entry
          → Result WorkflowError (Checkpoint × List ℕ) × Option Entry)
        → IsNext n next r
        → IsGood n (continue f workflow_id r next)
    unfolding continue
    continue-IsGood n (err error, stored) next good = (good, tt)
    continue-IsGood n (ok (current, executed), stored) next good = good

    keep-IsNext :
        (n : ℕ) (current : Checkpoint) (executed : List ℕ)
        (p : Result WorkflowError (Unit {0}) × Option Entry)
        (next : Checkpoint
          → List ℕ
          → Option Entry
          → Result WorkflowError (Checkpoint × List ℕ) × Option Entry)
        → IsStored p.1
        → ((stored : Option Entry) → IsStored stored → IsGood n (next current executed stored))
        → IsNext n next (keep f workflow_id current executed p)
    unfolding keep
    keep-IsNext n current executed (err error, stored) next before good = before
    keep-IsNext n current executed (ok _, stored) next before good = good stored before

    record_step-IsNext :
        (n index : ℕ) (refusal : Option String) (step : WorkflowStep) (current : Checkpoint)
        (executed : List ℕ) (stored : Option Entry) (v : Result String Bytes)
        (next : Checkpoint
          → List ℕ
          → Option Entry
          → Result WorkflowError (Checkpoint × List ℕ) × Option Entry)
        → current.workflow_id ≡ workflow_id
        → IsStored stored
        → ((output : Bytes)
            → v ≡ ok output
            → let later = pushed f workflow_id current (receipt f workflow_id index step output) in
              IsRun [] all later.completed
              × ((s : Option Entry)
                  → IsStored s
                  → IsGood n (next later (executed ++ index ∷ []) s)))
        → IsNext n next (record_step f workflow_id refusal index step current executed stored v)
    unfolding record_step persist pushed
    record_step-IsNext n index refusal step current executed stored (err reason) next own before
          later =
        before
    record_step-IsNext n index refusal step current executed stored (ok output) next own before
          later =
        let after = pushed f workflow_id current (receipt f workflow_id index step output) in
        let (ran, good) = later output refl in
        keep-IsNext n after (executed ++ index ∷ []) _ next
          (persist_bytes-IsStored refusal after (f.to_vec after) stored refl own ran before) good

    run_steps-IsGood :
        (disk : ℕ → Option String) (n index : ℕ) (prior : List StepReceipt)
        (steps : List WorkflowStep) (current : Checkpoint) (executed : List ℕ)
        (stored : Option Entry)
        → length prior ≡ index
        → index + length steps ≡ n
        → IsRun prior steps current.completed
        → ((x : List StepReceipt) → IsRun prior steps x → IsRun [] all x)
        → current.workflow_id ≡ workflow_id
        → IsStored stored
        → IsGood n (run_steps f workflow_id disk index steps current executed stored)
    unfolding run_steps run_step continue pushed
    run_steps-IsGood disk n index prior [] current executed stored at total same whole own before =
        (before, (own, whole current.completed same, ground (arith, same, at, total)))
    run_steps-IsGood disk n index prior (step ∷ steps) current executed stored at total
          (inr (output, ran, rest)) whole own before =
        let entry = receipt f workflow_id (length prior) step output in
        let longer : length (prior ++ entry ∷ []) ≡ suc index =
          omega (arith, at, length-append prior (entry ∷ [])) in
        let below : ltb index (length current.completed) ≡ true =
          ground (arith, longer, IsRun-length (prior ++ entry ∷ []) steps current.completed rest) in
        subst
          (λ b. IsGood n (
            continue f workflow_id
              (run_step f workflow_id (disk index) index step current executed stored b)
              (run_steps f workflow_id disk (suc index) steps)))
          (sym below)
          (run_steps-IsGood disk n (suc index) (prior ++ entry ∷ []) steps current executed stored
            longer (omega (arith, total)) rest (λ x r. whole x (inr (output, ran, r))) own before)
    run_steps-IsGood disk n index prior (step ∷ steps) current executed stored at total (inl same)
          whole own before =
        let above : ltb index (length current.completed) ≡ false = ground (arith, at, same) in
        subst
          (λ b. IsGood n (
            continue f workflow_id
              (run_step f workflow_id (disk index) index step current executed stored b)
              (run_steps f workflow_id disk (suc index) steps)))
          (sym above)
          (continue-IsGood n _ (run_steps f workflow_id disk (suc index) steps) (
            record_step-IsNext n index (disk index) step current executed stored _
              (run_steps f workflow_id disk (suc index) steps) own before
              (λ output ran.
                let entry = receipt f workflow_id index step output in
                let one : (x : List StepReceipt)
                    → IsRun (current.completed ++ entry ∷ []) steps x
                    → IsRun [] all x =
                  λ x r. whole x (inr (output, rw same ran, rw (at, same) r)) in
                (
                  one (current.completed ++ entry ∷ [])
                      (IsRun-refl (current.completed ++ entry ∷ []) steps),
                  λ s kept.
                      run_steps-IsGood disk n (suc index) (current.completed ++ entry ∷ []) steps
                        (pushed f workflow_id current entry) (executed ++ index ∷ []) s
                        (omega
                          (arith, at, ap length same, length-append current.completed (entry ∷ [])))
                        (omega (arith, total)) (IsRun-refl (current.completed ++ entry ∷ []) steps)
                        one own kept,
                ))))
