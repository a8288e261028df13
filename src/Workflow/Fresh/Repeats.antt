-- ===== src/Workflow/Fresh/Repeats.antt =====
-- A run of crates/workflow/src/lib.rs does not depend on what the completed steps would do.
use mathlib.Core.Option.{some-injective}
use soverign_founder_os.Base.{
  ℕ, zero, suc, ◌+◌, ◌≤◌, ◌≡◌, ◌≢◌, refl, ap, ◌∙◌, subst, String, Bool, true, false, Option, some,
  none, List, [], ◌∷◌, ◌++◌, All, Result, ok, err, arith, ltb, length, any, get_elem?, inl, inr,
  Bool-cases, ◌==◌, nat_eq, string_eq, ◌>>=◌, ◌>>◌, ok_or, require_eq,
}
use soverign_founder_os.Base.Text.{Bytes}
use soverign_founder_os.Base.Files.{Entry}
use soverign_founder_os.Workflow.{
  Formats, Checkpoint, StepContext, StepReceipt, WorkflowStep, WorkflowError, step_divergence,
  WorkflowSummary, check_receipts, check_steps, checkpoint, receipt, run_step, continue, run_steps,
  complete, run_from, run,
}
use soverign_founder_os.Workflow.Sound.{IsRun}
use soverign_founder_os.Workflow.Sound.Resume.{after_attempts, after_attempts-IsStored, loaded}
use soverign_founder_os.Workflow.Fresh.{
  IsFresh, IsNew, run_step-IsFresh, run_steps-IsFresh, complete-IsNew,
}

-- one of the receipts is of the step at the index
abbrev pub has_receipt : List StepReceipt → ℕ → Bool
has_receipt receipts i = any (λ (r : StepReceipt). r.index == i) receipts

-- what steps do, by their index
abbrev pub Runs : Type 0
Runs = ℕ → StepContext → Result String Bytes

abbrev pub replaced_step : Bool → (StepContext → Result String Bytes) → WorkflowStep → WorkflowStep
replaced_step true other step = record step { run = other }
replaced_step false other step = step

-- The steps, where each one that has a receipt does something else; `i` is the index of the first.
abbrev pub replaced : List StepReceipt → Runs → ℕ → List WorkflowStep → List WorkflowStep
replaced receipts other i [] = []
replaced receipts other i (step ∷ steps) =
    replaced_step (has_receipt receipts i) (other i) step ∷ replaced receipts other (suc i) steps

-- The receipts are of consecutive steps.
abbrev IsIndexed : ℕ → List StepReceipt → Type 0
IsIndexed k [] = Unit
IsIndexed k (r ∷ receipts) = (r.index ≡ k) × IsIndexed (suc k) receipts

IsIndexed-snoc :
    (k : ℕ) (receipts : List StepReceipt) (r : StepReceipt)
    → IsIndexed k receipts
    → r.index ≡ k + length receipts
    → IsIndexed k (receipts ++ r ∷ [])
IsIndexed-snoc k [] r before h = (omega (arith, h), tt)
IsIndexed-snoc k (x ∷ receipts) r before h =
    (before.0, IsIndexed-snoc (suc k) receipts r before.1 (omega (arith, h)))

has_receipt-before :
    (k i : ℕ) (receipts : List StepReceipt)
    → IsIndexed k receipts
    → k ≤ i
    → has_receipt receipts i ≡ ltb i (k + length receipts)
has_receipt-before k i [] at from = ground arith
has_receipt-before k i (r ∷ receipts) at from = elim (Bool-cases (r.index == i)) [
  | inl here ↦ ground (arith, here, at.0)
  | inr there ↦
      let later : suc k ≤ i = ground (arith, there, at.0) in
      ground (arith, there, has_receipt-before (suc k) i receipts at.1 later)
]

later-new :
    (k i : ℕ) (receipts : List StepReceipt)
    → IsIndexed k receipts
    → k + length receipts ≤ i
    → All (λ r. r.index ≢ i) receipts
later-new k i [] at late = tt
later-new k i (r ∷ receipts) at late = (
  λ same. omega (arith, same, at.0, late),
  later-new (suc k) i receipts at.1 (omega (arith, late)),
)

module _ (f : Formats) (workflow_id : String) where
  IsRun-IsIndexed :
      (prior : List StepReceipt) (steps : List WorkflowStep) (receipts : List StepReceipt)
      → IsIndexed 0 prior
      → IsRun f workflow_id prior steps receipts
      → IsIndexed 0 receipts
  IsRun-IsIndexed prior [] receipts at same = subst (IsIndexed 0) same at
  IsRun-IsIndexed prior (step ∷ steps) receipts at (inl same) = subst (IsIndexed 0) same at
  IsRun-IsIndexed prior (step ∷ steps) receipts at (inr (output, ran, rest)) =
      let entry = receipt f workflow_id (length prior) step output in
      IsRun-IsIndexed (prior ++ entry ∷ []) steps receipts
        (IsIndexed-snoc 0 prior entry at (omega arith)) rest

  -- the name of a declared step
  name_of : Option WorkflowStep → Option String
  name_of none = none
  name_of (some step) = some step.name

  replaced_step-name :
      (b : Bool) (other : StepContext → Result String Bytes) (step : WorkflowStep)
      → (replaced_step b other step).name ≡ step.name
  replaced_step-name true other step = refl
  replaced_step-name false other step = refl

  name_of-replaced :
      (receipts : List StepReceipt) (other : Runs) (i k : ℕ) (steps : List WorkflowStep)
      → name_of (get_elem? (replaced receipts other i steps) k) ≡ name_of (get_elem? steps k)
  unfolding name_of
  name_of-replaced receipts other i k [] = refl
  name_of-replaced receipts other i zero (step ∷ steps) =
      ap some (replaced_step-name (has_receipt receipts i) (other i) step)
  name_of-replaced receipts other i (suc k) (step ∷ steps) =
      name_of-replaced receipts other (suc i) k steps

  length-replaced :
      (receipts : List StepReceipt) (other : Runs) (i : ℕ) (steps : List WorkflowStep)
      → length (replaced receipts other i steps) ≡ length steps
  length-replaced receipts other i [] = refl
  length-replaced receipts other i (step ∷ steps) =
      ap suc (length-replaced receipts other (suc i) steps)

  -- the loop over the receipts sees the names only
  check_named :
      (x y : Option WorkflowStep) (receipt : StepReceipt)
      (rest rest' : Result WorkflowError (Unit {0}))
      → name_of x ≡ name_of y
      → rest ≡ rest'
      → ((do
        declared ← ok_or x (step_divergence "missing step index")
        require_eq declared.name receipt.name (step_divergence "step name changed")
        rest)
          ≡ (do
            declared ← ok_or y (step_divergence "missing step index")
            require_eq declared.name receipt.name (step_divergence "step name changed")
            rest'))
  unfolding name_of
  check_named none none receipt rest rest' h e = refl
  check_named none (some y) receipt rest rest' h e = absurd (cc)
  check_named (some x) none receipt rest rest' h e = absurd (cc)
  check_named (some x) (some y) receipt rest rest' h e =
      let named = some-injective x.name y.name h in
      λ i. (require_eq (named i) receipt.name (step_divergence "step name changed") >> e i)

  check_receipts-replaced :
      (done : List StepReceipt) (other : Runs) (steps : List WorkflowStep)
      (receipts : List StepReceipt)
      → check_receipts (replaced done other 0 steps) receipts ≡ check_receipts steps receipts
  unfolding check_receipts
  check_receipts-replaced done other steps [] = refl
  check_receipts-replaced done other steps (r ∷ receipts) =
      check_named (get_elem? (replaced done other 0 steps) r.index) (get_elem? steps r.index) r _ _
        (name_of-replaced done other 0 r.index steps)
        (check_receipts-replaced done other steps receipts)

  check_steps-replaced :
      (done : List StepReceipt) (other : Runs) (steps : List WorkflowStep)
      → check_steps (replaced done other 0 steps) done ≡ check_steps steps done
  unfolding check_steps
  check_steps-replaced done other steps =
      rw (length-replaced done other 0 steps)
        (rw (check_receipts-replaced done other steps done) refl)

  continue-same :
      (base : ℕ) (p : Result WorkflowError (Checkpoint × List ℕ) × Option Entry)
      (next next' : Checkpoint
        → List ℕ
        → Option Entry
        → Result WorkflowError (Checkpoint × List ℕ) × Option Entry)
      → IsFresh f workflow_id base p.0
      → ((current : Checkpoint) (executed : List ℕ) (stored : Option Entry)
          → base ≤ length current.completed
          → All (λ i. base ≤ i) executed
          → next current executed stored ≡ next' current executed stored)
      → continue f workflow_id p next ≡ continue f workflow_id p next'
  unfolding continue
  continue-same base (err error, stored) next next' fresh same = refl
  continue-same base (ok (current, executed), stored) next next' (long, fresh) same =
      same current executed stored long fresh

  run_step-replaced :
      (done : List StepReceipt) (other : Runs) (refusal : Option String) (index : ℕ)
      (step : WorkflowStep) (current : Checkpoint) (executed : List ℕ) (stored : Option Entry)
      → has_receipt done index ≡ ltb index (length done)
      → length done ≤ length current.completed
      → run_step f workflow_id refusal index
          (replaced_step (has_receipt done index) (other index) step)
          current
          executed
          stored
          (ltb index (length current.completed))
        ≡ run_step f workflow_id refusal index step current executed stored
            (ltb index (length current.completed))
  unfolding run_step
  run_step-replaced done other refusal index step current executed stored known long =
      elim (Bool-cases (ltb index (length done))) [
        | inl before ↦
            let skipped : ltb index (length current.completed) ≡ true =
              ground (arith, before, long) in
            rw skipped refl
        | inr late ↦ rw (known, late) refl
      ]

  run_steps-replaced :
      (disk : ℕ → Option String) (done : List StepReceipt) (other : Runs) (index : ℕ)
      (steps : List WorkflowStep) (current : Checkpoint) (executed : List ℕ) (stored : Option Entry)
      → ((i : ℕ) → has_receipt done i ≡ ltb i (length done))
      → length done ≤ length current.completed
      → All (λ i. length done ≤ i) executed
      → run_steps f workflow_id disk index (replaced done other index steps) current executed stored
        ≡ run_steps f workflow_id disk index steps current executed stored
  unfolding run_steps
  run_steps-replaced disk done other index [] current executed stored known long fresh = refl
  run_steps-replaced disk done other index (step ∷ steps) current executed stored known long fresh =
      ap
        (λ p.
          continue f workflow_id p
            (run_steps f workflow_id disk (suc index) (replaced done other (suc index) steps)))
        (run_step-replaced done other (disk index) index step current executed stored (known index)
          long)
      ∙ continue-same (length done) _ _ _
          (run_step-IsFresh f workflow_id (length done) (disk index) index step current executed
            stored _ refl long fresh)
          (λ current' executed' stored' long' fresh'.
            run_steps-replaced disk done other (suc index) steps current' executed' stored' known
              long' fresh')

  -- no reported index is that of a receipt
  abbrev pub IsFirst : List StepReceipt → Result WorkflowError WorkflowSummary → Type 0
  IsFirst receipts (err error) = Unit
  IsFirst receipts (ok s) = All (λ i. All (λ r. r.index ≢ i) receipts) s.executed_now

  late_new :
      (receipts : List StepReceipt) (is : List ℕ)
      → IsIndexed 0 receipts
      → All (λ i. length receipts ≤ i) is
      → All (λ i. All (λ r. r.index ≢ i) receipts) is
  late_new receipts [] at late = tt
  late_new receipts (i ∷ is) at late =
      (later-new 0 i receipts at (omega (arith, late.0)), late_new receipts is at late.1)

  IsNew-IsFirst :
      (receipts : List StepReceipt) (r : Result WorkflowError WorkflowSummary)
      → IsIndexed 0 receipts
      → IsNew f workflow_id (length receipts) r
      → IsFirst receipts r
  IsNew-IsFirst receipts (err error) at new = tt
  IsNew-IsFirst receipts (ok s) at new = late_new receipts s.executed_now at new

  module _ (disk : ℕ → Option String) (steps : List WorkflowStep) (stored : Option Entry)
      (found : Checkpoint) (at : IsIndexed 0 found.completed) where
    run_from-IsNew :
        (c : Result WorkflowError (Unit {0}))
        → IsNew f workflow_id
            (length found.completed)
            (run_from f workflow_id disk steps stored (c >>= λ _. ok found)).0
    unfolding run_from
    run_from-IsNew (err error) = tt
    run_from-IsNew (ok _) =
        complete-IsNew f workflow_id (length found.completed) (disk (length steps)) _ (
          run_steps-IsFresh f workflow_id (length found.completed) disk 0 steps found [] stored
            (omega arith) tt)

    run_from-replaced :
        (other : Runs) (c : Result WorkflowError (Unit {0}))
        → run_from f workflow_id disk
            (replaced found.completed other 0 steps)
            stored
            (c >>= λ _. ok found)
          ≡ run_from f workflow_id disk steps stored (c >>= λ _. ok found)
    unfolding run_from
    run_from-replaced other (err error) = refl
    run_from-replaced other (ok _) =
        let total = length-replaced found.completed other 0 steps in
        let ran =
          run_steps-replaced disk found.completed other 0 steps found [] stored
            (λ i.
              has_receipt-before 0 i found.completed at (omega arith) ∙ ap (ltb i) (omega arith))
            (omega arith) tt in
        λ i. complete f workflow_id (disk (total i)) (ran i)

  -- On what any attempts to run the same steps from an empty directory left, each of which may have
  -- failed at any step or write, a run does not call a step that the checkpoint has a receipt for:
  -- whatever all of these steps would do instead, with their names kept, the answer and what is stored
  -- are the same, where the run fails, too. And no index that a run that succeeds reports as executed
  -- is that of a receipt.
  pub never_repeats :
      (steps : List WorkflowStep) (attempts : List (Bool × (ℕ → Option String))) (readable : Bool)
      (disk : ℕ → Option String) (other : Runs) {found : Checkpoint}
      → checkpoint f workflow_id readable (after_attempts f workflow_id steps attempts none)
        ≡ ok found
      → (run f workflow_id readable disk
            (replaced found.completed other 0 steps)
            (after_attempts f workflow_id steps attempts none)
          ≡ run f workflow_id readable disk steps
              (after_attempts f workflow_id steps attempts none))
        × IsFirst found.completed (
            (run f workflow_id readable disk steps
              (after_attempts f workflow_id steps attempts none)).0)
  unfolding run
  never_repeats steps attempts readable disk other {found} read =
      let stored = after_attempts f workflow_id steps attempts none in
      let (_, ran) =
        loaded f workflow_id steps readable stored
          (after_attempts-IsStored f workflow_id steps attempts none tt) read in
      let at = IsRun-IsIndexed [] steps found.completed tt ran in
      (
        rw read (
            ap
              (λ c.
                run_from f workflow_id disk (replaced found.completed other 0 steps) stored
                  (c >>= λ _. ok found))
              (check_steps-replaced found.completed other steps)
            ∙ run_from-replaced disk steps stored found at other
                (check_steps steps found.completed)),
        rw read (
            IsNew-IsFirst found.completed _ at
              (run_from-IsNew disk steps stored found at (check_steps steps found.completed))),
      )
