-- ===== src/Workflow/Sound/Resume.antt =====
-- What resuming a workflow of crates/workflow/src/lib.rs comes to, after any attempts.
use soverign_founder_os.Base.{
  ℕ, ◌≡◌, inl, inr, refl, sym, ap, ◌∙◌, subst, String, Bool, true, false, Option, some, none, List,
  [], ◌∷◌, ◌++◌, Result, ok, err, arith, length, length-append, >>=-eq-ok, string_eq,
}
use soverign_founder_os.Base.Files.{Entry, file, special}
use soverign_founder_os.Workflow.{
  Formats, Checkpoint, StepReceipt, WorkflowStep, WorkflowError, WorkflowSummary, empty, checkpoint,
  persist, receipt, summary, mark, mark_done, complete, run_from, run,
}
use soverign_founder_os.Workflow.Sound.{
  IsRun, IsRun-refl, IsRun-length, IsStored, IsGood, persist_bytes-IsStored, run_steps-IsGood,
}

module _ (f : Formats) (workflow_id : String) (all : List WorkflowStep) where
  -- An answer with a summary has the receipts of a run of all the steps.
  abbrev pub IsFinished : Result WorkflowError WorkflowSummary → Type 0
  IsFinished (err error) = Unit
  IsFinished (ok s) = IsRun f workflow_id [] all s.receipts × (length s.receipts ≡ length all)

  abbrev pub IsSound : Result WorkflowError WorkflowSummary × Option Entry → Type 0
  IsSound (r, stored) = IsStored f workflow_id all stored × IsFinished r

  mark-IsSound :
      (current : Checkpoint) (executed : List ℕ)
      (p : Result WorkflowError (Unit {0}) × Option Entry)
      → IsRun f workflow_id [] all current.completed
      → length current.completed ≡ length all
      → IsStored f workflow_id all p.1
      → IsSound (mark f workflow_id current executed p)
  unfolding mark summary
  mark-IsSound current executed (err error, stored) ran total before = (before, tt)
  mark-IsSound current executed (ok _, stored) ran total before = (before, (ran, total))

  mark_done-IsSound :
      (refusal : Option String) (marked : Bool) (current : Checkpoint) (executed : List ℕ)
      (stored : Option Entry)
      → current.workflow_id ≡ workflow_id
      → IsRun f workflow_id [] all current.completed
      → length current.completed ≡ length all
      → IsStored f workflow_id all stored
      → IsSound (mark_done f workflow_id refusal marked current executed stored)
  unfolding mark_done persist summary
  mark_done-IsSound refusal true current executed stored own ran total before =
      (before, (ran, total))
  mark_done-IsSound refusal false current executed stored own ran total before =
      let last : Checkpoint = record current { done = true } in
      mark-IsSound current executed (persist f workflow_id refusal last stored) ran total (
        persist_bytes-IsStored f workflow_id all refusal last (f.to_vec last) stored refl own ran
          before)

  complete-IsSound :
      (refusal : Option String) (p : Result WorkflowError (Checkpoint × List ℕ) × Option Entry)
      → IsGood f workflow_id all (length all) p
      → IsSound (complete f workflow_id refusal p)
  unfolding complete
  complete-IsSound refusal (err error, stored) (before, _) = (before, tt)
  complete-IsSound refusal (ok (current, executed), stored) (before, (own, ran, total)) =
      mark_done-IsSound refusal current.done current executed stored own ran total before

  pub loaded :
      (readable : Bool) (stored : Option Entry) {current : Checkpoint}
      → IsStored f workflow_id all stored
      → checkpoint f workflow_id readable stored ≡ ok current
      → (current.workflow_id ≡ workflow_id) × IsRun f workflow_id [] all current.completed
  unfolding checkpoint
  loaded readable none {current} before h =
      let same : empty workflow_id ≡ current = cc in
      rw (sym same) (refl, IsRun-refl f workflow_id [] all)
  loaded readable (some special) before h = absurd (ground arith)
  loaded readable (some (file bytes)) {current} (found, parsed, own, ran) h =
      let same : found ≡ current = ground arith in rw (sym same) (own, ran)

  run_from-IsSound :
      (disk : ℕ → Option String) (stored : Option Entry) (v : Result WorkflowError Checkpoint)
      → IsStored f workflow_id all stored
      → ((current : Checkpoint)
          → v ≡ ok current
          → (current.workflow_id ≡ workflow_id) × IsRun f workflow_id [] all current.completed)
      → IsSound (run_from f workflow_id disk all stored v)
  unfolding run_from
  run_from-IsSound disk stored (err error) before good = (before, tt)
  run_from-IsSound disk stored (ok current) before good =
      let (own, ran) = good current refl in
      complete-IsSound (disk (length all)) _ (
        run_steps-IsGood f workflow_id all disk (length all) 0 [] all current [] stored refl
          (omega arith) ran (λ x r. r) own before)

  -- Where the checkpoint holds receipts of a run of the first steps, or there is none, a run leaves
  -- such a checkpoint, whether it succeeds or fails at a step or at a write; and the receipts of a
  -- run that succeeds are those of a run of all the steps.
  pub run-IsSound :
      (readable : Bool) (disk : ℕ → Option String) (stored : Option Entry)
      → IsStored f workflow_id all stored
      → IsSound (run f workflow_id readable disk all stored)
  unfolding run
  run-IsSound readable disk stored before = run_from-IsSound disk stored _ before (λ current h.
      let (found, read, rest) = >>=-eq-ok (checkpoint f workflow_id readable stored) _ h in
      let same : found ≡ current = ground arith in
      rw (sym same) (loaded readable stored before read))

  -- Attempts to run the steps, one after the other, on what is stored.
  unfoldable pub after_attempts : List (Bool × (ℕ → Option String)) → Option Entry → Option Entry
  after_attempts [] stored = stored
  after_attempts ((readable, disk) ∷ attempts) stored =
      after_attempts attempts (run f workflow_id readable disk all stored).1

  pub after_attempts-IsStored :
      (attempts : List (Bool × (ℕ → Option String))) (stored : Option Entry)
      → IsStored f workflow_id all stored
      → IsStored f workflow_id all (after_attempts attempts stored)
  unfolding after_attempts
  after_attempts-IsStored [] stored before = before
  after_attempts-IsStored ((readable, disk) ∷ attempts) stored before =
      after_attempts-IsStored attempts (run f workflow_id readable disk all stored).1
        (run-IsSound readable disk stored before).0

  same_run :
      (prior : List StepReceipt) (steps : List WorkflowStep) (x y : List StepReceipt)
      → IsRun f workflow_id prior steps x
      → IsRun f workflow_id prior steps y
      → length x ≡ length y
      → x ≡ y
  same_run prior [] x y p q e = sym p ∙ q
  same_run prior (step ∷ steps) x y (inl p) (inl q) e = sym p ∙ q
  same_run prior (step ∷ steps) x y (inl p) (inr (output, ran, q)) e =
      let entry = receipt f workflow_id (length prior) step output in
      absurd (
        ground (
          arith,
          ap length p,
          length-append prior (entry ∷ []),
          IsRun-length f workflow_id (prior ++ entry ∷ []) steps y q,
        ))
  same_run prior (step ∷ steps) x y (inr (output, ran, p)) (inl q) e =
      let entry = receipt f workflow_id (length prior) step output in
      absurd (
        ground (
          arith,
          ap length q,
          length-append prior (entry ∷ []),
          IsRun-length f workflow_id (prior ++ entry ∷ []) steps x p,
        ))
  same_run prior (step ∷ steps) x y (inr (output, ran, p)) (inr (output', ran', q)) e =
      let same : output' ≡ output = ground arith in
      same_run (prior ++ receipt f workflow_id (length prior) step output ∷ []) steps x y p
        (subst
          (λ o.
            IsRun f workflow_id (prior ++ receipt f workflow_id (length prior) step o ∷ []) steps y)
          same q)
        e

  finished :
      (r : Result WorkflowError WorkflowSummary) {s : WorkflowSummary}
      → r ≡ ok s
      → IsFinished r
      → IsRun f workflow_id [] all s.receipts × (length s.receipts ≡ length all)
  finished (err error) h done = absurd (ground arith)
  finished (ok s') {s} h done = let same : s' ≡ s = ground arith in rw (sym same) done

  -- After any attempts from an empty directory, each of which may fail at any step or write, a run
  -- that succeeds has the receipts of every run that succeeds without an interruption.
  pub resume_same :
      (attempts : List (Bool × (ℕ → Option String))) (readable readable' : Bool)
      (disk disk' : ℕ → Option String) {s s' : WorkflowSummary}
      → (run f workflow_id readable disk all (after_attempts attempts none)).0 ≡ ok s
      → (run f workflow_id readable' disk' all none).0 ≡ ok s'
      → s.receipts ≡ s'.receipts
  resume_same attempts readable readable' disk disk' {s} {s'} h h' =
      let (ran, total) =
        finished _ h (run-IsSound readable disk _ (after_attempts-IsStored attempts none tt)).1 in
      let (ran', total') = finished _ h' (run-IsSound readable' disk' none tt).1 in
      same_run [] all s.receipts s'.receipts ran ran' (total ∙ sym total')
