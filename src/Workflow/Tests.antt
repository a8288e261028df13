-- ===== src/Workflow/Tests.antt =====
-- The theorems on crates/workflow/src/lib.rs at a concrete workflow of two steps.
use soverign_founder_os.Base.{
  ℕ, ◌≡◌, refl, ap, ◌∙◌, String, Bool, true, false, Option, some, none, List, [], ◌∷◌, Result, ok,
  err, ◌++◌, length, ◌==◌, nat_eq, if◌then◌else◌,
}
use soverign_founder_os.Base.Text.{Bytes, codes}
use soverign_founder_os.Base.Files.{Entry, file}
use soverign_founder_os.External.Toy.Text.{of_codes, of_codes-codes}
use soverign_founder_os.External.Toy.Fields.{
  number_of, write_fields, read_fields, read_fields-write_fields,
}
use soverign_founder_os.Workflow.{
  Formats, Checkpoint, StepReceipt, WorkflowStep, checkpoint, check_steps, check_receipts,
  persist_bytes, persist, pushed, keep, record_step, run_step, continue, run_steps, summary, mark,
  mark_done, complete, run_from, run, receipt,
}
use soverign_founder_os.Workflow.Fresh.Repeats.{replaced, IsFirst, never_repeats}
use soverign_founder_os.Workflow.Sound.Resume.{IsSound, run-IsSound, after_attempts, resume_same}

abbrev receipt_fields : List StepReceipt → List Bytes
receipt_fields [] = []
receipt_fields (r ∷ receipts) =
    (r.index ∷ [])
    ∷ codes r.name
    ∷ (r.idempotency_key ∷ [])
    ∷ codes r.output_digest_hex
    ∷ receipt_fields receipts

abbrev receipts_of : List Bytes → List StepReceipt
receipts_of (a ∷ b ∷ c ∷ d ∷ fields) =
    record {
      index = number_of a;
      name = of_codes b;
      idempotency_key = number_of c;
      output_digest_hex = of_codes d;
    }
    ∷ receipts_of fields
receipts_of _ = []

receipts_of-receipt_fields :
    (receipts : List StepReceipt) → receipts_of (receipt_fields receipts) ≡ receipts
receipts_of-receipt_fields [] = refl
receipts_of-receipt_fields (r ∷ receipts) =
    let rest = receipts_of-receipt_fields receipts in
    λ i.
      record {
        index = r.index;
        name = of_codes-codes r.name i;
        idempotency_key = r.idempotency_key;
        output_digest_hex = of_codes-codes r.output_digest_hex i;
      }
      ∷ rest i

abbrev bool_bytes : Bool → Bytes
bool_bytes true = 1 ∷ []
bool_bytes false = []

abbrev bool_of : Bytes → Bool
bool_of [] = false
bool_of (_ ∷ _) = true

bool_of-bool_bytes : (b : Bool) → bool_of (bool_bytes b) ≡ b
bool_of-bool_bytes true = refl
bool_of-bool_bytes false = refl

abbrev fields : Checkpoint → List Bytes
fields x = codes x.workflow_id ∷ bool_bytes x.done ∷ receipt_fields x.completed

abbrev checkpoint_of : List Bytes → Option Checkpoint
checkpoint_of (a ∷ b ∷ rest) =
    some (record { workflow_id = of_codes a; completed = receipts_of rest; done = bool_of b })
checkpoint_of _ = none

checkpoint_of-fields : (x : Checkpoint) → checkpoint_of (fields x) ≡ some x
checkpoint_of-fields x = λ i. some (record {
  workflow_id = of_codes-codes x.workflow_id i;
  completed = receipts_of-receipt_fields x.completed i;
  done = bool_of-bool_bytes x.done i;
})

abbrev to_vec : Checkpoint → Result String Bytes
to_vec x = ok (write_fields (fields x))

read_back : (x : Checkpoint) (b : Bytes) → to_vec x ≡ ok b → checkpoint_of (read_fields b) ≡ some x
read_back x b h =
    let same : b ≡ write_fields (fields x) = cc in
    ap (λ (c : Bytes). checkpoint_of (read_fields c)) same
    ∙ ap checkpoint_of (read_fields-write_fields (fields x))
    ∙ checkpoint_of-fields x

abbrev toy_formats : Formats
toy_formats = record {
  to_vec = to_vec;
  from_slice = λ b. checkpoint_of (read_fields b);
  digest_hex = λ b. "digest";
  step_idempotency_key = λ id index name. index;
  from-to = read_back;
}

abbrev step : String → WorkflowStep
step name = record { name = name; run = λ context. ok (length context.prior ∷ []) }

abbrev steps : List WorkflowStep
steps = step "draft" ∷ step "send" ∷ []

abbrev healthy : ℕ → Option String
healthy i = none

-- The write after the second step fails.
abbrev failing : ℕ → Option String
failing i = if i == 1 then some "disk full" else none

abbrev both : List StepReceipt
both =
    receipt toy_formats "w" 0 (step "draft") (0 ∷ [])
    ∷ receipt toy_formats "w" 1 (step "send") (1 ∷ [])
    ∷ []

abbrev stored_one : Option Entry
stored_one = some (
    file (
      write_fields (
        fields (record {
          workflow_id = "w";
          completed = receipt toy_formats "w" 0 (step "draft") (0 ∷ []) ∷ [];
          done = false;
        }))))

interrupted : (run toy_formats "w" true failing steps none).1 ≡ stored_one
unfolding run run_from checkpoint check_steps check_receipts run_steps run_step continue record_step
    keep pushed persist persist_bytes complete mark_done mark summary
interrupted = refl

resumed :
    (run toy_formats "w" true healthy steps stored_one).0
    ≡ ok (record { workflow_id = "w"; receipts = both; executed_now = 1 ∷ [] })
unfolding run run_from checkpoint check_steps check_receipts run_steps run_step continue record_step
    keep pushed persist persist_bytes complete mark_done mark summary
resumed = refl

straight :
    (run toy_formats "w" true healthy steps none).0
    ≡ ok (record { workflow_id = "w"; receipts = both; executed_now = 0 ∷ 1 ∷ [] })
unfolding run run_from checkpoint check_steps check_receipts run_steps run_step continue record_step
    keep pushed persist persist_bytes complete mark_done mark summary
straight = refl

abbrev one_done : Checkpoint
one_done = record {
  workflow_id = "w";
  completed = receipt toy_formats "w" 0 (step "draft") (0 ∷ []) ∷ [];
  done = false;
}

found_one : checkpoint toy_formats "w" true stored_one ≡ ok one_done
unfolding checkpoint
found_one = refl

run-IsSound_example : IsSound toy_formats "w" steps (run toy_formats "w" true failing steps none)
run-IsSound_example = run-IsSound toy_formats "w" steps true failing none tt

-- what the failed attempt left
abbrev left : Option Entry
left = after_attempts toy_formats "w" steps ((true, failing) ∷ []) none

found_left : checkpoint toy_formats "w" true left ≡ ok one_done
unfolding after_attempts
found_left = ap (checkpoint toy_formats "w" true) interrupted ∙ found_one

-- The first step would fail now.
never_repeats_example :
    (run toy_formats "w" true healthy
        (replaced one_done.completed (λ i c. err "again") 0 steps)
        left
      ≡ run toy_formats "w" true healthy steps left)
    × IsFirst toy_formats "w" one_done.completed ((run toy_formats "w" true healthy steps left).0)
never_repeats_example =
    never_repeats toy_formats "w" steps ((true, failing) ∷ []) true healthy (λ i c. err "again")
      found_left

-- a receipt of the second step alone passes the guards, and that step runs again
abbrev stray : Checkpoint
stray = record {
  workflow_id = "w";
  completed = receipt toy_formats "w" 1 (step "send") (0 ∷ []) ∷ [];
  done = false;
}

stray_repeats :
    (run toy_formats "w" true healthy steps (some (file (write_fields (fields stray))))).0
    ≡ ok (record {
      workflow_id = "w";
      receipts = stray.completed ++ receipt toy_formats "w" 1 (step "send") (1 ∷ []) ∷ [];
      executed_now = 1 ∷ [];
    })
unfolding run run_from checkpoint check_steps check_receipts run_steps run_step continue record_step
    keep pushed persist persist_bytes complete mark_done mark summary
stray_repeats = refl

resumed_after :
    (run toy_formats "w" true healthy steps
      (after_attempts toy_formats "w" steps ((true, failing) ∷ []) none)).0
    ≡ ok (record { workflow_id = "w"; receipts = both; executed_now = 1 ∷ [] })
unfolding after_attempts
resumed_after = ap (λ s. (run toy_formats "w" true healthy steps s).0) interrupted ∙ resumed

resume_same_example : both ≡ both
resume_same_example =
    resume_same toy_formats "w" steps ((true, failing) ∷ []) true true healthy healthy resumed_after
      straight
