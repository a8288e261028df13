-- ===== src/Journal/Recovery/Verdict.antt =====
-- What a recovery reads once the verdict of an execution has been written, or has not, in
-- crates/execution/src/lib.rs.
use mathlib.Core.List.{append_assoc}
use soverign_founder_os.Base.{
  ◌≤◌, ◌≡◌, refl, sym, ap, subst, ◌∙◌, append-nil, take-prefix, String, Bool, true, false, ◌⊎◌, inl,
  inr, Option, some, none, [], ◌∷◌, ◌++◌, Result, ok, err, map_err, le→ltb-false, length,
  Bool-cases, string_eq,
}
use soverign_founder_os.Base.Files.{file}
use soverign_founder_os.Base.Text.{Bytes, is_utf8, lines}
use soverign_founder_os.Journal.{
  max_journal_bytes, JournalError, corrupt_record, unavailable, ExecutionIntent, ExecutionOutcome,
  ExecutionState, RecoveredExecution, terminal, Formats, Write, unopened, torn, unflushed, flushed,
  written, append_line, Reading, read_one, recovered, read_lines, read_execution, state_of,
}
use soverign_founder_os.Journal.Recovery.{
  read_text, read_text-written, reading_of, line_is_text, append_line_cases, Holds, before_verdict,
}

-- The bytes are no text, and are the beginning of one.
pub EndsInside : Bytes → Type 0
EndsInside content = (is_utf8 content ≡ false) × (rest : Bytes) × (is_utf8 (content ++ rest) ≡ true)

-- What a recovery may read from the content of a file: the verdict or the state before it, or else
-- the content ends inside a character, which is refused; and where the verdict was recorded without
-- an error, the verdict.
pub IsHonest :
    ExecutionIntent
    → Bool
    → ExecutionOutcome
    → Bytes
    → Result JournalError (Unit {0})
    → Result JournalError (Option RecoveredExecution)
    → Type 0
IsHonest intent starts outcome content returned read =
    (returned ≡ ok tt → read ≡ ok (some (record { intent = intent; state = state_of outcome })))
    × ((read ≡ ok (some (record { intent = intent; state = before_verdict starts })))
        ⊎ (read ≡ ok (some (record { intent = intent; state = state_of outcome })))
        ⊎ ((read ≡ err corrupt_record) × EndsInside content))

pub map_err_ok : (r : Result String (Unit {0})) → map_err unavailable r ≡ ok tt → r ≡ ok tt
map_err_ok (ok tt) h = refl
map_err_ok (err reason) h = cc

module _ (f : Formats) where
  blank : Reading
  blank = record { intent = none; state = ExecutionState.indeterminate }

  -- a file that fits is read, unless it ends inside a character
  read_file :
      (bytes : Bytes)
      → length bytes ≤ max_journal_bytes
      → is_utf8 bytes ≡ true
      → read_execution f none (file bytes) ≡ ok (recovered (read_text f bytes blank))
  unfolding read_execution read_text blank
  read_file bytes fits valid = rw (le→ltb-false _ _ fits) (rw valid refl)

  read_bad_file :
      (bytes : Bytes)
      → length bytes ≤ max_journal_bytes
      → is_utf8 bytes ≡ false
      → read_execution f none (file bytes) ≡ err corrupt_record
  unfolding read_execution
  read_bad_file bytes fits invalid = rw (le→ltb-false _ _ fits) (rw invalid refl)

  written_is_text :
      (write : Write) (content b : Bytes)
      → is_utf8 content ≡ true
      → is_utf8 b ≡ true
      → (written write (b ++ (10 ∷ []))).0 ≡ ok tt
      → is_utf8 (content ++ (written write (b ++ (10 ∷ []))).1) ≡ true
  unfolding written
  written_is_text (unopened reason) content b h k e = cc
  written_is_text (torn count reason) content b h k e = cc
  written_is_text (unflushed reason) content b h k e = cc
  written_is_text flushed content b h k e = line_is_text f content b h k

  -- what a write leaves out would complete the line
  written_rest :
      (write : Write) (line : Bytes) → (rest : Bytes) × ((written write line).1 ++ rest ≡ line)
  unfolding written
  written_rest (unopened reason) line = (line, refl)
  written_rest (torn count reason) line = take-prefix count line
  written_rest (unflushed reason) line = ([], append-nil line)
  written_rest flushed line = ([], append-nil line)

  written-EndsInside :
      (write : Write) (content b : Bytes)
      → is_utf8 content ≡ true
      → is_utf8 b ≡ true
      → is_utf8 (content ++ (written write (b ++ (10 ∷ []))).1) ≡ false
      → EndsInside (content ++ (written write (b ++ (10 ∷ []))).1)
  unfolding EndsInside
  written-EndsInside write content b h k invalid =
      let line = b ++ (10 ∷ []) in
      let (rest, whole) = written_rest write line in
      let completed : (content ++ (written write line).1) ++ rest ≡ content ++ line =
        append_assoc content (written write line).1 rest ∙ ap (λ l. content ++ l) whole in
      (invalid, rest, ap is_utf8 completed ∙ line_is_text f content b h k)

  finish_written :
      (intent : ExecutionIntent) (starts : Bool) (write : Write) (outcome : ExecutionOutcome)
      (content b : Bytes)
      → Holds f intent starts content
      → f.to_vec (terminal outcome) ≡ ok b
      → length (content ++ (written write (b ++ (10 ∷ []))).1) ≤ max_journal_bytes
      → IsHonest intent starts outcome
          (content ++ (written write (b ++ (10 ∷ []))).1)
          (map_err unavailable ((written write (b ++ (10 ∷ []))).0))
          (read_execution f none (file (content ++ (written write (b ++ (10 ∷ []))).1)))
  unfolding IsHonest recovered reading_of read_one
  finish_written intent starts write outcome content b holds h fits =
      let end = (written write (b ++ (10 ∷ []))).1 in
      let (whole, either) =
        read_text-written f write (terminal outcome) b (reading_of f intent starts) h in
      let reads : (is_utf8 (content ++ end) ≡ true)
          → read_execution f none (file (content ++ end))
            ≡ ok (recovered (read_text f end (reading_of f intent starts))) =
        λ valid.
          read_file (content ++ end) fits valid
          ∙ ap (λ r. ok (recovered r)) (holds.read end blank) in
      (
        λ returned.
            let done = map_err_ok _ returned in
            reads (
              written_is_text write content b holds.is_text (f.is_text (terminal outcome) b h) done)
            ∙ ap (λ r. ok (recovered r)) (whole done),
        elim (Bool-cases (is_utf8 (content ++ end))) [
          | inr invalid ↦ inr (
              inr (
                read_bad_file (content ++ end) fits invalid,
                written-EndsInside write content b holds.is_text (f.is_text (terminal outcome) b h)
                    invalid,
              ))
          | inl valid ↦ elim either [
            | inl before ↦ inl (reads valid ∙ ap (λ r. ok (recovered r)) before)
            | inr after ↦ inr (inl (reads valid ∙ ap (λ r. ok (recovered r)) after))
          ]
        ],
      )

  -- where the verdict cannot be encoded, the file stays as it was
  pub finish_unwritten :
      (intent : ExecutionIntent) (starts : Bool) (outcome : ExecutionOutcome) (content : Bytes)
      (reason : String)
      → Holds f intent starts content
      → length content ≤ max_journal_bytes
      → IsHonest intent starts outcome content
          (err (unavailable reason))
          (read_execution f none (file content))
  unfolding IsHonest recovered reading_of read_text read_lines lines
  finish_unwritten intent starts outcome content reason holds fits =
      let all = ap (λ t. ok (recovered (read_text f t blank))) (sym (append-nil content)) in
      (
        λ e. cc,
        inl (
            read_file content fits holds.is_text
            ∙ all
            ∙ ap (λ r. ok (recovered r)) (holds.read [] blank)),
      )

  pub finish_line :
      (intent : ExecutionIntent) (starts : Bool) (write : Write) (outcome : ExecutionOutcome)
      (content : Bytes)
      → Holds f intent starts content
      → length ((append_line f write (terminal outcome) content).1) ≤ max_journal_bytes
      → IsHonest intent starts outcome
          ((append_line f write (terminal outcome) content).1)
          (map_err unavailable ((append_line f write (terminal outcome) content).0))
          (read_execution f none (file ((append_line f write (terminal outcome) content).1)))
  finish_line intent starts write outcome content holds fits =
      elim (append_line_cases f write (terminal outcome) content) [
        | inl (reason, e) ↦
            at (sym e) fits (finish_unwritten intent starts outcome content reason holds)
        | inr (b, encoded, e) ↦
            at (sym e) fits (finish_written intent starts write outcome content b holds encoded)
      ]
    where
      Ends : Result String (Unit {0}) × Bytes → Type 0
      Ends p =
          length p.1 ≤ max_journal_bytes
          → IsHonest intent starts outcome p.1 (map_err unavailable p.0)
              (read_execution f none (file p.1))

      at :
          {p q : Result String (Unit {0}) × Bytes}
          → p ≡ q
          → length q.1 ≤ max_journal_bytes
          → Ends p
          → IsHonest intent starts outcome q.1
              (map_err unavailable q.0)
              (read_execution f none (file q.1))
      at e fits ends = subst Ends e ends fits
