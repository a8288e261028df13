-- ===== src/Journal/Recovery.antt =====
-- What a recovery reads of one execution of crates/execution/src/lib.rs, whatever happened to the write
-- of its verdict.
pub mod Verdict
pub mod Session
use soverign_founder_os.Base.{
  ℕ, zero, suc, ◌+◌, ◌≤◌, ◌≡◌, refl, sym, ap, subst, ◌∙◌, append-nil, String, Bool, true, false,
  not, ◌⊎◌, inl, inr, Option, some, none, List, [], ◌∷◌, ◌++◌, Result, ok, err, reject, map_err,
  arith, ltb, le→ltb-false, length, take, is_empty, Bool-cases, ◌>>=◌, ◌>>◌, if◌then◌else◌,
  string_eq, ==-refl, ◌==◌,
}
use soverign_founder_os.Base.Files.{Entry, file, special, Dir, lookup, insert, lookup-insert}
use soverign_founder_os.Base.Text.{
  Bytes, is_utf8, is_utf8-append, is_plain, lines, lines-plain, lines-plain_last, utf8_step,
}
use soverign_founder_os.Journal.{
  max_journal_bytes, JournalError, corrupt_record, unavailable, ExecutionIntent, ExecutionOutcome,
  ExecutionState, RecoveredExecution, JournalRecord, requested, terminal, Formats, Write, unopened,
  torn, unflushed, flushed, written, append_line, Reading, read_one, read_started, read_parsed,
  recovered, read_lines, read_execution, state_of, ExecutionGuard,
}

-- where a write of a line may stop: before the end of the JSON, after it, or after the newline
Cut : Bytes → Bytes → Type 0
Cut front b =
    ((x : ℕ) × (back : Bytes) × (b ≡ front ++ (x ∷ back))) ⊎ (front ≡ b) ⊎ (front ≡ b ++ (10 ∷ []))

take-Cut : (count : ℕ) (b : Bytes) → Cut (take count (b ++ (10 ∷ []))) b
unfolding Cut
take-Cut zero [] = inr (inl refl)
take-Cut zero (x ∷ b) = inl (x, b, refl)
take-Cut (suc zero) [] = inr (inr refl)
take-Cut (suc (suc count)) [] = inr (inr refl)
take-Cut (suc count) (x ∷ b) = elim (take-Cut count b) [
  | inl (y, back, e) ↦ inl (y, back, ap (λ (l : Bytes). x ∷ l) e)
  | inr (inl e) ↦ inr (inl (ap (λ (l : Bytes). x ∷ l) e))
  | inr (inr e) ↦ inr (inr (ap (λ (l : Bytes). x ∷ l) e))
]

-- the state before the verdict: whether the start was recorded
abbrev pub before_verdict : Bool → ExecutionState
before_verdict true = ExecutionState.started
before_verdict false = ExecutionState.indeterminate

module _ (f : Formats) where
  -- the reading of a text
  pub read_text : Bytes → Reading → Reading
  read_text text reading = read_lines f (lines text) reading

  -- a whole line is one record
  read_text-line :
      (r : JournalRecord) (b rest : Bytes) (reading : Reading)
      → f.to_vec r ≡ ok b
      → read_text (b ++ (10 ∷ rest)) reading ≡ read_text rest (read_one r reading)
  unfolding read_text read_lines read_parsed
  read_text-line r [] rest reading h = let impossible = f.not_empty r [] h in cc
  read_text-line r (x ∷ b) rest reading h =
      ap (λ (ls : List Bytes). read_lines f ls reading)
        (lines-plain (x ∷ b) rest (f.plain r (x ∷ b) h))
      ∙ ap (λ o. read_lines f (lines rest) (read_parsed o reading)) (f.from-to r (x ∷ b) h)

  -- a whole record without its newline, too
  read_text-last :
      (r : JournalRecord) (b : Bytes) (reading : Reading)
      → f.to_vec r ≡ ok b
      → read_text b reading ≡ read_one r reading
  unfolding read_text read_lines read_parsed
  read_text-last r [] reading h = let impossible = f.not_empty r [] h in cc
  read_text-last r (x ∷ b) reading h =
      rw (lines-plain_last x b (f.plain r (x ∷ b) h)) (rw (f.from-to r (x ∷ b) h) refl)

  is_plain-front : (a b : Bytes) → is_plain (a ++ b) ≡ true → is_plain a ≡ true
  is_plain-front [] b h = refl
  is_plain-front (x ∷ a) b h = ground (arith, is_plain-front a b)

  -- a part of a record is none
  read_text-cut :
      (r : JournalRecord) (front : Bytes) (x : ℕ) (back : Bytes) (reading : Reading)
      → f.to_vec r ≡ ok (front ++ (x ∷ back))
      → read_text front reading ≡ reading
  unfolding read_text read_lines read_parsed lines
  read_text-cut r [] x back reading h = refl
  read_text-cut r (y ∷ front) x back reading h =
      rw
        (lines-plain_last y front
          (is_plain-front (y ∷ front) (x ∷ back) (f.plain r ((y ∷ front) ++ (x ∷ back)) h)))
        (rw (f.cut r (y ∷ front) x back h) refl)

  -- what a write of the record leaves at the end of the file is read as the record or not at all
  pub read_text-written :
      (write : Write) (r : JournalRecord) (b : Bytes) (reading : Reading)
      → f.to_vec r ≡ ok b
      → ((written write (b ++ (10 ∷ []))).0 ≡ ok tt
          → read_text ((written write (b ++ (10 ∷ []))).1) reading ≡ read_one r reading)
        × ((read_text ((written write (b ++ (10 ∷ []))).1) reading ≡ reading)
            ⊎ (read_text ((written write (b ++ (10 ∷ []))).1) reading ≡ read_one r reading))
  unfolding written read_text read_lines lines Cut
  read_text-written (unopened reason) r b reading h = (λ e. cc, inl refl)
  read_text-written flushed r b reading h =
      let whole = read_text-line r b [] reading h in (λ e. whole, inr whole)
  read_text-written (unflushed reason) r b reading h =
      let whole = read_text-line r b [] reading h in (λ e. cc, inr whole)
  read_text-written (torn count reason) r b reading h = (
    λ e. cc,
    elim (take-Cut count b) [
      | inl (x, back, e) ↦ inl (
          read_text-cut r (take count (b ++ (10 ∷ []))) x back reading
            (subst (λ l. f.to_vec r ≡ ok l) e h))
      | inr (inl e) ↦ inr (
          subst (λ l. read_text l reading ≡ read_one r reading) (sym e)
            (read_text-last r b reading h))
      | inr (inr e) ↦ inr (
          subst (λ l. read_text l reading ≡ read_one r reading) (sym e)
            (read_text-line r b [] reading h))
    ],
  )

  -- the content of the file: the request, and the start if it was recorded
  pub reading_of : ExecutionIntent → Bool → Reading
  reading_of intent starts = record { intent = some intent; state = before_verdict starts }

  -- What the journal holds for an execution: the request, and the start where it was recorded.
  pub record Holds (intent : ExecutionIntent) (starts : Bool) (content : Bytes) : Type 0 where
    pub read :
        (rest : Bytes) (reading : Reading)
        → read_text (content ++ rest) reading ≡ read_text rest (reading_of intent starts)
    pub is_text : is_utf8 content ≡ true

  line_assoc : (a b rest : Bytes) → ((a ++ (b ++ (10 ∷ []))) ++ rest) ≡ a ++ (b ++ (10 ∷ rest))
  line_assoc [] [] rest = refl
  line_assoc [] (x ∷ b) rest = ap (λ (l : Bytes). x ∷ l) (line_assoc [] b rest)
  line_assoc (x ∷ a) b rest = ap (λ (l : Bytes). x ∷ l) (line_assoc a b rest)

  pub line_is_text :
      (content b : Bytes)
      → is_utf8 content ≡ true
      → is_utf8 b ≡ true
      → is_utf8 (content ++ (b ++ (10 ∷ []))) ≡ true
  unfolding utf8_step
  line_is_text content b h k =
      is_utf8-append content (b ++ (10 ∷ [])) h ∙ is_utf8-append b (10 ∷ []) k ∙ refl

  pub Holds-requested :
      (intent : ExecutionIntent) (b : Bytes)
      → f.to_vec (requested intent) ≡ ok b
      → Holds intent false (b ++ (10 ∷ []))
  unfolding reading_of read_one
  Holds-requested intent b h = record {
    read = λ rest reading.
        ap (λ t. read_text t reading) (line_assoc [] b rest)
        ∙ read_text-line (requested intent) b rest reading h;
    is_text = line_is_text [] b refl (f.is_text (requested intent) b h);
  }

  pub Holds-started :
      (intent : ExecutionIntent) (content b : Bytes)
      → Holds intent false content
      → f.to_vec JournalRecord.started ≡ ok b
      → Holds intent true (content ++ (b ++ (10 ∷ [])))
  unfolding reading_of read_one read_started
  Holds-started intent content b holds h = record {
    read = λ rest reading.
        ap (λ t. read_text t reading) (line_assoc content b rest)
        ∙ holds.read (b ++ (10 ∷ rest)) reading
        ∙ read_text-line JournalRecord.started b rest (reading_of intent false) h;
    is_text = line_is_text content b holds.is_text (f.is_text JournalRecord.started b h);
  }

  -- `append_line` fails before it writes, or writes the line as far as the write goes
  pub append_line_cases :
      (write : Write) (r : JournalRecord) (content : Bytes)
      → ((reason : String) × (append_line f write r content ≡ (err reason, content)))
        ⊎ ((b : Bytes) × (f.to_vec r ≡ ok b)
            × (append_line f write r content ≡ (
              (written write (b ++ (10 ∷ []))).0,
              content ++ (written write (b ++ (10 ∷ []))).1,
            )))
  unfolding append_line
  append_line_cases write r content = on (f.to_vec r) refl
    where
      on :
          (encoded : Result String Bytes)
          → f.to_vec r ≡ encoded
          → ((reason : String) × (append_line f write r content ≡ (err reason, content)))
            ⊎ ((b : Bytes) × (f.to_vec r ≡ ok b)
                × (append_line f write r content ≡ (
                  (written write (b ++ (10 ∷ []))).0,
                  content ++ (written write (b ++ (10 ∷ []))).1,
                )))
      on (err reason) e = inl (reason, rw e refl)
      on (ok b) e = inr (b, e, rw e refl)
