-- ===== src/Journal/Recovery/Session.antt =====
-- The recovery of an execution that was journalled in a directory, in crates/execution/src/lib.rs.
use soverign_founder_os.Base.{
  ◌≤◌, ◌<◌, ltb, ltb-false, Bool-cases, ◌≡◌, refl, sym, ap, subst, ◌∙◌, String, Bool, true, false,
  ◌⊎◌, inl, inr, Option, some, none, [], ◌∷◌, ◌++◌, Result, ok, err, map_err, ok-inj, ◌>>◌, arith,
  length, string_eq,
}
use soverign_founder_os.Base.Files.{Entry, file, Dir, lookup, insert, lookup-insert_self}
use soverign_founder_os.Base.Text.{Bytes}
use soverign_founder_os.Journal.{
  max_journal_bytes, JournalError, unavailable, intent_not_persisted, ExecutionIntent,
  ExecutionOutcome, JournalRecord, requested, terminal, Formats, Write, unopened, torn, unflushed,
  flushed, written, append_line, read_execution, ExecutionGuard, begin, begin_at, append_at,
  append_record, record_started, finish, journal_path,
}
use soverign_founder_os.Journal.Recovery.{Holds, Holds-requested, Holds-started, append_line_cases}
use soverign_founder_os.Journal.Recovery.Verdict.{
  map_err_ok, IsHonest, finish_line, finish_unwritten,
}

written_whole :
    (write : Write) (line : Bytes) → (written write line).0 ≡ ok tt → (written write line).1 ≡ line
unfolding written
written_whole (unopened reason) line h = cc
written_whole (torn count reason) line h = cc
written_whole (unflushed reason) line h = cc
written_whole flushed line h = refl

persisted_ok :
    (r : Result String (Unit {0})) (g guard : ExecutionGuard)
    → (map_err (λ _. intent_not_persisted) r >> ok g) ≡ ok guard
    → (r ≡ ok tt) × (g ≡ guard)
persisted_ok (ok tt) g guard h = (refl, ok-inj h)
persisted_ok (err reason) g guard h = cc

-- The file stands under the name, and is longer than a journal may be or is read honestly.
pub record IsRecovered (f : Formats) (intent : ExecutionIntent) (starts : Bool)
    (outcome : ExecutionOutcome) (returned : Result JournalError (Unit {0})) (name : String)
    (dir : Dir) : Type 0 where
  pub content : Bytes
  pub there : lookup name dir ≡ some (file content)
  pub honest :
      (max_journal_bytes < length content)
      ⊎ IsHonest intent starts outcome content returned (read_execution f none (file content))

module _ (f : Formats) where
  -- the start was recorded without an error, or was not attempted
  abbrev pub Starts : Bool → Write → ExecutionGuard → Dir → Dir → Type 0
  Starts false write guard dir dir' = dir ≡ dir'
  Starts true write guard dir dir' = record_started f write guard dir ≡ (ok tt, dir')

  -- the journal of the guard holds the request, and the start if it was recorded
  record IsJournalled (intent : ExecutionIntent) (starts : Bool) (guard : ExecutionGuard)
      (dir : Dir) : Type 0 where
    pub content : Bytes
    pub there : lookup guard.path dir ≡ some (file content)
    pub holds : Holds f intent starts content
    pub named : guard.path ≡ journal_path f intent.execution_id

  -- a line that was written without an error is there as a whole
  appended_line :
      (write : Write) (r : JournalRecord) (content : Bytes)
      → (append_line f write r content).0 ≡ ok tt
      → (b : Bytes) × (f.to_vec r ≡ ok b)
        × ((append_line f write r content).1 ≡ content ++ (b ++ (10 ∷ [])))
  appended_line write r content h = elim (append_line_cases f write r content) [
    | inl (reason, e) ↦
        let refused : (append_line f write r content).0 ≡ err reason = ap (λ p. p.0) e in cc
    | inr (b, encoded, e) ↦
        let whole = written_whole write (b ++ (10 ∷ [])) (sym (ap (λ p. p.0) e) ∙ h) in
        (b, encoded, ap (λ p. p.1) e ∙ ap (λ l. content ++ l) whole)
  ]

  begin_fresh :
      (write : Write) (intent : ExecutionIntent) (g guard : ExecutionGuard) (dir dir' : Dir)
      → g.path ≡ journal_path f intent.execution_id
      → (map_err (λ _. intent_not_persisted) ((append_line f write (requested intent) []).0)
          >> ok g)
        ≡ ok guard
      → insert g.path (file ((append_line f write (requested intent) []).1)) dir ≡ dir'
      → IsJournalled intent false guard dir'
  begin_fresh write intent g guard dir dir' path begun stored =
      let (persisted, same) =
        persisted_ok ((append_line f write (requested intent) []).0) g guard begun in
      let (b, encoded, whole) = appended_line write (requested intent) [] persisted in
      record {
        content = b ++ (10 ∷ []);
        there =
            ap (λ (u : ExecutionGuard). lookup u.path dir') (sym same)
            ∙ ap (λ d. lookup g.path d) (sym stored)
            ∙ lookup-insert_self g.path _ dir
            ∙ ap (λ l. some (file l)) whole;
        holds = Holds-requested f intent b encoded;
        named = ap (λ (u : ExecutionGuard). u.path) (sym same) ∙ path;
      }

  begin_at-IsJournalled :
      (write : Write) (intent : ExecutionIntent) (guard : ExecutionGuard) (dir dir' : Dir)
      (entry : Option Entry)
      → begin_at f write intent dir entry ≡ (ok guard, dir')
      → IsJournalled intent false guard dir'
  unfolding begin_at
  begin_at-IsJournalled (unopened reason) intent guard dir dir' entry h =
      let refused : err (unavailable reason) ≡ ok guard = ap (λ p. p.0) h in cc
  begin_at-IsJournalled (torn count reason) intent guard dir dir' (some entry) h =
      let refused : err (unavailable "File exists") ≡ ok guard = ap (λ p. p.0) h in cc
  begin_at-IsJournalled (unflushed reason) intent guard dir dir' (some entry) h =
      let refused : err (unavailable "File exists") ≡ ok guard = ap (λ p. p.0) h in cc
  begin_at-IsJournalled flushed intent guard dir dir' (some entry) h =
      let refused : err (unavailable "File exists") ≡ ok guard = ap (λ p. p.0) h in cc
  begin_at-IsJournalled (torn count reason) intent guard dir dir' none h =
      begin_fresh (torn count reason) intent _ guard dir dir' refl (ap (λ p. p.0) h)
        (ap (λ p. p.1) h)
  begin_at-IsJournalled (unflushed reason) intent guard dir dir' none h =
      begin_fresh (unflushed reason) intent _ guard dir dir' refl (ap (λ p. p.0) h)
        (ap (λ p. p.1) h)
  begin_at-IsJournalled flushed intent guard dir dir' none h =
      begin_fresh flushed intent _ guard dir dir' refl (ap (λ p. p.0) h) (ap (λ p. p.1) h)

  begin-IsJournalled :
      (write : Write) (intent : ExecutionIntent) (guard : ExecutionGuard) (dir dir' : Dir)
      → begin f write intent dir ≡ (ok guard, dir')
      → IsJournalled intent false guard dir'
  unfolding begin
  begin-IsJournalled write intent guard dir dir' h =
      begin_at-IsJournalled write intent guard dir dir'
        (lookup (journal_path f intent.execution_id) dir) h

  -- a record is appended to what the journal holds
  append_at_cases :
      (write : Write) (r : JournalRecord) (guard : ExecutionGuard) (dir : Dir) (content : Bytes)
      → ((reason : String) × (append_at f write r guard dir (some (file content))
            ≡ (err (unavailable reason), dir)))
        ⊎ (append_at f write r guard dir (some (file content)) ≡ (
          map_err unavailable ((append_line f write r content).0),
          insert guard.path (file ((append_line f write r content).1)) dir,
        ))
  unfolding append_at
  append_at_cases (unopened reason) r guard dir content = inl (reason, refl)
  append_at_cases (torn count reason) r guard dir content = inr refl
  append_at_cases (unflushed reason) r guard dir content = inr refl
  append_at_cases flushed r guard dir content = inr refl

  append_there :
      (write : Write) (r : JournalRecord) (guard : ExecutionGuard) (dir : Dir) (content : Bytes)
      → lookup guard.path dir ≡ some (file content)
      → append_record f write r guard dir ≡ append_at f write r guard dir (some (file content))
  unfolding append_record
  append_there write r guard dir content h = ap (append_at f write r guard dir) h

  started-IsJournalled :
      (starts : Bool) (write : Write) (intent : ExecutionIntent) (guard : ExecutionGuard)
      (dir dir' : Dir)
      → IsJournalled intent false guard dir
      → Starts starts write guard dir dir'
      → IsJournalled intent starts guard dir'
  started-IsJournalled false write intent guard dir dir' j same =
      subst (IsJournalled intent false guard) same j
  started-IsJournalled true write intent guard dir dir' j h =
      let there = append_there write JournalRecord.started guard dir j.content j.there in
      elim (append_at_cases write JournalRecord.started guard dir j.content) [
        | inl (reason, e) ↦
            let refused : err (unavailable reason) ≡ ok tt =
              sym (ap (λ p. p.0) (there ∙ e)) ∙ ap (λ p. p.0) h in
            cc
        | inr e ↦
            let done = map_err_ok _ (sym (ap (λ p. p.0) (there ∙ e)) ∙ ap (λ p. p.0) h) in
            let (b, encoded, whole) = appended_line write JournalRecord.started j.content done in
            record {
              content = j.content ++ (b ++ (10 ∷ []));
              there =
                  ap (lookup guard.path) (sym (ap (λ p. p.1) h) ∙ ap (λ p. p.1) (there ∙ e))
                  ∙ lookup-insert_self guard.path _ dir
                  ∙ ap (λ l. some (file l)) whole;
              holds = Holds-started f intent j.content b j.holds encoded;
              named = j.named;
            }
      ]

  fitting :
      {P : Type 0} (content : Bytes)
      → (length content ≤ max_journal_bytes → P)
      → (max_journal_bytes < length content) ⊎ P
  fitting content p = elim (Bool-cases (ltb max_journal_bytes (length content))) [
    | inl long ↦ inl (ground (arith, long))
    | inr short ↦ inr (p (ltb-false max_journal_bytes (length content) short))
  ]

  finish-IsRecovered :
      (intent : ExecutionIntent) (starts : Bool) (write : Write) (outcome : ExecutionOutcome)
      (guard : ExecutionGuard) (dir : Dir)
      → IsJournalled intent starts guard dir
      → IsRecovered f intent starts outcome
          ((finish f write guard outcome dir).0)
          guard.path
          ((finish f write guard outcome dir).1)
  finish-IsRecovered intent starts write outcome guard dir j =
      let there = append_there write (terminal outcome) guard dir j.content j.there in
      let Ends : Result JournalError (Unit {0}) × Dir → Type 0 =
        λ p. IsRecovered f intent starts outcome p.0 guard.path p.1 in
      elim (append_at_cases write (terminal outcome) guard dir j.content) [
        | inl (reason, e) ↦ subst Ends (sym (there ∙ e)) (record {
          content = j.content;
          there = j.there;
          honest =
              fitting j.content (finish_unwritten f intent starts outcome j.content reason j.holds);
        })
        | inr e ↦ subst Ends (sym (there ∙ e)) (record {
          content = (append_line f write (terminal outcome) j.content).1;
          there = lookup-insert_self guard.path _ dir;
          honest =
              fitting ((append_line f write (terminal outcome) j.content).1)
                (finish_line f intent starts write outcome j.content j.holds);
        })
      ]

  -- The journal of an execution that began, and whose start was recorded or not attempted, reads
  -- honestly whatever happens to the write of its verdict, a crash in the middle of it included. Where
  -- `finish` returned without an error, recovery reports the verdict. Otherwise it reports the verdict or
  -- the state before it, and never another one; only a file that ends inside a character, one that is
  -- not text and would be with more bytes, is refused instead. A file above 64 KiB is left aside.
  pub begin-IsRecovered :
      (intent : ExecutionIntent) (first second third : Write) (guard : ExecutionGuard)
      (dir dir' dir'' : Dir) (starts : Bool) (outcome : ExecutionOutcome)
      → begin f first intent dir ≡ (ok guard, dir')
      → Starts starts second guard dir' dir''
      → IsRecovered f intent starts outcome
          ((finish f third guard outcome dir'').0)
          (journal_path f intent.execution_id)
          ((finish f third guard outcome dir'').1)
  begin-IsRecovered intent first second third guard dir dir' dir'' starts outcome begins started =
      let j =
        started-IsJournalled starts second intent guard dir' dir''
          (begin-IsJournalled first intent guard dir dir' begins) started in
      subst
        (λ name.
          IsRecovered f intent starts outcome ((finish f third guard outcome dir'').0) name
            ((finish f third guard outcome dir'').1))
        j.named (finish-IsRecovered intent starts third outcome guard dir'' j)
