-- ===== src/Journal.antt =====
-- crates/execution/src/lib.rs: the journal of executions, one file of JSON lines for each. The faults of
-- the file system are arguments, and a crash in the middle of a write is a torn write.

pub mod Recovery
pub mod Toy
mod Tests
use Prim.Native.String.{◌++◌ as str_append}
use soverign_founder_os.Base.{
  ℕ, zero, suc, ◌*◌, ◌≡◌, String, Bool, true, false, not, ◌&&◌, Option, some, none, List, [], ◌∷◌,
  ◌++◌, Result, ok, err, reject, map_err, ◌>>=◌, ◌>>◌, ltb, length, take, is_empty, if◌then◌else◌,
}
use soverign_founder_os.Base.Int.{ℤ}
use soverign_founder_os.Base.Files.{Entry, file, special, Dir, lookup, insert}
use soverign_founder_os.Base.Text.{Bytes, codes, is_utf8, is_plain, lines, starts_with}
use mathlib.Core.List.{reverse}
use soverign_founder_os.Contracts.{Uuid}

abbrev pub max_journal_bytes : ℕ
max_journal_bytes = 64 * 1024

pub data JournalError : Type 0 where
  unavailable : String → JournalError
  intent_not_persisted corrupt_record : JournalError

pub record ExecutionIntent : Type 0 where
  pub execution_id : Uuid
  pub component_digest_hex : String
  pub canonical_input_digest_hex : String
  pub requested_at_unix : ℤ

pub data ExecutionOutcome : Type 0 where
  completed failed indeterminate : String → ExecutionOutcome

pub data ExecutionState : Type 0 where
  indeterminate started : ExecutionState
  completed failed recorded_indeterminate : String → ExecutionState

pub record RecoveredExecution : Type 0 where
  pub intent : ExecutionIntent
  pub state : ExecutionState

pub data JournalRecord : Type 0 where
  requested : ExecutionIntent → JournalRecord
  started : JournalRecord
  terminal : ExecutionOutcome → JournalRecord

-- serde_json on one record, and the text of a `Uuid`
pub record Formats : Type 0 where
  pub to_vec : JournalRecord → Result String Bytes
  pub from_str : Bytes → Option JournalRecord
  pub uuid_text : Uuid → String
  -- The compact form is a text that is not empty, without control characters, is read back, and no part
  -- of it that stops before its end is a record.
  pub not_empty : (r : JournalRecord) (b : Bytes) → to_vec r ≡ ok b → is_empty b ≡ false
  pub plain : (r : JournalRecord) (b : Bytes) → to_vec r ≡ ok b → is_plain b ≡ true
  pub is_text : (r : JournalRecord) (b : Bytes) → to_vec r ≡ ok b → is_utf8 b ≡ true
  pub from-to : (r : JournalRecord) (b : Bytes) → to_vec r ≡ ok b → from_str b ≡ some r
  pub cut :
      (r : JournalRecord) (front : Bytes) (x : ℕ) (back : Bytes)
      → to_vec r ≡ ok (front ++ (x ∷ back))
      → from_str front ≡ none

-- What the file system does with a write: the file is not opened, only so many bytes of the line are
-- written, the line is written but not flushed, or all goes well.
pub data Write : Type 0 where
  unopened : String → Write
  torn : ℕ → String → Write
  unflushed : String → Write
  flushed : Write

-- the bytes of a line that reach the file, and what `append_line` returns
unfoldable pub written : Write → Bytes → Result String (Unit {0}) × Bytes
written (unopened reason) line = (err reason, [])
written (torn count reason) line = (err reason, take count line)
written (unflushed reason) line = (err reason, line)
written flushed line = (ok tt, line)

-- `ExecutionGuard`; the journal is the directory
pub record ExecutionGuard : Type 0 where
  pub path : String
  pub execution_id : Uuid

module _ (f : Formats) where
  -- `append_line` onto the content of the file
  unfoldable pub append_line : Write → JournalRecord → Bytes → Result String (Unit {0}) × Bytes
  append_line write journal_record content = append_bytes (f.to_vec journal_record)
    where
      append_bytes : Result String Bytes → Result String (Unit {0}) × Bytes
      append_bytes (err reason) = (err reason, content)
      append_bytes (ok json) =
          let (result, line) = written write (json ++ (10 ∷ [])) in (result, content ++ line)

  abbrev pub journal_path : Uuid → String
  journal_path execution_id = str_append (f.uuid_text execution_id) ".jsonl"

  -- `begin`, on the entry that there is under the name of the journal
  unfoldable pub begin_at :
      Write → ExecutionIntent → Dir → Option Entry → Result JournalError ExecutionGuard × Dir
  begin_at (unopened reason) intent dir entry = (err (unavailable reason), dir)
  begin_at write intent dir (some entry) = (err (unavailable "File exists"), dir)
  begin_at write intent dir none =
      let (result, content) = append_line write (requested intent) [] in
      (
        map_err (λ _. intent_not_persisted) result
            >> ok (record {
              path = journal_path intent.execution_id;
              execution_id = intent.execution_id;
            }),
        insert (journal_path intent.execution_id) (file content) dir,
      )

  -- `ExecutionJournal::begin`
  unfoldable pub begin : Write → ExecutionIntent → Dir → Result JournalError ExecutionGuard × Dir
  begin write intent dir = begin_at write intent dir (lookup (journal_path intent.execution_id) dir)

  -- `ExecutionGuard::append`, on the entry that there is under its path
  unfoldable pub append_at :
      Write
      → JournalRecord
      → ExecutionGuard
      → Dir
      → Option Entry
      → Result JournalError (Unit {0}) × Dir
  append_at (unopened reason) journal_record guard dir entry = (err (unavailable reason), dir)
  append_at write journal_record guard dir none = (err (unavailable "NotFound"), dir)
  append_at write journal_record guard dir (some special) = (err (unavailable "not a file"), dir)
  append_at write journal_record guard dir (some (file content)) =
      let (result, content') = append_line write journal_record content in
      (map_err unavailable result, insert guard.path (file content') dir)

  unfoldable pub append_record :
      Write → JournalRecord → ExecutionGuard → Dir → Result JournalError (Unit {0}) × Dir
  append_record write journal_record guard dir =
      append_at write journal_record guard dir (lookup guard.path dir)

  -- `ExecutionGuard::started` and `ExecutionGuard::finish`
  abbrev pub record_started : Write → ExecutionGuard → Dir → Result JournalError (Unit {0}) × Dir
  record_started write guard dir = append_record write JournalRecord.started guard dir

  abbrev pub finish :
      Write → ExecutionGuard → ExecutionOutcome → Dir → Result JournalError (Unit {0}) × Dir
  finish write guard outcome dir = append_record write (terminal outcome) guard dir

abbrev pub state_of : ExecutionOutcome → ExecutionState
state_of (ExecutionOutcome.completed result_hash_hex) = completed result_hash_hex
state_of (ExecutionOutcome.failed code) = failed code
state_of (ExecutionOutcome.indeterminate reason) = recorded_indeterminate reason

-- the two variables of the loop of `read_execution`, and one record
pub record Reading : Type 0 where
  pub intent : Option ExecutionIntent
  pub state : ExecutionState

unfoldable pub read_started : Option ExecutionIntent → ExecutionState → Reading
read_started none state = record { intent = none; state = state }
read_started (some intent) state = record { intent = some intent; state = started }

unfoldable pub read_one : JournalRecord → Reading → Reading
read_one (requested intent) reading = record { intent = some intent; state = indeterminate }
read_one JournalRecord.started reading = read_started reading.intent reading.state
read_one (terminal outcome) reading = record reading { state = state_of outcome }

unfoldable pub read_parsed : Option JournalRecord → Reading → Reading
read_parsed none reading = reading
read_parsed (some journal_record) reading = read_one journal_record reading

unfoldable pub recovered : Reading → Option RecoveredExecution
recovered reading = elim reading.intent [
  | none ↦ none
  | some intent ↦ some (record { intent = intent; state = reading.state })
]

module _ (f : Formats) where
  unfoldable pub read_lines : List Bytes → Reading → Reading
  read_lines [] reading = reading
  read_lines (line ∷ rest) reading =
      read_lines rest (if is_empty line then reading else read_parsed (f.from_str line) reading)

  -- `read_execution`, on the entry; the first argument is the error of the file system, if any
  unfoldable pub read_execution :
      Option String → Entry → Result JournalError (Option RecoveredExecution)
  read_execution (some reason) entry = err (unavailable reason)
  read_execution none special = err corrupt_record
  read_execution none (file bytes) = do
    reject (ltb max_journal_bytes (length bytes)) corrupt_record
    reject (not (is_utf8 bytes)) corrupt_record
    ok (recovered (read_lines (lines bytes) (record { intent = none; state = indeterminate })))

  -- `path.extension()` is `jsonl`
  abbrev pub is_journal : String → Bool
  is_journal name =
      starts_with (reverse (codes ".jsonl")) (reverse (codes name)) && ltb 6 (length (codes name))

  abbrev pub kept : Option RecoveredExecution → List RecoveredExecution → List RecoveredExecution
  kept none rest = rest
  kept (some execution) rest = execution ∷ rest

  -- the loop of `recover`; `reads` are the errors of the reads
  unfoldable pub recover_entries :
      (String → Option String) → Dir → Result JournalError (List RecoveredExecution)
  recover_entries reads [] = ok []
  recover_entries reads ((name, entry) ∷ dir) =
      let rest = recover_entries reads dir in
      if is_journal name
      then (read_execution (reads name) entry >>= λ execution.
          rest >>= λ others. ok (kept execution others))
      else rest

  -- `ExecutionJournal::recover`; the first argument is the error of `read_dir`, if any
  unfoldable pub recover :
      Option String → (String → Option String) → Dir → Result JournalError (List RecoveredExecution)
  recover (some reason) reads dir = err (unavailable reason)
  recover none reads dir = recover_entries reads dir
