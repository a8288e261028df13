-- ===== src/Journal/Tests.antt =====
-- The theorems on crates/execution/src/lib.rs at a concrete encoding.
use soverign_founder_os.Base.{◌≡◌, refl, nat_eq, true, none, [], ◌∷◌, ok, err}
use soverign_founder_os.Base.Int.{pos}
use soverign_founder_os.Base.Files.{file, Dir, lookup, insert}
use soverign_founder_os.Base.Text.{lines, utf8_step}
use soverign_founder_os.Journal.{
  unavailable, recover, recover_entries, ExecutionIntent, ExecutionOutcome, ExecutionState, Formats,
  torn, flushed, ExecutionGuard, begin, begin_at, append_line, written, append_at, append_record,
  finish, record_started, read_execution, recovered, read_lines, read_parsed, read_one,
}
use soverign_founder_os.Journal.Recovery.Session.{IsRecovered, begin-IsRecovered}
use soverign_founder_os.Journal.Toy.{toy_journal}

abbrev intent : ExecutionIntent
intent = record {
  execution_id = 0;
  component_digest_hex = "";
  canonical_input_digest_hex = "";
  requested_at_unix = pos 0;
}

abbrev formats : Formats
formats = toy_journal intent

abbrev guard : ExecutionGuard
guard = record { path = "id.jsonl"; execution_id = 0 }

abbrev done : ExecutionOutcome
done = ExecutionOutcome.completed ""

abbrev requested_dir : Dir
requested_dir = ("id.jsonl", file (82 ∷ 10 ∷ [])) ∷ []

abbrev started_dir : Dir
started_dir = ("id.jsonl", file (82 ∷ 10 ∷ 83 ∷ 10 ∷ [])) ∷ []

begun : begin formats flushed intent [] ≡ (ok guard, requested_dir)
unfolding begin begin_at append_line written lookup insert
begun = refl

has_started : record_started formats flushed guard requested_dir ≡ (ok tt, started_dir)
unfolding append_record append_at append_line written lookup insert
has_started = refl

begin-IsRecovered_example :
    IsRecovered formats intent true done
      ((finish formats (torn 1 "disk full") guard done started_dir).0)
      "id.jsonl"
      ((finish formats (torn 1 "disk full") guard done started_dir).1)
begin-IsRecovered_example =
    begin-IsRecovered formats intent flushed flushed (torn 1 "disk full") guard [] requested_dir
      started_dir true done begun has_started

-- the verdict that is written after a torn start is on its line, and is lost
abbrev torn_dir : Dir
torn_dir = ("id.jsonl", file (82 ∷ 10 ∷ 83 ∷ [])) ∷ []

torn_start :
    record_started formats (torn 1 "disk full") guard requested_dir
    ≡ (err (unavailable "disk full"), torn_dir)
unfolding append_record append_at append_line written lookup insert
torn_start = refl

glued :
    finish formats flushed guard done torn_dir
    ≡ (ok tt, ("id.jsonl", file (82 ∷ 10 ∷ 83 ∷ 67 ∷ 10 ∷ [])) ∷ [])
unfolding append_record append_at append_line written lookup insert
glued = refl

lost_verdict :
    recover formats none (λ name. none) (("id.jsonl", file (82 ∷ 10 ∷ 83 ∷ 67 ∷ 10 ∷ [])) ∷ [])
    ≡ ok ((record { intent = intent; state = ExecutionState.indeterminate }) ∷ [])
unfolding recover recover_entries read_execution recovered read_lines read_parsed read_one lines
    utf8_step
lost_verdict = refl
