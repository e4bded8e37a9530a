-- ===== src/RunLedger/Store.antt =====
-- internal/runledger/store.go, the records and the store. `size` stands for the length of a record's
-- line, with its line feed, as encoding/json writes it; a `Write` says what the file takes of it.
-- A time that is a pointer is an `Option`; 0 is the zero time.
use koios.Prelude.{
  ℕ, suc, ◌+◌, Bool, true, false, Option, none, some, List, [], ◌∷◌, ◌++◌, ltb, if◌then◌else◌, Dict,
  lookup, insert, Text, text_eq, is_empty,
}

pub data RunKind : Type 0 where
  kind_agent kind_subagent kind_orchestrator kind_workflow kind_cron kind_code_execution
        kind_process :
      RunKind

pub data RunStatus : Type 0 where
  queued running completed errored canceled skipped : RunStatus

pub record Timing : Type 0 where
  pub queue_ms : ℕ
  pub model_ms : ℕ
  pub tool_ms : ℕ
  pub finalize_ms : ℕ
  pub total_ms : ℕ
  pub retries : ℕ

pub record Record : Type 0 where
  pub id : Text
  pub kind : RunKind
  pub peer_id : Text
  pub session_key : Text
  pub model : Text
  pub status : RunStatus
  pub error : Text
  pub steps : ℕ
  pub tool_calls : ℕ
  pub parent_id : Text
  pub prompt_tokens : ℕ
  pub completion_tokens : ℕ
  pub request : Text
  pub result : Text
  pub queued_at : ℕ
  pub started_at : Option ℕ
  pub finished_at : Option ℕ
  pub timing : Option Timing

pub record Index : Type 0 where
  pub entries : Dict Text Record
  -- The ids in the order in which they came.
  pub order : List Text

abbrev pub empty_index : Index
empty_index = record { entries = []; order = [] }

-- A line of the file: a record, or text that is no record, with its length and line feed.
pub data Line : Type 0 where
  entry : Record → Line
  broken : ℕ → Line

-- What follows the last line feed: text of the given length, and the record that it is if only the line
-- feed is missing.
pub data Tail : Type 0 where
  clean : Tail
  unfinished : Option Record → ℕ → Tail

pub record Store : Type 0 where
  pub lines : List Line
  pub tail : Tail
  pub index : Index

-- What becomes of a write: the file takes all, nothing, or the first bytes, which may lack the line
-- feed only.
pub data Write : Type 0 where
  whole refused : Write
  short : Bool → ℕ → Write

abbrev pub max_line : ℕ
max_line = 1_048_576

unfoldable pub note_id : Text → Index → List Text
note_id id x = elim (lookup id x.entries) [ none ↦ x.order ++ (id ∷ []) | some r ↦ x.order ]

unfoldable pub enter : Record → Index → Index
enter r x = record { entries = insert r.id r x.entries; order = note_id r.id x }

unfoldable pub tail_lines : Tail → List Line
tail_lines clean = []
tail_lines (unfinished none n) = broken (suc n) ∷ []
tail_lines (unfinished (some r) n) = entry r ∷ []

-- `decode r` is the record that encoding/json reads back from the line that it wrote for `r`.
module _ (decode : Record → Record) (size : Record → ℕ) where
  -- The scanner stops with an error at a line that its buffer does not hold.
  unfoldable pub replay : List Line → Index → Option Index
  replay [] x = some x
  replay (entry r ∷ ls) x =
      let skipped = replay ls x in
      let entered = replay ls (enter (decode r) x) in
      if ltb max_line (size r) then none else if is_empty (decode r).id then skipped else entered
  replay (broken n ∷ ls) x = let rest = replay ls x in if ltb max_line n then none else rest

  -- `New` on the content of a file, or `none` for an error.
  unfoldable pub new_store : List Line → Tail → Option Store
  new_store lines tail = elim (replay (lines ++ tail_lines tail) empty_index) [
    | none ↦ none
    | some x ↦ some record { lines = lines; tail = tail; index = x }
  ]

module _ (size : Record → ℕ) where
  -- A whole line is put behind what was left unfinished, and makes one broken line with it.
  unfoldable pub append_line : Record → Store → Store
  append_line r s = elim s.tail [
    | clean ↦ record s { lines = s.lines ++ (entry r ∷ []) }
    | unfinished o n ↦ record s { lines = s.lines ++ (broken (n + size r) ∷ []); tail = clean }
  ]

  unfoldable pub append_short : Record → Bool → ℕ → Store → Store
  append_short r complete n s = elim s.tail [
    | clean ↦ record s { tail = unfinished (if complete then some r else none) n }
    | unfinished o m ↦ record s { tail = unfinished none (m + n) }
  ]

  unfoldable pub write_locked : Write → Record → Store → Store × Bool
  write_locked whole r s = (record (append_line r s) { index = enter r s.index }, true)
  write_locked refused r s = (s, false)
  write_locked (short complete n) r s = (append_short r complete n s, false)

  unfoldable pub add : Write → Record → Store → Store × Bool
  add write r s = elim (lookup r.id (s.index).entries) [
    | some old ↦ (s, true)
    | none ↦ write_locked write r s
  ]

  unfoldable pub update : Write → Text → (Record → Record) → Store → Store × Bool
  update write id change s = elim (lookup id (s.index).entries) [
    | none ↦ (s, false)
    | some r ↦ write_locked write (change r) s
  ]

unfoldable pub get : Text → Store → Option Record
get id s = lookup id (s.index).entries
