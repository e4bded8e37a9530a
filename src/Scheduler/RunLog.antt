-- ===== src/Scheduler/RunLog.antt =====
-- internal/scheduler/job.go, the run log of one job. `size` stands for the length of a record's line
-- with its line feed, as encoding/json writes it. The writes succeed, and the
-- records come one after another; the source does not lock the log.
use koios.Prelude.{
  ℕ, ◌+◌, ◌-◌, Bool, true, false, Option, none, some, List, [], ◌∷◌, ◌++◌, ltb, leb, length, drop,
  if◌then◌else◌, Text,
}

pub data RunStatus : Type 0 where
  run_ok run_error run_skip : RunStatus

pub record RunRecord : Type 0 where
  pub run_id : Text
  pub job_id : Text
  pub started_at : ℕ
  pub ended_at : ℕ
  pub status : RunStatus
  pub error : Text
  pub output : Text

abbrev pub run_log_max_bytes : ℕ
run_log_max_bytes = 2_000_000

abbrev pub run_log_keep_lines : ℕ
run_log_keep_lines = 2000

-- The buffer of a `bufio.Scanner` that nobody enlarges.
abbrev pub max_scan_token_size : ℕ
max_scan_token_size = 65_536

-- The lines that the scanner gives, and whether it meets no error.
unfoldable pub scan : (RunRecord → ℕ) → List RunRecord → List RunRecord × Bool
scan size [] = ([], true)
scan size (r ∷ rs) =
    let rest = scan size rs in
    if ltb max_scan_token_size (size r) then ([], false) else (r ∷ rest.0, rest.1)

abbrev pub last : ℕ → List RunRecord → List RunRecord
last n rs = drop (length rs - n) rs

unfoldable pub file_size : (RunRecord → ℕ) → List RunRecord → ℕ
file_size size [] = 0
file_size size (r ∷ rs) = size r + file_size size rs

-- It does not ask the scanner for its error.
unfoldable pub prune_run_log : (RunRecord → ℕ) → ℕ → List RunRecord → List RunRecord
prune_run_log size keep_lines lines =
    let read = (scan size lines).0 in
    if leb (length read) keep_lines then lines else last keep_lines read

unfoldable pub append_run_record : (RunRecord → ℕ) → RunRecord → List RunRecord → List RunRecord
append_run_record size r lines =
    let written = lines ++ (r ∷ []) in
    if ltb run_log_max_bytes (file_size size written)
    then prune_run_log size run_log_keep_lines written
    else written

unfoldable pub append_all : (RunRecord → ℕ) → List RunRecord → List RunRecord → List RunRecord
append_all size [] lines = lines
append_all size (r ∷ rs) lines = append_all size rs (append_run_record size r lines)

-- `none` is an error.
unfoldable pub read_run_records : (RunRecord → ℕ) → ℕ → List RunRecord → Option (List RunRecord)
read_run_records size limit lines =
    let read = scan size lines in if read.1 then some (last limit read.0) else none
