-- ===== src/Scheduler/Retries.antt =====
-- internal/scheduler/scheduler.go, the ends of the executions of one job.
use koios.Prelude.{
  ℕ, suc, ◌+◌, ◌*◌, ◌≡◌, Bool, true, not, ◌&&◌, ◌||◌, some, List, [], ◌∷◌, length, leb, nat_eqb,
  if◌then◌else◌, Dict, Text, text_eq,
}
use koios.Scheduler.Jobs.{Job, Clock, second, is_permanent_error, execute_job}

-- The time at which an execution ends and the error it ends with.
abbrev pub Failure : Type 0
Failure = ℕ × Text

-- The store after executions of one job end with these errors. Whether they overlapped is not asked:
-- each end reads the job anew.
unfoldable pub end_failures : Clock → List Failure → Text → Dict Text Job → Dict Text Job
end_failures c [] id jobs = jobs
end_failures c ((now, err) ∷ fs) id jobs =
    end_failures c fs id (execute_job c now (some err) id jobs)

unfoldable pub all_transient : Clock → List Failure → Bool
all_transient c [] = true
all_transient c ((now, err) ∷ fs) = not (is_permanent_error c err) && all_transient c fs

-- The next run after the errors, of which `errors` came before.
unfoldable pub retried_at : List Failure → ℕ → ℕ → ℕ
retried_at [] errors before = before
retried_at ((now, err) ∷ fs) errors before = retried_at fs (suc errors) (
    now
    + (if nat_eqb errors 0
        then 30 * second
        else if nat_eqb errors 1
        then 60 * second
        else 300 * second))

-- What errors make of a one-shot job.
abbrev After : Clock → List Failure → Job → Job → Type 0
After c fs job j =
    (j.consec_errors ≡ job.consec_errors + length fs)
    × (j.enabled ≡ (
        job.enabled
        && all_transient c fs
        && (nat_eqb (length fs) 0 || leb (job.consec_errors + length fs) 3)))
    × (j.enabled ≡ true → j.next_run_at ≡ retried_at fs job.consec_errors job.next_run_at)
