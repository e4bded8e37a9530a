-- ===== src/Tests/Schedules.antt =====
-- Examples for internal/scheduler.
use koios.Prelude.{
  ℕ, Dict, ◌*◌, ◌≡◌, refl, arith, true, false, none, some, List, [], ◌∷◌, map, length, keep, take,
  lookup, NodupKeys, Text, text, text_eq, contains,
}
use koios.Scheduler.Jobs.{Job, Clock, kind_at, kind_every, is_at, is_permanent_error}
use koios.Scheduler.Dispatch.{Env, Scheduler, dispatch, is_refused, is_active}
use koios.Scheduler.Retries.{Failure}
use koios.Scheduler.Launched.{is_ready, dispatch-launched}
use koios.Scheduler.Pending.{lookup-dispatch}
use koios.Scheduler.RunLog.{RunRecord, run_ok, append_all, read_run_records, prune_run_log, scan}
use koios.Scheduler.Newest.{read_run_records-append_all}

abbrev clock : Clock
clock = record {
  parse_zoned = λ s. none;
  parse_plain = λ s. some 7;
  is_zone = λ s. false;
  parse_cron = λ s. none;
  hash = length;
  to_lower = λ s. s;
}

abbrev job_of : Text → Job
job_of id = record {
  job_id = id;
  peer_id = text "bob";
  name = id;
  schedule = record {
    kind = kind_every;
    at = [];
    every_ms = 60_000;
    expr = [];
    tz = [];
    stagger_ms = 0;
  };
  dispatch = record { defer_if_active = false; require_approval = false };
  enabled = true;
  delete_after_run = false;
  next_run_at = 5;
  last_run_at = 0;
  consec_errors = 0;
}

abbrev reminder : Job
reminder =
    let job = job_of (text "r") in
    record job {
      schedule = record job.schedule { kind = kind_at; at = text "2026-01-01T00:00:00" };
    }

abbrev failures : List Failure
failures =
    (10, text "timeout") ∷ (20, text "timeout") ∷ (30, text "timeout") ∷ (40, text "timeout") ∷ []

timeout_is_transient : is_permanent_error clock (text "timeout") ≡ false
unfolding is_permanent_error contains
timeout_is_transient = refl

abbrev one_reminder : Dict Text Job
one_reminder = (text "r", reminder) ∷ []

abbrev env : Env
env = record { now = 9; hooks = none; presence = none }

abbrev scheduler : Scheduler
scheduler = record {
  jobs = (text "a", job_of (text "a")) ∷ (text "b", job_of (text "b")) ∷ [];
  free_slots = 1;
  launched = [];
  skipped = [];
}

dispatch-launched_example :
    (dispatch env scheduler).launched ≡ take 1 (keep (is_ready env) (map (λ e. e.1) scheduler.jobs))
dispatch-launched_example = dispatch-launched env scheduler

a_is_ready : is_ready env (job_of (text "a")) ≡ true
unfolding is_ready is_refused is_active
a_is_ready = refl

a_is_stored : lookup (text "a") scheduler.jobs ≡ some (job_of (text "a"))
unfolding lookup
a_is_stored = refl

keys_differ : NodupKeys scheduler.jobs
unfolding lookup
keys_differ = (refl, (refl, tt))

every_is_recurring : is_at (job_of (text "a")).schedule.kind ≡ false
unfolding is_at
every_is_recurring = refl

lookup-dispatch_example : lookup (text "a") (dispatch env scheduler).jobs ≡ some (job_of (text "a"))
lookup-dispatch_example =
    (lookup-dispatch env (text "a") (job_of (text "a")) scheduler (refl, (refl, tt)) keys_differ
        every_is_recurring a_is_stored).0
      a_is_ready

abbrev record_of : Text → RunRecord
record_of id = record {
  run_id = id;
  job_id = text "a";
  started_at = 1;
  ended_at = 2;
  status = run_ok;
  error = [];
  output = [];
}

abbrev line_size : RunRecord → ℕ
line_size r = length r.run_id * 30_000

abbrev records : List RunRecord
records = record_of (text "x") ∷ record_of (text "yy") ∷ record_of (text "z") ∷ []

read_run_records-append_all_example :
    read_run_records line_size 2 (append_all line_size records [])
    ≡ some (record_of (text "yy") ∷ record_of (text "z") ∷ [])
read_run_records-append_all_example =
    read_run_records-append_all line_size records 2 (omega arith, (omega arith, (omega arith, tt)))
      (omega arith)

-- A pruning that meets a line beyond the buffer keeps older lines and drops the newest.
prune_run_log_overlong :
    prune_run_log line_size 1 (
      record_of (text "x")
      ∷ record_of (text "yy")
      ∷ record_of (text "zzz")
      ∷ record_of (text "w")
      ∷ [])
    ≡ record_of (text "yy") ∷ []
unfolding prune_run_log scan
prune_run_log_overlong = refl
