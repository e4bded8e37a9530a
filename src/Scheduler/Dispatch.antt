-- ===== src/Scheduler/Dispatch.antt =====
-- internal/scheduler/scheduler.go, `dispatch` and `shouldDefer`. A goroutine that `dispatch` starts is
-- an entry of `launched`, and the semaphore its number of free slots. A record of a skipped run is the
-- job's id with the reason; that the run log and the ledger take it is not looked at by the source.
use koios.Prelude.{
  ℕ, suc, zero, ◌+◌, ◌*◌, Bool, false, not, ◌&&◌, ◌||◌, Option, none, some, List, [], ◌∷◌, ◌++◌,
  map, ltb, nat_eqb, if◌then◌else◌, Dict, Text, text, text_eqb,
}
use koios.Presence.Manager
use koios.Presence.Manager.{Manager}
use koios.Scheduler.Jobs.{Job, is_at, update, second}

abbrev pub tick_interval : ℕ
tick_interval = 5 * second

pub record Env : Type 0 where
  pub now : ℕ
  -- Whether `Emit` for the approval of a job returns no error; `none` if there are no hooks.
  pub hooks : Option (Job → Bool)
  pub presence : Option Manager

pub record Scheduler : Type 0 where
  pub jobs : Dict Text Job
  pub free_slots : ℕ
  pub launched : List Job
  pub skipped : List (Text × Text)

unfoldable pub is_refused : Option (Job → Bool) → Job → Bool
is_refused none job = false
is_refused (some approve) job = job.dispatch.require_approval && not (approve job)

unfoldable pub is_active : Option Manager → Text → Bool
is_active none peer = false
is_active (some m) peer = elim (Manager.get peer m) [
  | none ↦ false
  | some st ↦ text_eqb st.status (text "online") || st.typing
]

-- The reason, if the run is deferred.
unfoldable pub should_defer : Env → Job → Option Text
should_defer env job =
    if is_refused env.hooks job
    then some (text "approval required")
    else if job.dispatch.defer_if_active && is_active env.presence job.peer_id
    then some (text "peer is active")
    else none

-- The update of a copy of the job that is put off to the next tick.
unfoldable pub postpone : Env → Job → Dict Text Job → Dict Text Job
postpone env job jobs = update record job { next_run_at = env.now + tick_interval } jobs

unfoldable pub launch : Job → Scheduler → ℕ → Scheduler
launch job s free = record s { free_slots = free; launched = s.launched ++ (job ∷ []) }

-- A send on the semaphore's channel that does not block.
unfoldable pub acquire : Env → Job → Scheduler → ℕ → Scheduler
acquire env job s zero =
    if is_at job.schedule.kind then record s { jobs = postpone env job s.jobs } else s
acquire env job s (suc free) = launch job s free

unfoldable pub dispatch_job : Env → Job → Scheduler → Scheduler
dispatch_job env job s =
    if not job.enabled
    then s
    else if nat_eqb job.next_run_at 0 || ltb env.now job.next_run_at
    then s
    else (elim (should_defer env job) [
      | some reason ↦ record s {
        jobs = postpone env job s.jobs;
        skipped = s.skipped ++ ((job.job_id, reason) ∷ []);
      }
      | none ↦ acquire env job s s.free_slots
    ])

unfoldable pub dispatch_jobs : Env → List Job → Scheduler → Scheduler
dispatch_jobs env [] s = s
dispatch_jobs env (job ∷ jobs) s = dispatch_jobs env jobs (dispatch_job env job s)

-- The loop runs over a snapshot of the store.
unfoldable pub dispatch : Env → Scheduler → Scheduler
dispatch env s = dispatch_jobs env (map (λ e. e.1) s.jobs) s
