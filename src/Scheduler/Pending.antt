-- ===== src/Scheduler/Pending.antt =====
-- internal/scheduler/scheduler.go, `dispatch`: what a tick leaves in the store.
use koios.Prelude.{
  ◌+◌, ◌≡◌, ◌∙◌, sym, ap, subst, refl, arith, true, false, not, ◌&&◌, ◌||◌, none, some, [], ◌∷◌,
  map, All, ltb, leb, nat_eqb, if◌then◌else◌, Bool-cases, Option-cases, inl, inr, Dict, lookup,
  NodupKeys, lookup-insert, Text, text_eq, ◌==◌, ==_lem,
}
use koios.Scheduler.Jobs.{Job, is_at, update}
use koios.Scheduler.Dispatch.{
  Env, Scheduler, tick_interval, dispatch, dispatch_job, dispatch_jobs, should_defer, postpone,
  acquire, launch,
}
use koios.Scheduler.Launched.{is_ready}

-- Each job stands under its own id, as `Add` and `load` put it.
abbrev pub IsKeyed : Dict Text Job → Type 0
IsKeyed jobs = All (λ e. e.1.job_id ≡ e.0) jobs

pub lookup-update :
    (id : Text) (job old : Job) (jobs : Dict Text Job)
    → lookup job.job_id jobs ≡ some old
    → lookup id (update job jobs) ≡ (if job.job_id == id then some job else lookup id jobs)
unfolding update
lookup-update id job old jobs h = ground (arith, lookup-insert job.job_id id job jobs)

update_other :
    (id : Text) (job : Job) (jobs : Dict Text Job)
    → (job.job_id == id) ≡ false
    → lookup id (update job jobs) ≡ lookup id jobs
unfolding update
update_other id job jobs h = ground (arith, lookup-insert job.job_id id job jobs)

dispatch_job_other :
    (env : Env) (id : Text) (job : Job) (s : Scheduler)
    → (job.job_id == id) ≡ false
    → lookup id (dispatch_job env job s).jobs ≡ lookup id s.jobs
unfolding dispatch_job should_defer acquire launch postpone
dispatch_job_other env id job s h =
    let u = update_other id record job { next_run_at = env.now + tick_interval } s.jobs h in
    elim (Option-cases (should_defer env job)) [
      | inr (reason, d) ↦ ground arith
      | inl d ↦ ground arith
    ]

-- The job after a tick, if it is not one-shot.
unfoldable after_tick : Env → Job → Job
after_tick env job =
    if job.enabled && not (nat_eqb job.next_run_at 0 || ltb env.now job.next_run_at)
    then (elim (should_defer env job) [
      | none ↦ job
      | some reason ↦ record job { next_run_at = env.now + tick_interval }
    ])
    else job

dispatch_job_self :
    (env : Env) (id : Text) (job : Job) (s : Scheduler)
    → job.job_id ≡ id
    → is_at job.schedule.kind ≡ false
    → lookup id s.jobs ≡ some job
    → lookup id (dispatch_job env job s).jobs ≡ some (after_tick env job)
unfolding dispatch_job acquire launch postpone after_tick
dispatch_job_self env id job s k a h =
    let u =
      lookup-update id record job { next_run_at = env.now + tick_interval } job s.jobs
        (ap (λ i. lookup i s.jobs) k ∙ h) in
    ground (arith, ==_lem job.job_id id)

dispatch_jobs_absent :
    (env : Env) (id : Text) (es : Dict Text Job) (s : Scheduler)
    → IsKeyed es
    → lookup id es ≡ none
    → lookup id (dispatch_jobs env (map (λ e. e.1) es) s).jobs ≡ lookup id s.jobs
unfolding dispatch_jobs lookup
dispatch_jobs_absent env id [] s k h = refl
dispatch_jobs_absent env id ((key, job) ∷ es) s k h = elim (Bool-cases (key == id)) [
  | inl e ↦ absurd (ground arith)
  | inr e ↦
      dispatch_jobs_absent env id es (dispatch_job env job s) k.1 (ground arith)
      ∙ dispatch_job_other env id job s (ap (λ i. i == id) k.0 ∙ e)
]

lookup-dispatch_jobs :
    (env : Env) (id : Text) (job : Job) (es : Dict Text Job) (s : Scheduler)
    → IsKeyed es
    → NodupKeys es
    → lookup id es ≡ some job
    → is_at job.schedule.kind ≡ false
    → lookup id s.jobs ≡ some job
    → lookup id (dispatch_jobs env (map (λ e. e.1) es) s).jobs ≡ some (after_tick env job)
unfolding dispatch_jobs lookup
lookup-dispatch_jobs env id job [] s k u l a h = absurd (ground arith)
lookup-dispatch_jobs env id job ((key, other) ∷ es) s k u l a h = elim (Bool-cases (key == id)) [
  | inl e ↦
      let same : other ≡ job = ground arith in
      let key_id : key ≡ id = ground (arith, ==_lem key id) in
      let gone = ap (λ i. lookup i es) (sym key_id) ∙ u.0 in
      dispatch_jobs_absent env id es (dispatch_job env other s) k.1 gone
      ∙ subst (λ j. lookup id (dispatch_job env j s).jobs ≡ some (after_tick env job)) (sym same)
          (dispatch_job_self env id job s (ap (λ j. j.job_id) (sym same) ∙ k.0 ∙ key_id) a h)
  | inr e ↦
      lookup-dispatch_jobs env id job es (dispatch_job env other s) k.1 u.1 (ground arith) a
        (dispatch_job_other env id other s (ap (λ i. i == id) k.0 ∙ e) ∙ h)
]

-- A recurring job that is ready at a tick stands in the store as before after it, whether the tick
-- starts it or not: it is due at the next tick too, while it still runs. One that is due but not
-- ready is put off to the next tick, and one that is disabled or not due is left as it is.
pub lookup-dispatch :
    (env : Env) (id : Text) (job : Job) (s : Scheduler)
    → IsKeyed s.jobs
    → NodupKeys s.jobs
    → is_at job.schedule.kind ≡ false
    → lookup id s.jobs ≡ some job
    → let stored = lookup id (dispatch env s).jobs in
      let is_due = job.enabled && leb 1 job.next_run_at && leb job.next_run_at env.now in
      (is_ready env job ≡ true → stored ≡ some job)
      × (is_ready env job ≡ false
          → is_due ≡ true
          → stored ≡ some (record job { next_run_at = env.now + tick_interval }))
      × (is_due ≡ false → stored ≡ some job)
unfolding dispatch after_tick is_ready should_defer
lookup-dispatch env id job s k u a h =
    let l = lookup-dispatch_jobs env id job s.jobs s k u h a h in
    (λ r. ground arith, λ r d. ground arith, λ d. ground arith)
