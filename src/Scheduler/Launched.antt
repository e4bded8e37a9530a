-- ===== src/Scheduler/Launched.antt =====
-- internal/scheduler/scheduler.go, `dispatch`: the jobs that a tick starts.
use koios.Prelude.{
  ℕ, suc, zero, ◌≡◌, sym, ap, ◌∙◌, refl, arith, Bool, true, false, List, [], ◌∷◌, ◌++◌, not, ◌&&◌,
  leb, map, take, keep, Bool-cases, inl, inr, append-nil, append_assoc,
}
use koios.Scheduler.Jobs.{Job}
use koios.Scheduler.Dispatch.{
  Env, Scheduler, dispatch, dispatch_job, dispatch_jobs, should_defer, acquire, launch, is_refused,
  is_active,
}

-- The job is enabled, due, approved if it asks for that, and does not wait for an idle peer.
unfoldable pub is_ready : Env → Job → Bool
is_ready env job =
    job.enabled
    && leb 1 job.next_run_at
    && leb job.next_run_at env.now
    && not (is_refused env.hooks job)
    && not (job.dispatch.defer_if_active && is_active env.presence job.peer_id)

abbrev SameStart : Scheduler → List Job → ℕ → Type 0
SameStart s launched free = (s.launched ≡ launched) × (s.free_slots ≡ free)

dispatch_ready :
    (env : Env) (job : Job) (s : Scheduler) (n : ℕ)
    → is_ready env job ≡ true
    → s.free_slots ≡ suc n
    → SameStart (dispatch_job env job s) (s.launched ++ (job ∷ [])) n
unfolding dispatch_job should_defer acquire launch is_ready
dispatch_ready env job s n r f = ground arith

dispatch_other :
    (env : Env) (job : Job) (s : Scheduler)
    → is_ready env job ≡ false
    → SameStart (dispatch_job env job s) s.launched s.free_slots
unfolding dispatch_job should_defer is_ready
dispatch_other env job s r = ground arith

dispatch_full :
    (env : Env) (job : Job) (s : Scheduler)
    → s.free_slots ≡ 0
    → SameStart (dispatch_job env job s) s.launched 0
unfolding dispatch_job should_defer acquire
dispatch_full env job s f = ground arith

take-suc-keep :
    {A : Type 0} (p : A → Bool) (n : ℕ) (x : A) (xs : List A)
    → p x ≡ true
    → take (suc n) (keep p (x ∷ xs)) ≡ x ∷ take n (keep p xs)
take-suc-keep p n x xs h = rw h

keep_skip :
    {A : Type 0} (p : A → Bool) (x : A) (xs : List A) → p x ≡ false → keep p (x ∷ xs) ≡ keep p xs
keep_skip p x xs h = rw h

dispatch_jobs_full :
    (env : Env) (jobs : List Job) (s : Scheduler)
    → s.free_slots ≡ 0
    → (dispatch_jobs env jobs s).launched ≡ s.launched
unfolding dispatch_jobs
dispatch_jobs_full env [] s f = refl
dispatch_jobs_full env (job ∷ jobs) s f =
    let step = dispatch_full env job s f in
    dispatch_jobs_full env jobs (dispatch_job env job s) step.1 ∙ step.0

launched-dispatch_jobs :
    (env : Env) (jobs : List Job) (s : Scheduler) (n : ℕ)
    → s.free_slots ≡ n
    → (dispatch_jobs env jobs s).launched ≡ s.launched ++ take n (keep (is_ready env) jobs)
unfolding dispatch_jobs
launched-dispatch_jobs env jobs s zero f =
    dispatch_jobs_full env jobs s f ∙ sym (append-nil s.launched)
launched-dispatch_jobs env [] s (suc n) f = sym (append-nil s.launched)
launched-dispatch_jobs env (job ∷ jobs) s (suc n) f = elim (Bool-cases (is_ready env job)) [
  | inl r ↦
      let step = dispatch_ready env job s n r f in
      let rest = launched-dispatch_jobs env jobs (dispatch_job env job s) n step.1 in
      rest
      ∙ ap (λ l. l ++ take n (keep (is_ready env) jobs)) step.0
      ∙ append_assoc s.launched (job ∷ []) (take n (keep (is_ready env) jobs))
      ∙ ap (λ l. s.launched ++ l) (sym (take-suc-keep (is_ready env) n job jobs r))
  | inr r ↦
      let step = dispatch_other env job s r in
      let rest = launched-dispatch_jobs env jobs (dispatch_job env job s) (suc n) (step.1 ∙ f) in
      rest
      ∙ ap (λ l. l ++ take (suc n) (keep (is_ready env) jobs)) step.0
      ∙ ap (λ l. s.launched ++ take (suc n) l) (sym (keep_skip (is_ready env) job jobs r))
]

-- A tick starts, in the order in which it sees the jobs, those that are enabled, due, approved if
-- they ask for it, and not held back by an active peer: as many of them as there are free slots, and
-- no other job.
pub dispatch-launched :
    (env : Env) (s : Scheduler)
    → (dispatch env s).launched
      ≡ s.launched ++ take s.free_slots (keep (is_ready env) (map (λ e. e.1) s.jobs))
unfolding dispatch
dispatch-launched env s = launched-dispatch_jobs env (map (λ e. e.1) s.jobs) s s.free_slots refl
