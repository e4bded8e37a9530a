-- ===== src/Workflow/Termination.antt =====
-- internal/workflow/runner.go: how the runs of workflows end, with and without cycles.
use koios.Prelude.{
  ℕ, zero, suc, ◌+◌, ◌*◌, ◌<◌, max, ◌≡◌, refl, sym, subst, ◌≢◌, ◌⊎◌, inl, inr, Bool, true, Option,
  some, List, [], ◌∷◌, arith, Option-cases, nat_eq, length, All, lookup, Text, text_eq, is_empty,
}
use koios.Workflow.Data.{
  StepKind, agent_turn, webhook, condition, unknown_kind, Step, Workflow, running, completed,
  failed, cancelled, StepOutcome, output, error, no_error, exceeded_iterations, Run, AgentRuntime,
  WebhookRequest, WebhookResponse,
}
use koios.Workflow.Runner.{
  Progress, goes_on, is_over, execute_step, record_result, route, take_step, round, rounds,
  max_iter, execute, build_step_index, next_step,
}

-- The statuses that a run ends with.
abbrev pub Terminal : Run → Type 0
Terminal r =
    ((r.status ≡ completed) × (is_empty r.current_step ≡ true))
    ⊎ (r.status ≡ failed)
    ⊎ (r.status ≡ cancelled)

-- The steps that the code can go to after `step`.
abbrev pub routes : Step → List Text
routes step = elim step.kind [
  | condition ↦ step.true_step ∷ step.false_step ∷ []
  | agent_turn ↦ step.on_success ∷ step.on_failure ∷ []
  | webhook ↦ step.on_success ∷ step.on_failure ∷ []
  | unknown_kind ↦ step.on_success ∷ step.on_failure ∷ []
]

Progress-cases : (p : Progress) → ((r : Run) × (p ≡ goes_on r)) ⊎ ((r : Run) × (p ≡ is_over r))
Progress-cases (goes_on r) = inl (r, refl)
Progress-cases (is_over r) = inr (r, refl)

pub StepOutcome-cases :
    (o : StepOutcome) → ((t : Text) × (o ≡ output t)) ⊎ ((t : Text) × (o ≡ error t))
StepOutcome-cases (output t) = inl (t, refl)
StepOutcome-cases (error t) = inr (t, refl)

pub StepKind-cases :
    (k : StepKind) → (k ≡ condition) ⊎ ((k ≡ agent_turn) ⊎ ((k ≡ webhook) ⊎ (k ≡ unknown_kind)))
StepKind-cases condition = inl refl
StepKind-cases agent_turn = inr (inl refl)
StepKind-cases webhook = inr (inr (inl refl))
StepKind-cases unknown_kind = inr (inr (inr refl))

module _ (upper : ℕ → ℕ) (rt : Option AgentRuntime) (client : ℕ → WebhookRequest → WebhookResponse)
    (stopped stopped_in : ℕ → Bool) where
  route-is_over :
      (i : ℕ) (step : Step) (o : StepOutcome) (run r : Run)
      → route upper rt client stopped stopped_in i step o run ≡ is_over r
      → Terminal r
  unfolding route
  route-is_over i step (output o) run r h = ground arith
  route-is_over i step (error e) run r h = ground arith

  round-is_over :
      (i : ℕ) (wf : Workflow) (run r : Run)
      → round upper rt client stopped stopped_in i wf run ≡ is_over r
      → Terminal r
  unfolding round take_step
  round-is_over i wf run r h = elim (Option-cases (lookup run.current_step (build_step_index wf))) [
    | inl e ↦ ground arith
    | inr (step, e) ↦
        let res = execute_step upper rt client stopped stopped_in i wf run step in
        ground (
          arith,
          route-is_over i step res (record_result upper rt client stopped stopped_in step res run)
              r,
        )
  ]

  rounds_over :
      (n i : ℕ) (wf : Workflow) (run r : Run)
      → round upper rt client stopped stopped_in i wf run ≡ is_over r
      → rounds upper rt client stopped stopped_in (suc n) i wf run ≡ r
  unfolding rounds
  rounds_over n i wf run r h = ground arith

  rounds_on :
      (n i : ℕ) (wf : Workflow) (run r : Run)
      → round upper rt client stopped stopped_in i wf run ≡ goes_on r
      → rounds upper rt client stopped stopped_in (suc n) i wf run
        ≡ rounds upper rt client stopped stopped_in n (i + 1) wf r
  unfolding rounds
  rounds_on n i wf run r h = ground arith

  rounds-Terminal :
      (n i : ℕ) (wf : Workflow) (run : Run)
      → Terminal (rounds upper rt client stopped stopped_in n i wf run)
  unfolding rounds
  rounds-Terminal zero i wf run = inr (inl refl)
  rounds-Terminal (suc n) i wf run =
      elim (Progress-cases (round upper rt client stopped stopped_in i wf run)) [
        | inl (r, e) ↦
            subst Terminal (sym (rounds_on n i wf run r e)) (rounds-Terminal n (i + 1) wf r)
        | inr (r, e) ↦
            subst Terminal (sym (rounds_over n i wf run r e)) (round-is_over i wf run r e)
      ]

  -- Whatever the steps come to in each round and wherever they lead, cycles included, a run ends: completed, with no
  -- step left to take, failed, or cancelled.
  pub execute-Terminal :
      (wf : Workflow) (run : Run) → Terminal (execute upper rt client stopped stopped_in wf run)
  unfolding execute
  execute-Terminal wf run = rounds-Terminal (max_iter wf) 0 wf (record run { status = running })

  next_step-descends :
      (rank : Text → ℕ) (m : ℕ) (step : Step) (o : Text)
      → All (λ s. rank s < m) (routes step)
      → rank (next_step step o) < m
  unfolding next_step
  next_step-descends rank m step o h = elim (StepKind-cases step.kind) [
    | inl e ↦ ground arith
    | inr e ↦ ground arith
  ]

  -- Only a step that is no condition fails.
  on_failure-descends :
      (rank : Text → ℕ) (m i : ℕ) (wf : Workflow) (run : Run) (step : Step) (e : Text)
      → All (λ s. rank s < m) (routes step)
      → execute_step upper rt client stopped stopped_in i wf run step ≡ error e
      → rank step.on_failure < m
  unfolding execute_step
  on_failure-descends rank m i wf run step e h g = elim (StepKind-cases step.kind) [
    | inl k ↦ ground arith
    | inr k ↦ ground arith
  ]

  round-goes_on :
      (rank : Text → ℕ) (i : ℕ) (wf : Workflow) (run r : Run)
      → round upper rt client stopped stopped_in i wf run ≡ goes_on r
      → ((id : Text) (step : Step)
          → lookup id (build_step_index wf) ≡ some step
          → All (λ s. rank s < rank id) (routes step))
      → rank r.current_step < rank run.current_step
  unfolding round take_step route
  round-goes_on rank i wf run r h acyclic =
      elim (Option-cases (lookup run.current_step (build_step_index wf))) [
        | inl e ↦ ground arith
        | inr (step, e) ↦
            elim (StepOutcome-cases
              (execute_step upper rt client stopped stopped_in i wf run step)) [
                | inl (o, k) ↦ ground (
                  arith,
                  next_step-descends rank (rank run.current_step) step o
                      (acyclic run.current_step step e),
                )
                | inr (o, k) ↦ ground (
                  arith,
                  on_failure-descends rank (rank run.current_step) i wf run step o
                      (acyclic run.current_step step e) k,
                )
              ]
      ]

  route-keeps_going :
      (i : ℕ) (step : Step) (o : StepOutcome) (run r : Run)
      → (run.run_error ≢ exceeded_iterations)
      → (route upper rt client stopped stopped_in i step o run ≡ is_over r)
        ⊎ (route upper rt client stopped stopped_in i step o run ≡ goes_on r)
      → r.run_error ≢ exceeded_iterations
  unfolding route
  route-keeps_going i step (output o) run r k h = ground arith
  route-keeps_going i step (error e) run r k h = ground arith

  round-keeps_going :
      (i : ℕ) (wf : Workflow) (run r : Run)
      → (run.run_error ≢ exceeded_iterations)
      → (round upper rt client stopped stopped_in i wf run ≡ is_over r)
        ⊎ (round upper rt client stopped stopped_in i wf run ≡ goes_on r)
      → r.run_error ≢ exceeded_iterations
  unfolding round take_step record_result
  round-keeps_going i wf run r k h =
      elim (Option-cases (lookup run.current_step (build_step_index wf))) [
        | inl e ↦ ground arith
        | inr (step, e) ↦
            let res = execute_step upper rt client stopped stopped_in i wf run step in
            ground (
              arith,
              route-keeps_going i step res
                  (record_result upper rt client stopped stopped_in step res run) r k,
            )
      ]

  rounds-acyclic :
      (rank : Text → ℕ) (n i : ℕ) (wf : Workflow) (run : Run)
      → ((id : Text) (step : Step)
          → lookup id (build_step_index wf) ≡ some step
          → All (λ s. rank s < rank id) (routes step))
      → run.run_error ≢ exceeded_iterations
      → rank run.current_step < n
      → (rounds upper rt client stopped stopped_in n i wf run).run_error ≢ exceeded_iterations
  rounds-acyclic rank zero i wf run acyclic k h = ground arith
  rounds-acyclic rank (suc n) i wf run acyclic k h =
      elim (Progress-cases (round upper rt client stopped stopped_in i wf run)) [
        | inl (r, e) ↦ rw (rounds_on n i wf run r e) (
            rounds-acyclic rank n (i + 1) wf r acyclic (round-keeps_going i wf run r k (inr e))
              (ground (arith, round-goes_on rank i wf run r e acyclic)))
        | inr (r, e) ↦ rw (rounds_over n i wf run r e) (round-keeps_going i wf run r k (inl e))
      ]

  -- A workflow without cycles is never cut short by the cap on the rounds: where the steps can
  -- be ranked so that every step leads to lower ones, with the first below the cap, the run of a
  -- run record without error does not end with the error of the cap.
  pub execute-acyclic :
      (rank : Text → ℕ) (wf : Workflow) (run : Run)
      → ((id : Text) (step : Step)
          → lookup id (build_step_index wf) ≡ some step
          → All (λ s. rank s < rank id) (routes step))
      → run.run_error ≡ no_error
      → rank run.current_step < max (length wf.steps * 3) 20
      → (execute upper rt client stopped stopped_in wf run).run_error ≢ exceeded_iterations
  unfolding execute max_iter
  execute-acyclic rank wf run acyclic e h =
      rounds-acyclic rank (max_iter wf) 0 wf (record run { status = running }) acyclic
        (ground arith) h
