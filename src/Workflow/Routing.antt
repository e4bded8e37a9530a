-- ===== src/Workflow/Routing.antt =====
-- internal/workflow/runner.go: where a round leads, and the output it hands on.
use koios.Prelude.{
  ℕ, ◌≡◌, refl, ◌≢◌, ◌⊎◌, inl, inr, Bool, true, false, Option, none, some, [], arith, if◌then◌else◌,
  Option-cases, nat_eq, lookup, Text, text, text_eqb, text_eq, is_empty,
}
use koios.Workflow.Data.{
  condition, Step, Workflow, output, error, Run, AgentRuntime, WebhookRequest, WebhookResponse,
}
use koios.Workflow.Runner.{
  goes_on, execute_step, record_result, route, take_step, round, build_step_index, next_step,
  eval_condition, run_condition, output_of,
}
use koios.Workflow.Termination.{StepOutcome-cases, StepKind-cases}

condition_is_true :
    (b : Bool) → text_eqb (if b then text "true" else text "false") (text "true") ≡ b
condition_is_true true = refl
condition_is_true false = refl

module _ (upper : ℕ → ℕ) (rt : Option AgentRuntime) (client : ℕ → WebhookRequest → WebhookResponse)
    (stopped stopped_in : ℕ → Bool) where
  -- What a step that ran makes of the run.
  abbrev pub Leads : ℕ → Workflow → Run → Step → Run → Type 0
  Leads i wf run step r =
      ((step.kind ≡ condition)
        × (r.last_output ≡ run.last_output)
        × (r.current_step ≡ (
            if eval_condition step.condition_text run.last_output
            then step.true_step
            else step.false_step)))
      ⊎ ((o : Text) × (step.kind ≢ condition)
          × (execute_step upper rt client stopped stopped_in i wf run step ≡ output o)
          × (r.last_output ≡ o)
          × (r.current_step ≡ step.on_success))
      ⊎ ((e : Text) × (execute_step upper rt client stopped stopped_in i wf run step ≡ error e)
          × (is_empty step.on_failure ≡ false)
          × (r.last_output ≡ [])
          × (r.current_step ≡ step.on_failure))

  route_condition :
      (i : ℕ) (wf : Workflow) (run r : Run) (step : Step)
      → step.kind ≡ condition
      → take_step upper rt client stopped stopped_in i wf run (some step) ≡ goes_on r
      → Leads i wf run step r
  unfolding take_step route record_result execute_step next_step run_condition
  route_condition i wf run r step k h =
      inl (ground (arith, condition_is_true (eval_condition step.condition_text run.last_output)))

  route_other :
      (i : ℕ) (wf : Workflow) (run r : Run) (step : Step)
      → step.kind ≢ condition
      → take_step upper rt client stopped stopped_in i wf run (some step) ≡ goes_on r
      → Leads i wf run step r
  unfolding take_step route record_result next_step output_of
  route_other i wf run r step k h =
      elim (StepOutcome-cases (execute_step upper rt client stopped stopped_in i wf run step)) [
        | inl (o, e) ↦ inr (
            inl (
              o,
              k,
              e,
              ground (arith, StepKind-cases step.kind),
              ground (arith, StepKind-cases step.kind),
            ))
        | inr (o, e) ↦ inr (
            inr (
              o,
              e,
              ground (arith, StepKind-cases step.kind),
              ground (arith, StepKind-cases step.kind),
              ground (arith, StepKind-cases step.kind),
            ))
      ]

  no_step :
      (i : ℕ) (wf : Workflow) (run r : Run)
      → take_step upper rt client stopped stopped_in i wf run none ≢ goes_on r
  unfolding take_step
  no_step i wf run r h = cc

  kind_test : (step : Step) → (step.kind ≡ condition) ⊎ (step.kind ≢ condition)
  kind_test step = ground (arith, StepKind-cases step.kind)

  -- A round after which the run goes on ran the step with the current id. A condition leaves the
  -- last output as it is and leads to the step of its answer; another step hands on its own
  -- output and leads to `OnSuccess`; a step that fails leads to its `OnFailure`, which is not
  -- empty, and hands on no output.
  pub round_goes_on_lem :
      (i : ℕ) (wf : Workflow) (run r : Run)
      → round upper rt client stopped stopped_in i wf run ≡ goes_on r
      → (step : Step) × (lookup run.current_step (build_step_index wf) ≡ some step)
        × Leads i wf run step r
  unfolding round
  round_goes_on_lem i wf run r h =
      elim (Option-cases (lookup run.current_step (build_step_index wf))) [
        | inl e ↦ absurd (no_step i wf run r (ground arith))
        | inr (step, e) ↦ (
          step,
          e,
          elim (kind_test step) [
            | inl k ↦ route_condition i wf run r step k (ground arith)
            | inr k ↦ route_other i wf run r step k (ground arith)
          ],
        )
      ]
