-- ===== src/Orchestrator/Recorded.antt =====
-- internal/orchestrator/stages.go, `executeMultiStage`: which stages are recorded.
use koios.Prelude.{
  ℕ, suc, ◌<◌, ◌≡◌, ◌⊎◌, inl, inr, refl, ap, subst, ◌∙◌, arith, Bool, true, false, ◌||◌, Option,
  some, List, [], ◌∷◌, ◌++◌, Bool-cases, Option-cases, length, is_empty, map, Text, Dict,
}
use koios.Orchestrator.Types.{WaitPolicy, ChildTask, ChildResult, FanOutRequest, StageResult}
use koios.Orchestrator.Start.{adjacency, or_wait_all, or_collect, new_child}
use koios.Orchestrator.Wait.{stage_wait_satisfied, total_steps}
use koios.Orchestrator.Wave.{Wave, WaveEvent, new_plan, new_wave, run_wave, is_wait_all, is_over}
use koios.Orchestrator.Aggregate.{aggregate_with}
use koios.Orchestrator.Watched.{wave_unmet}
use koios.Orchestrator.Stages.{
  StageRunner, StageState, runner_spec, build_tasks, label_tasks, stage_request, run_dag_wave,
  end_stage, run_stage,
}

length-adjacency : (idx : Dict Text ℕ) (ts : List ChildTask) → length (adjacency idx ts) ≡ length ts
unfolding adjacency
length-adjacency idx [] = refl
length-adjacency idx (t ∷ ts) = ap suc (length-adjacency idx ts)

run_dag_wave_unmet :
    (req : FanOutRequest) (tasks : List ChildTask) (before slots : List ChildResult)
    (stopped : Bool) (es : List WaveEvent) (w : Wave)
    → 0 < length tasks
    → is_wait_all (or_wait_all req.wait_policy) ≡ false
    → run_dag_wave req tasks before slots stopped es ≡ some w
    → w.stopped ≡ false
    → stage_wait_satisfied w.children (or_wait_all req.wait_policy) ≡ false
unfolding run_dag_wave new_plan
run_dag_wave_unmet req tasks before slots stopped es w n pa h st =
    let plan = new_plan req (or_wait_all req.wait_policy) tasks slots (total_steps before) in
    elim (Option-cases (run_wave plan es (new_wave plan slots stopped))) [
      | inl e ↦ absurd (ground arith)
      | inr (v, e) ↦ elim (Bool-cases (is_over plan v)) [
        | inl b ↦
            let q : v ≡ w = ground arith in
            wave_unmet plan slots stopped es w (rw (length-adjacency _ tasks) n) pa (e ∙ ap some q)
              (subst (λ x. is_over plan x ≡ true) q b) st
        | inr b ↦ absurd (ground arith)
      ]
    ]

label_tasks_some :
    (stage i : ℕ) (ts : List ChildTask) → is_empty ts ≡ false → 0 < length (label_tasks stage i ts)
unfolding label_tasks
label_tasks_some stage i [] h = cc
label_tasks_some stage i (t ∷ ts) h = omega arith

module _ (scrub : Text → Text) (agent : Option (FanOutRequest → Text → Option Text))
    (elect : FanOutRequest → List ChildResult → Text) (schedule : ℕ → List WaveEvent) where
  -- No result is recorded, or one of children that do not meet the policy.
  abbrev pub RecordsUnmet : WaitPolicy → StageState → StageState → Type 0
  RecordsUnmet policy st next =
      (next.stage_results ≡ st.stage_results)
      ⊎ ((r : StageResult) × (next.stage_results ≡ st.stage_results ++ (r ∷ []))
          × (stage_wait_satisfied r.children policy ≡ false))

  end_stage_unmet :
      (req : FanOutRequest) (i : ℕ) (w : Wave) (st : StageState) (policy : WaitPolicy)
      → (w.stopped ≡ false → stage_wait_satisfied w.children policy ≡ false)
      → RecordsUnmet policy st (end_stage scrub agent elect schedule req i w st)
  unfolding end_stage
  end_stage_unmet req i w st policy h = elim (Bool-cases w.stopped) [
    | inl e ↦ inl (ground arith)
    | inr e ↦ elim (Bool-cases w.budget_exceeded) [
      | inl b ↦ inl (ground arith)
      | inr b ↦
          let a = aggregate_with scrub agent elect (or_collect req.aggregation) req w.children in
          elim (Bool-cases a.1) [
            | inl k ↦ inr (
              record { stage_index = i; children = w.children; aggregated_reply = a.0 },
              ground arith,
              h e,
            )
            | inr k ↦ inl (ground arith)
          ]
    ]
  ]

  -- A stage whose policy is not to wait for all children is recorded only if its children do not
  -- meet the policy.
  pub run_stage_unmet :
      (req : FanOutRequest) (i : ℕ) (runner : StageRunner) (st next : StageState)
      → is_wait_all (or_wait_all (runner_spec req runner).wait_policy) ≡ false
      → run_stage scrub agent elect schedule req i runner st ≡ some next
      → RecordsUnmet (or_wait_all (runner_spec req runner).wait_policy) st next
  unfolding run_stage stage_request or_wait_all
  run_stage_unmet req i runner st next pa h =
      let policy = or_wait_all (runner_spec req runner).wait_policy in
      let built = build_tasks req runner st.prior_children st.prior_agg in
      let tasks = label_tasks i 0 built in
      let stage_req = stage_request req (runner_spec req runner) tasks in
      let slots = map (λ (t : ChildTask). new_child t.label) tasks in
      elim (Bool-cases (st.stopped || is_empty built)) [
        | inl b ↦ inl (ground arith)
        | inr b ↦
            elim (Option-cases
              (run_dag_wave stage_req tasks st.children slots st.stopped (schedule i))) [
                | inl e ↦ absurd (ground arith)
                | inr (w, e) ↦
                    let q : end_stage scrub agent elect schedule stage_req i w st ≡ next =
                      ground arith in
                    subst (RecordsUnmet policy st) q (
                      end_stage_unmet stage_req i w st policy (λ s.
                        run_dag_wave_unmet stage_req tasks st.children slots st.stopped (schedule i)
                          w (label_tasks_some i 0 built (ground arith)) pa e s))
              ]
      ]
