-- ===== src/Orchestrator/Stages.antt =====
-- internal/orchestrator/stages.go and `execute` of execution.go: the run of a request from its start
-- to its end. `schedule` gives the steps of each wave; a wave that does not end gives `none`.
use koios.Prelude.{
  ℕ, suc, Bool, true, false, not, ◌&&◌, ◌||◌, Option, none, some, List, [], ◌∷◌, ◌++◌, map,
  if◌then◌else◌, Text, text, is_empty, decimal,
}
use koios.Orchestrator.Types.{
  concat, RunStatus, ChildTask, ChildResult, StageSpec, StageResult, FanOutRequest, Run,
}
use koios.Orchestrator.Start.{or_wait_all, or_collect, new_child, is_multi_stage}
use koios.Orchestrator.Wait.{total_steps, mark_cancelled}
use koios.Orchestrator.Wave.{
  Plan, Wave, WaveEvent, new_plan, new_wave, run_wave, is_over, wave_result,
}
use koios.Orchestrator.Aggregate.{line, blank_line, aggregate_with}

unfoldable pub with_task : ChildTask → Text → ChildTask
with_task t prompt = record t { spawn = record t.spawn { task = prompt } }

unfoldable pub make_stage_tasks : List ChildTask → Text → List ChildTask
make_stage_tasks base prior =
    if is_empty prior
    then base
    else map
        (λ t. with_task t (
          text "Prior stage output:"
          ++ line
          ++ prior
          ++ blank_line
          ++ text "Your task:"
          ++ line
          ++ (t.spawn).task))
        base

unfoldable pub build_verifier_tasks : ChildTask → List ChildResult → List ChildTask
build_verifier_tasks template [] = []
build_verifier_tasks template (w ∷ ws) =
    let rest = build_verifier_tasks template ws in
    if is_empty w.final_reply
    then rest
    else record (with_task template
        ((template.spawn).task ++ blank_line ++ text "Work to review:" ++ line ++ w.final_reply)) {
          label = text "verifier-for-" ++ w.label;
        }
      ∷ rest

unfoldable pub arbiter_results : List ChildResult → Text
arbiter_results [] = []
arbiter_results (c ∷ cs) =
    let rest = arbiter_results cs in
    if is_empty c.final_reply
    then rest
    else text "## " ++ c.label ++ line ++ c.final_reply ++ blank_line ++ rest

unfoldable pub build_arbiter_task : ChildTask → List ChildResult → Text → List ChildTask
build_arbiter_task template children summary =
    let t = with_task template (
      (template.spawn).task
      ++ blank_line
      ++ text "All results:"
      ++ line
      ++ arbiter_results children
      ++ (if is_empty summary
          then []
          else line ++ text "Summary of prior stage:" ++ line ++ summary)) in
    (if is_empty t.label then record t { label = text "arbiter" } else t) ∷ []

-- A stage that is to run, with the way its tasks are built.
pub data StageRunner : Type 0 where
  given_stage : StageSpec → StageRunner
  worker_stage : StageRunner
  verifier_stage : ChildTask → StageRunner
  arbiter_stage : ChildTask → StageRunner

unfoldable pub optional_stage : (ChildTask → StageRunner) → Option ChildTask → List StageRunner
optional_stage f none = []
optional_stage f (some t) = f t ∷ []

unfoldable pub stage_runners : FanOutRequest → List StageRunner
stage_runners req =
    if not (is_empty req.stages)
    then map given_stage req.stages
    else worker_stage
      ∷ (optional_stage verifier_stage req.verifier_task
          ++ optional_stage arbiter_stage req.arbiter_task)

unfoldable pub runner_spec : FanOutRequest → StageRunner → StageSpec
runner_spec req (given_stage s) = s
runner_spec req worker_stage = record {
  tasks = req.tasks;
  aggregation = req.aggregation;
  reducer_prompt = req.reducer_prompt;
  wait_policy = req.wait_policy;
}
runner_spec req (verifier_stage t) = record {
  tasks = [];
  aggregation = some concat;
  reducer_prompt = [];
  wait_policy = none;
}
runner_spec req (arbiter_stage t) = record {
  tasks = [];
  aggregation = req.aggregation;
  reducer_prompt = req.reducer_prompt;
  wait_policy = none;
}

unfoldable pub build_tasks : FanOutRequest → StageRunner → List ChildResult → Text → List ChildTask
build_tasks req (given_stage s) prior agg = make_stage_tasks s.tasks agg
build_tasks req worker_stage prior agg = req.tasks
build_tasks req (verifier_stage t) prior agg = build_verifier_tasks t prior
build_tasks req (arbiter_stage t) prior agg = build_arbiter_task t prior agg

-- The labels of a stage's tasks, those without one by position.
unfoldable pub label_tasks : ℕ → ℕ → List ChildTask → List ChildTask
label_tasks stage i [] = []
label_tasks stage i (t ∷ ts) =
    (if is_empty t.label
      then record t { label = text "s" ++ decimal stage ++ text "-child-" ++ decimal i }
      else t)
    ∷ label_tasks stage (suc i) ts

-- The request of a stage: what its spec leaves open is the run's, but for the policy.
unfoldable pub stage_request : FanOutRequest → StageSpec → List ChildTask → FanOutRequest
stage_request req spec tasks = record req {
  tasks = tasks;
  aggregation = elim spec.aggregation [ none ↦ req.aggregation | some a ↦ some a ];
  wait_policy = some (or_wait_all spec.wait_policy);
  reducer_prompt = if is_empty spec.reducer_prompt then req.reducer_prompt else spec.reducer_prompt;
}

-- A wave of tasks behind the children that the run has: the wave at its end.
unfoldable pub run_dag_wave :
    FanOutRequest
    → List ChildTask
    → List ChildResult
    → List ChildResult
    → Bool
    → List WaveEvent
    → Option Wave
run_dag_wave req tasks before slots stopped events =
    let plan = new_plan req (or_wait_all req.wait_policy) tasks slots (total_steps before) in
    elim (run_wave plan events (new_wave plan slots stopped)) [
      | none ↦ none
      | some w ↦ if is_over plan w then some w else none
    ]

pub record StageState : Type 0 where
  pub children : List ChildResult
  pub stage_results : List StageResult
  pub prior_agg : Text
  pub prior_children : List ChildResult
  -- `ctx.Err() != nil || stopEarly`
  pub stopped : Bool

abbrev pub first_state : List ChildResult → Bool → StageState
first_state children stopped = record {
  children = children;
  stage_results = [];
  prior_agg = [];
  prior_children = [];
  stopped = stopped;
}

module _ (scrub : Text → Text) (agent : Option (FanOutRequest → Text → Option Text))
    (elect : FanOutRequest → List ChildResult → Text) (schedule : ℕ → List WaveEvent) where
  -- What follows the wave of a stage.
  unfoldable pub end_stage : FanOutRequest → ℕ → Wave → StageState → StageState
  end_stage req i w st =
      let after = record st { children = st.children ++ w.children; stopped = w.stopped } in
      if w.stopped || w.budget_exceeded
      then record after { stopped = true }
      else let (reply, ok) =
          aggregate_with scrub agent elect (or_collect req.aggregation) req w.children in
        (if ok
          then record after {
            stage_results =
                st.stage_results
                ++ (record { stage_index = i; children = w.children; aggregated_reply = reply }
                    ∷ []);
            prior_agg = reply;
            prior_children = w.children;
          }
          else record after { stopped = true })

  unfoldable pub run_stage : FanOutRequest → ℕ → StageRunner → StageState → Option StageState
  run_stage req i runner st =
      let built = build_tasks req runner st.prior_children st.prior_agg in
      if st.stopped || is_empty built
      then some st
      else let tasks = label_tasks i 0 built in
        let stage_req = stage_request req (runner_spec req runner) tasks in
        let slots = map (λ t. new_child t.label) tasks in
        (elim (run_dag_wave stage_req tasks st.children slots st.stopped (schedule i)) [
          | none ↦ none
          | some w ↦ some (end_stage stage_req i w st)
        ])

  unfoldable pub run_stages : FanOutRequest → ℕ → List StageRunner → StageState → Option StageState
  run_stages req i [] st = some st
  run_stages req i (r ∷ rs) st = elim (run_stage req i r st) [
    | none ↦ none
    | some next ↦ run_stages req (suc i) rs next
  ]

  unfoldable pub last_reply : Text → List StageResult → Text
  last_reply reply [] = reply
  last_reply reply (r ∷ rs) = last_reply r.aggregated_reply rs

  unfoldable pub end_multi_stage : ℕ → StageState → Run → Run
  end_multi_stage now st run =
      if is_empty st.stage_results
      then record run { children = st.children; finished_at = now; status = RunStatus.cancelled }
      else record run {
        children = st.children;
        finished_at = now;
        stage_results = st.stage_results;
        status = RunStatus.completed;
        aggregated_reply = last_reply [] st.stage_results;
      }

  unfoldable pub execute_multi_stage : ℕ → FanOutRequest → Run → Option Run
  execute_multi_stage now req run =
      elim (run_stages req 0 (stage_runners req) (first_state run.children false)) [
        | none ↦ none
        | some st ↦ some (end_multi_stage now st run)
      ]

  -- `finishRun`, without what it publishes and records. `error` is the message of an error.
  unfoldable pub finish_run : ℕ → Text → FanOutRequest → Run → Run
  finish_run now error req run =
      let (reply, ok) =
        aggregate_with scrub agent elect (or_collect req.aggregation) req run.children in
      (if ok
        then record run {
          finished_at = now;
          status = RunStatus.completed;
          aggregated_reply = reply;
        }
        else record run { finished_at = now; status = RunStatus.errored; error = error })

  unfoldable pub end_single_stage : ℕ → Text → FanOutRequest → Plan → Wave → Run → Run
  end_single_stage now error req plan w run =
      let after = record run { children = w.children } in
      if w.budget_exceeded
      then record after {
        status = RunStatus.errored;
        finished_at = now;
        error = text "budget exceeded: max_steps reached";
      }
      else if w.stopped && not (wave_result plan w).0
      then mark_cancelled now after
      else finish_run now error req after

  -- `execute`, from its first change of the run.
  unfoldable pub execute : ℕ → ℕ → Text → FanOutRequest → Run → Option Run
  execute began now error req run =
      let run = record run { status = RunStatus.running; started_at = began } in
      if is_multi_stage req
      then execute_multi_stage now req run
      else let plan = new_plan req (or_wait_all req.wait_policy) req.tasks run.children 0 in
        (elim (run_dag_wave req req.tasks [] run.children false (schedule 0)) [
          | none ↦ none
          | some w ↦ some (end_single_stage now error req plan w run)
        ])
