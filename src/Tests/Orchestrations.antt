-- ===== src/Tests/Orchestrations.antt =====
-- Examples for internal/orchestrator.
use koios.Prelude.{
  ℕ, zero, suc, ◌+◌, ◌-◌, ◌≤◌, ◌<◌, ◌≡◌, ◌↔◌, ◌⊎◌, refl, arith, true, false, Option, none, some,
  List, [], ◌∷◌, map, length, lookup, insert, text_eq, get_or, Text, text,
}
use koios.Subagent.Records.{Status, completed, errored}
use koios.Orchestrator.Types.{
  ChildTask, ChildResult, ChildOutcome, FanOutRequest, Run, schema_warn, wait_first, WaitPolicy,
}
use koios.Orchestrator.Cycle.{
  detect_cycle, search_graph, visit_roots, visit_neighbours, dfs, then_search, blacken, range_from,
}
use koios.Orchestrator.Graph.{HasCycle}
use koios.Orchestrator.Verdict.{detect_cycle_iff}
use koios.Orchestrator.Start.{
  Orchestrator, start, started, task_graph, adjacency, label_to_idx, labels_from, effective_label,
  resolve, new_child, or_wait_all, or_collect,
}
use koios.Orchestrator.Accepted.{task_graph-InRange, IsStartable, start_iff}
use koios.Orchestrator.Wait.{
  stage_wait_satisfied, policy_met, completed_count, finished_count, child_completed,
  child_finished, total_steps, max_concurrency,
}
use koios.Orchestrator.Wave.{
  Plan, Wave, WaveEvent, launch_next, finish, collect, new_plan, new_wave, run_wave, wave_step,
  launch, is_launching, finish_child, collect_one, check_budget, check_policy, is_wait_all, is_over,
  release, dependents, entries_of, remove_one, initially_ready,
}
use koios.Orchestrator.Released.{occ}
use koios.Orchestrator.Ordered.{run_wave_order}
use koios.Orchestrator.Unstuck.{run_wave_unstuck}
use koios.Orchestrator.Child.{Attempt, is_completed, run_child_hedged, run_tries, effective_retry}
use koios.Orchestrator.Hedged.{first_success, hedge_result, run_child_hedged_lem}
use koios.Orchestrator.Attempts.{outcome_of, AllFail, run_tries_lem}
use koios.Orchestrator.Aggregate.{aggregate_with, aggregate_collect, collect_parts, join_parts}
use koios.Orchestrator.Stages.{
  StageRunner, StageState, given_stage, first_state, runner_spec, build_tasks, make_stage_tasks,
  label_tasks, stage_request, run_dag_wave, end_stage, run_stage,
}
use koios.Orchestrator.Recorded.{RecordsUnmet, run_stage_unmet}

abbrev or_else_some {ℓ} : {A : Type ℓ} → A → Option A → A
or_else_some a none = a
or_else_some a (some b) = b

abbrev named : Text → List Text → ChildTask
named label deps = record {
  label = label;
  spawn = record { task = text "look"; peer_id = []; model = []; timeout = 0 };
  output_schema = [];
  depends_on = deps;
  retry = record { max_attempts = 3; backoff_base = 0 };
  hedge_count = 0;
  fallback_task = none;
}

-- The second task waits for the first.
abbrev two_tasks : List ChildTask
two_tasks = named (text "a") [] ∷ named (text "b") (text "a" ∷ []) ∷ []

-- Each of the two tasks waits for the other.
abbrev ring_tasks : List ChildTask
ring_tasks = named (text "a") (text "b" ∷ []) ∷ named (text "b") (text "a" ∷ []) ∷ []

abbrev fan_out : FanOutRequest
fan_out = record {
  peer_id = text "bob";
  parent_session_key = text "bob";
  depth = 1;
  tasks = two_tasks;
  max_concurrency = 1;
  timeout = 0;
  child_timeout = 0;
  wait_policy = none;
  aggregation = none;
  reducer_prompt = [];
  model = [];
  announce_start = false;
  parent_run_id = [];
  verifier_task = none;
  arbiter_task = none;
  stages = [];
  stream_partials = false;
  retry = record { max_attempts = 0; backoff_base = 0 };
  budget = record { max_steps = 0; max_child_wall_clock = 0 };
  barrier_groups = [];
  schema_validation_mode = schema_warn;
}

abbrev idle : Orchestrator
idle = record { has_runtime = false; runs = []; cancels = [] }

ring_is_found : detect_cycle 2 (task_graph ring_tasks) ≡ true
unfolding detect_cycle search_graph visit_roots visit_neighbours dfs then_search blacken range_from
    task_graph adjacency label_to_idx labels_from effective_label resolve lookup insert
ring_is_found = refl

detect_cycle_iff_example :
    (detect_cycle 2 (task_graph ring_tasks) ≡ true) ↔ HasCycle (task_graph ring_tasks)
detect_cycle_iff_example =
    detect_cycle_iff (task_graph ring_tasks) 2 (task_graph-InRange ring_tasks)

start_iff_example :
    ((run : Run) × (p : Orchestrator) × (start 7 (text "o1") fan_out idle ≡ started run p))
    ↔ IsStartable false fan_out
start_iff_example = start_iff 7 (text "o1") fan_out idle

abbrev plan : Plan
plan = record {
  adj = task_graph two_tasks;
  capacity = 1;
  wait_policy = WaitPolicy.wait_all;
  max_steps = 0;
  prior_steps = 0;
}

abbrev slots : List ChildResult
slots = map (λ (t : ChildTask). new_child t.label) two_tasks

abbrev done : ChildResult
done = record (new_child (text "a")) { status = some completed; final_reply = text "yes" }

abbrev one_done : List WaveEvent
one_done = launch_next ∷ finish 0 done ∷ []

abbrev half_way : Wave
half_way =
    or_else_some (new_wave plan slots false) (run_wave plan one_done (new_wave plan slots false))

half_way_reached : run_wave plan one_done (new_wave plan slots false) ≡ some half_way
unfolding run_wave wave_step launch finish_child is_launching new_wave initially_ready
    stage_wait_satisfied policy_met completed_count finished_count child_completed child_finished
    new_child release dependents entries_of remove_one task_graph adjacency label_to_idx labels_from
    effective_label resolve lookup insert
half_way_reached = refl

run_wave_order_example :
    ((i : ℕ) → occ i half_way.begun ≤ 1)
    × ((i d : ℕ)
        → 0 < occ i half_way.begun
        → 0 < occ d (get_or plan.adj i [])
        → 0 < occ d half_way.finished)
    × ((i : ℕ) → occ i half_way.active + occ i half_way.finished ≡ occ i half_way.begun)
    × (length half_way.active ≤ 1)
run_wave_order_example = run_wave_order plan slots false one_done half_way half_way_reached

two_tasks_acyclic : detect_cycle (length plan.adj) plan.adj ≡ false
unfolding detect_cycle search_graph visit_roots visit_neighbours dfs then_search blacken range_from
    task_graph adjacency label_to_idx labels_from effective_label resolve lookup insert
two_tasks_acyclic = refl

half_way_launching : is_launching plan half_way ≡ true
unfolding run_wave wave_step launch finish_child is_launching new_wave initially_ready
    stage_wait_satisfied policy_met completed_count finished_count child_completed child_finished
    new_child release dependents entries_of remove_one task_graph adjacency label_to_idx labels_from
    effective_label resolve lookup insert
half_way_launching = refl

half_way_free : half_way.active ≡ []
unfolding run_wave wave_step launch finish_child is_launching new_wave initially_ready
    stage_wait_satisfied policy_met completed_count finished_count child_completed child_finished
    new_child release dependents entries_of remove_one task_graph adjacency label_to_idx labels_from
    effective_label resolve lookup insert
half_way_free = refl

run_wave_unstuck_example : (v : Wave) × (launch plan half_way ≡ some v)
unfolding task_graph adjacency
run_wave_unstuck_example =
    run_wave_unstuck plan slots false one_done half_way (task_graph-InRange two_tasks)
      two_tasks_acyclic (omega arith) half_way_reached half_way_launching half_way_free

abbrev outcome : Option Status → Text → ChildOutcome
outcome s reply = record {
  run_id = text "r";
  session_key = text "k";
  status = s;
  final_reply = reply;
  err = [];
  steps = 1;
  tool_calls = 0;
  started_at = 1;
  finished_at = 2;
}

-- The first attempt fails, and the later ones succeed.
abbrev flaky : ℕ → Attempt
flaky zero = record { stopped = false; arrivals = outcome (some errored) [] ∷ [] }
flaky (suc i) = record { stopped = false; arrivals = outcome (some completed) (text "yes") ∷ [] }

never_stopped : (i : ℕ) → (flaky i).stopped ≡ false
never_stopped zero = refl
never_stopped (suc i) = refl

run_tries_lem_example :
    let n = (effective_retry (named (text "a") []) fan_out).max_attempts in
    ((k : ℕ) × (k < n)
      × AllFail flaky 0 k
      × (is_completed (outcome_of flaky k) ≡ true)
      × (run_tries fan_out (named (text "a") []) flaky (outcome none [])
          ≡ some record {
            last_outcome = outcome_of flaky k;
            succeeded = true;
            attempts = suc k;
            stopped = false;
          }))
    ⊎ (AllFail flaky 0 n
        × (run_tries fan_out (named (text "a") []) flaky (outcome none [])
            ≡ some record {
              last_outcome = outcome_of flaky (n - 1);
              succeeded = false;
              attempts = n;
              stopped = false;
            }))
run_tries_lem_example =
    run_tries_lem fan_out (named (text "a") []) flaky (outcome none []) (omega arith) never_stopped

abbrev two_outcomes : List ChildOutcome
two_outcomes = outcome (some errored) [] ∷ outcome (some completed) (text "yes") ∷ []

run_child_hedged_lem_example :
    run_child_hedged 2 two_outcomes ≡ hedge_result (first_success two_outcomes)
run_child_hedged_lem_example = run_child_hedged_lem two_outcomes

abbrev plain : Text → Text
plain t = t

abbrev no_vote : FanOutRequest → List ChildResult → Text
no_vote req cs = []

abbrev failed : ChildResult
failed = record (new_child (text "a")) { status = some errored; error = text "no" }

abbrev one_fails : ℕ → List WaveEvent
one_fails i = launch_next ∷ finish 0 failed ∷ collect ∷ []

-- A stage that would end with the first child that completes.
abbrev first_stage : StageRunner
first_stage = given_stage record {
  tasks = named (text "a") [] ∷ [];
  aggregation = none;
  reducer_prompt = [];
  wait_policy = some wait_first;
}

abbrev stage_end : StageState
stage_end =
    or_else_some (first_state [] false)
      (run_stage plain none no_vote one_fails fan_out 0 first_stage (first_state [] false))

stage_ends :
    run_stage plain none no_vote one_fails fan_out 0 first_stage (first_state [] false)
    ≡ some stage_end
unfolding run_wave wave_step launch finish_child is_launching new_wave initially_ready
    stage_wait_satisfied policy_met completed_count finished_count child_completed child_finished
    new_child release dependents entries_of remove_one task_graph adjacency label_to_idx labels_from
    effective_label resolve lookup insert run_stage build_tasks make_stage_tasks label_tasks
    stage_request runner_spec run_dag_wave new_plan is_over collect_one check_budget check_policy
    is_wait_all or_wait_all or_collect end_stage aggregate_with aggregate_collect collect_parts
    join_parts total_steps max_concurrency
stage_ends = refl

waits_for_first : is_wait_all (or_wait_all (runner_spec fan_out first_stage).wait_policy) ≡ false
unfolding is_wait_all or_wait_all runner_spec
waits_for_first = refl

-- The stage is recorded, with one child that failed.
stage_is_recorded : length stage_end.stage_results ≡ 1
unfolding run_wave wave_step launch finish_child is_launching new_wave initially_ready
    stage_wait_satisfied policy_met completed_count finished_count child_completed child_finished
    new_child release dependents entries_of remove_one task_graph adjacency label_to_idx labels_from
    effective_label resolve lookup insert run_stage build_tasks make_stage_tasks label_tasks
    stage_request runner_spec run_dag_wave new_plan is_over collect_one check_budget check_policy
    is_wait_all or_wait_all or_collect end_stage aggregate_with aggregate_collect collect_parts
    join_parts total_steps max_concurrency
stage_is_recorded = refl

run_stage_unmet_example :
    RecordsUnmet plain none no_vote one_fails
      (or_wait_all (runner_spec fan_out first_stage).wait_policy)
      (first_state [] false)
      stage_end
run_stage_unmet_example =
    run_stage_unmet plain none no_vote one_fails fan_out 0 first_stage (first_state [] false)
      stage_end waits_for_first stage_ends
