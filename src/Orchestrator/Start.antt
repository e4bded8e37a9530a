-- ===== src/Orchestrator/Start.antt =====
-- internal/orchestrator/lifecycle.go, `Start`: the checks of a request and the run that it makes.
-- `has_runtime` says whether the orchestrator has an agent runtime.
use koios.Prelude.{
  ℕ, suc, Bool, true, false, not, ◌&&◌, ◌||◌, Option, none, some, List, [], ◌∷◌, ◌++◌, map, ltb,
  if◌then◌else◌, length, Dict, lookup, insert, Text, text, text_eqb, text_eq, is_empty, decimal,
}
use koios.Orchestrator.Cycle.{detect_cycle}
use koios.Orchestrator.Types.{
  AggregationMode, WaitPolicy, wait_all, starting, ChildTask, ChildResult, StageSpec, FanOutRequest,
  Run,
}

pub data StartError : Type 0 where
  peer_id_required : StartError
  max_depth_exceeded : ℕ → StartError
  tasks_empty : StartError
  stage_has_no_tasks : ℕ → StartError
  reducer_requires_runtime : StartError
  duplicate_task_label : Text → StartError
  unknown_label : Text → Text → StartError
  dependency_cycle : StartError

abbrev pub max_orchestration_depth : ℕ
max_orchestration_depth = 3

unfoldable pub is_some {ℓ} : {A : Type ℓ} → Option A → Bool
is_some none = false
is_some (some a) = true

-- The label of the `i`-th task.
unfoldable pub effective_label : ℕ → ChildTask → Text
effective_label i t = if is_empty t.label then text "child-" ++ decimal i else t.label

unfoldable pub labels_from : ℕ → List ChildTask → List Text
labels_from i [] = []
labels_from i (t ∷ ts) = effective_label i t ∷ labels_from (suc i) ts

unfoldable pub has_label : Text → List Text → Bool
has_label l [] = false
has_label l (x ∷ xs) = text_eqb x l || has_label l xs

-- The first label that an earlier task has; `seen` holds the labels of the earlier tasks.
unfoldable pub find_duplicate : List Text → List Text → Option Text
find_duplicate seen [] = none
find_duplicate seen (l ∷ ls) =
    let rest = find_duplicate (l ∷ seen) ls in if has_label l seen then some l else rest

unfoldable pub label_to_idx : ℕ → List Text → Dict Text ℕ → Dict Text ℕ
label_to_idx i [] idx = idx
label_to_idx i (l ∷ ls) idx = label_to_idx (suc i) ls (insert l i idx)

unfoldable pub find_unknown : List Text → List Text → Option Text
find_unknown labels [] = none
find_unknown labels (d ∷ ds) =
    let rest = find_unknown labels ds in if has_label d labels then rest else some d

unfoldable pub check_dependencies : List Text → List ChildTask → Option StartError
check_dependencies labels [] = none
check_dependencies labels (t ∷ ts) = elim (find_unknown labels t.depends_on) [
  | none ↦ check_dependencies labels ts
  | some d ↦ some (unknown_label t.label d)
]

unfoldable pub resolve : Dict Text ℕ → List Text → List ℕ
resolve idx [] = []
resolve idx (d ∷ ds) = elim (lookup d idx) [ none ↦ resolve idx ds | some j ↦ j ∷ resolve idx ds ]

unfoldable pub adjacency : Dict Text ℕ → List ChildTask → List (List ℕ)
adjacency idx [] = []
adjacency idx (t ∷ ts) = resolve idx t.depends_on ∷ adjacency idx ts

-- The graph of the tasks of a request.
unfoldable pub task_graph : List ChildTask → List (List ℕ)
task_graph ts = adjacency (label_to_idx 0 (labels_from 0 ts) []) ts

unfoldable pub check_tasks : List ChildTask → Option StartError
check_tasks ts =
    let labels = labels_from 0 ts in
    elim (find_duplicate [] labels) [
      | some l ↦ some (duplicate_task_label l)
      | none ↦ elim (check_dependencies labels ts) [
        | some e ↦ some e
        | none ↦ if detect_cycle (length ts) (task_graph ts) then some dependency_cycle else none
      ]
    ]

unfoldable pub find_empty_stage : ℕ → List StageSpec → Option ℕ
find_empty_stage i [] = none
find_empty_stage i (s ∷ ss) =
    let rest = find_empty_stage (suc i) ss in if is_empty s.tasks then some i else rest

unfoldable pub is_multi_stage : FanOutRequest → Bool
is_multi_stage req =
    not (is_empty req.stages) || is_some req.verifier_task || is_some req.arbiter_task

unfoldable pub is_reducer : Option AggregationMode → Bool
is_reducer none = false
is_reducer (some AggregationMode.collect) = false
is_reducer (some AggregationMode.concat) = false
is_reducer (some AggregationMode.reducer) = true
is_reducer (some AggregationMode.vote) = false

unfoldable pub validate : Bool → FanOutRequest → Option StartError
validate has_runtime req =
    if is_empty req.peer_id
    then some peer_id_required
    else if ltb max_orchestration_depth req.depth
    then some (max_depth_exceeded req.depth)
    else if is_empty req.tasks && not (is_multi_stage req)
    then some tasks_empty
    else elim (find_empty_stage 0 req.stages) [
      | some i ↦ some (stage_has_no_tasks i)
      | none ↦
          if is_reducer req.aggregation && not has_runtime
          then some reducer_requires_runtime
          else check_tasks req.tasks
    ]

unfoldable pub or_wait_all : Option WaitPolicy → WaitPolicy
or_wait_all none = wait_all
or_wait_all (some p) = p

unfoldable pub or_collect : Option AggregationMode → AggregationMode
or_collect none = AggregationMode.collect
or_collect (some a) = a

-- The slot of a child that has not been spawned.
unfoldable pub new_child : Text → ChildResult
new_child l = record {
  label = l;
  run_id = [];
  session_key = [];
  status = none;
  final_reply = [];
  error = [];
  steps = 0;
  tool_calls = 0;
  attempts = 0;
  started_at = 0;
  finished_at = 0;
  schema_violations = [];
  output_json = [];
}

unfoldable pub new_run : ℕ → Text → FanOutRequest → Run
new_run now id req = record {
  id = id;
  peer_id = req.peer_id;
  parent_session_key = req.parent_session_key;
  parent_run_id = req.parent_run_id;
  status = starting;
  wait_policy = or_wait_all req.wait_policy;
  aggregation = or_collect req.aggregation;
  reducer_prompt = req.reducer_prompt;
  max_concurrency = req.max_concurrency;
  children = if is_multi_stage req then [] else map new_child (labels_from 0 req.tasks);
  barrier_groups = req.barrier_groups;
  aggregated_reply = [];
  error = [];
  created_at = now;
  started_at = 0;
  finished_at = 0;
  stage_results = [];
}

pub record Orchestrator : Type 0 where
  pub has_runtime : Bool
  pub runs : Dict Text Run
  -- The runs that can be cancelled, each with whether it was.
  pub cancels : Dict Text Bool

pub data StartResult : Type 0 where
  refused : StartError → StartResult
  started : Run → Orchestrator → StartResult

unfoldable pub start : ℕ → Text → FanOutRequest → Orchestrator → StartResult
start now id req o = elim (validate o.has_runtime req) [
  | some e ↦ refused e
  | none ↦
      let run = new_run now id req in
      started run (record o { runs = insert id run o.runs; cancels = insert id false o.cancels })
]
