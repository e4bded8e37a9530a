-- ===== src/Orchestrator/Accepted.antt =====
-- internal/orchestrator/lifecycle.go, `Start`: what holds of a request that is accepted.
use koios.Prelude.{
  ℕ, zero, suc, ◌+◌, ◌<◌, ◌≤◌, ◌≡◌, ◌≢◌, ◌⊎◌, ◌↔◌, inl, inr, refl, ap, arith, Bool, true, false,
  none, some, List, [], ◌∷◌, length, All, Dict, lookup, insert, lookup-insert, Text, text_eqb_iff,
  text_eq, is_empty, is_empty_iff, Bool-cases, Option-cases,
}
use koios.Orchestrator.Cycle.{detect_cycle}
use koios.Orchestrator.Graph.{has, Edge, HasCycle}
use koios.Orchestrator.Neighbours.{InRange}
use koios.Orchestrator.Verdict.{detect_cycle_iff}
use koios.Orchestrator.Types.{ChildTask, StageSpec, FanOutRequest, Run}
use koios.Orchestrator.Start.{
  is_multi_stage, labels_from, has_label, find_duplicate, label_to_idx, find_unknown,
  check_dependencies, resolve, adjacency, task_graph, check_tasks, find_empty_stage, is_reducer,
  validate, new_run, Orchestrator, started, start,
}

-- Every index of the map is below `n`.
abbrev Below : ℕ → Dict Text ℕ → Type 0
Below n idx = (l : Text) (j : ℕ) → lookup l idx ≡ some j → j < n

Below-nil : (n : ℕ) → Below n []
unfolding lookup
Below-nil n = λ l j e. cc

Below-insert :
    (n i : ℕ) (l : Text) (idx : Dict Text ℕ) → i < n → Below n idx → Below n (insert l i idx)
Below-insert n i l idx h b = λ k j e. ground (arith, lookup-insert l k i idx, b k j)

length-labels_from : (i : ℕ) (ts : List ChildTask) → length (labels_from i ts) ≡ length ts
unfolding labels_from
length-labels_from i [] = refl
length-labels_from i (t ∷ ts) = ap suc (length-labels_from (suc i) ts)

label_to_idx-Below :
    (n i : ℕ) (ls : List Text) (idx : Dict Text ℕ)
    → i + length ls ≤ n
    → Below n idx
    → Below n (label_to_idx i ls idx)
unfolding label_to_idx
label_to_idx-Below n i [] idx h b = b
label_to_idx-Below n i (l ∷ ls) idx h b =
    label_to_idx-Below n (suc i) ls (insert l i idx) (omega arith)
      (Below-insert n i l idx (omega arith) b)

resolve-Below :
    (n : ℕ) (idx : Dict Text ℕ) (ds : List Text) (w : ℕ)
    → Below n idx
    → has w (resolve idx ds) ≡ true
    → w < n
unfolding resolve
resolve-Below n idx [] w b h = cc
resolve-Below n idx (d ∷ ds) w b h = elim (Option-cases (lookup d idx)) [
  | inl e ↦ resolve-Below n idx ds w b (ground arith)
  | inr (j, e) ↦ ground (arith, b d j e, resolve-Below n idx ds w b)
]

adjacency-Below :
    (n : ℕ) (idx : Dict Text ℕ) (ts : List ChildTask) (u w : ℕ)
    → Below n idx
    → Edge (adjacency idx ts) u w
    → w < n
unfolding adjacency
adjacency-Below n idx [] u w b h = cc
adjacency-Below n idx (t ∷ ts) zero w b h = resolve-Below n idx t.depends_on w b h
adjacency-Below n idx (t ∷ ts) (suc u) w b h = adjacency-Below n idx ts u w b h

pub task_graph-InRange : (ts : List ChildTask) → InRange (task_graph ts) (length ts)
unfolding task_graph
task_graph-InRange ts = λ u w e.
    adjacency-Below (length ts) (label_to_idx 0 (labels_from 0 ts) []) ts u w
      (label_to_idx-Below (length ts) 0 (labels_from 0 ts) []
        (omega (arith, length-labels_from 0 ts)) (Below-nil (length ts)))
      e

-- The labels differ from each other.
abbrev pub Distinct : List Text → Type 0
Distinct [] = Unit
Distinct (l ∷ ls) = (has_label l ls ≡ false) × Distinct ls

-- None of the labels is one of those of `seen`.
abbrev Fresh : List Text → List Text → Type 0
Fresh seen ls = All (λ l. has_label l seen ≡ false) ls

Fresh-cons :
    (l : Text) (seen ls : List Text)
    → Fresh (l ∷ seen) ls ↔ (Fresh seen ls × (has_label l ls ≡ false))
unfolding has_label
Fresh-cons l seen [] = (λ u. (tt, refl), λ u. tt)
Fresh-cons l seen (x ∷ xs) =
    ground (arith, Fresh-cons l seen xs, text_eqb_iff l x, text_eqb_iff x l)

find_duplicate_iff :
    (seen ls : List Text) → (find_duplicate seen ls ≡ none) ↔ (Distinct ls × Fresh seen ls)
unfolding find_duplicate
find_duplicate_iff seen [] = (λ e. (tt, tt), λ u. refl)
find_duplicate_iff seen (l ∷ ls) =
    ground (arith, find_duplicate_iff (l ∷ seen) ls, Fresh-cons l seen ls)

Fresh-nil : (ls : List Text) → Fresh [] ls
unfolding has_label
Fresh-nil [] = tt
Fresh-nil (l ∷ ls) = (refl, Fresh-nil ls)

abbrev pub AllKnown : List Text → List Text → Type 0
AllKnown labels ds = All (λ d. has_label d labels ≡ true) ds

find_unknown_iff : (labels ds : List Text) → (find_unknown labels ds ≡ none) ↔ AllKnown labels ds
unfolding find_unknown
find_unknown_iff labels [] = (λ e. tt, λ u. refl)
find_unknown_iff labels (d ∷ ds) = ground (arith, find_unknown_iff labels ds)

check_dependencies_iff :
    (labels : List Text) (ts : List ChildTask)
    → (check_dependencies labels ts ≡ none) ↔ All (λ t. AllKnown labels t.depends_on) ts
unfolding check_dependencies
check_dependencies_iff labels [] = (λ e. tt, λ u. refl)
check_dependencies_iff labels (t ∷ ts) =
    ground (arith, check_dependencies_iff labels ts, find_unknown_iff labels t.depends_on)

find_empty_stage_iff :
    (i : ℕ) (ss : List StageSpec)
    → (find_empty_stage i ss ≡ none) ↔ All (λ s. is_empty s.tasks ≡ false) ss
unfolding find_empty_stage
find_empty_stage_iff i [] = (λ e. tt, λ u. refl)
find_empty_stage_iff i (s ∷ ss) = ground (arith, find_empty_stage_iff (suc i) ss)

-- The labels, given or by position, differ, a task depends on labels of tasks only, and no task
-- depends on itself, be it over others.
abbrev pub WellFormedTasks : List ChildTask → Type 0
WellFormedTasks ts =
    Distinct (labels_from 0 ts)
    × All (λ t. AllKnown (labels_from 0 ts) t.depends_on) ts
    × (¬ HasCycle (task_graph ts))

detect_cycle_acyclic :
    (ts : List ChildTask)
    → (detect_cycle (length ts) (task_graph ts) ≡ false) ↔ (¬ HasCycle (task_graph ts))
detect_cycle_acyclic ts =
    let d = detect_cycle_iff (task_graph ts) (length ts) (task_graph-InRange ts) in
    elim (Bool-cases (detect_cycle (length ts) (task_graph ts))) [
      | inl e ↦ (λ h. absurd (ground arith), λ h. absurd (h (d.0 e)))
      | inr e ↦ (λ h c. let t = d.1 c in ground arith, λ h. e)
    ]

check_tasks_iff : (ts : List ChildTask) → (check_tasks ts ≡ none) ↔ WellFormedTasks ts
unfolding check_tasks
check_tasks_iff ts = ground (
  arith,
  find_duplicate_iff [] (labels_from 0 ts),
  Fresh-nil (labels_from 0 ts),
  check_dependencies_iff (labels_from 0 ts) ts,
  detect_cycle_acyclic ts,
)

-- What `Start` asks of a request.
abbrev pub IsStartable : Bool → FanOutRequest → Type 0
IsStartable has_runtime req =
    (req.peer_id ≢ [])
    × (req.depth ≤ 3)
    × ((is_empty req.tasks ≡ false) ⊎ (is_multi_stage req ≡ true))
    × All (λ s. is_empty s.tasks ≡ false) req.stages
    × ((is_reducer req.aggregation ≡ false) ⊎ (has_runtime ≡ true))
    × WellFormedTasks req.tasks

validate_iff :
    (has_runtime : Bool) (req : FanOutRequest)
    → (validate has_runtime req ≡ none) ↔ IsStartable has_runtime req
unfolding validate
validate_iff has_runtime req = ground (
  arith,
  is_empty_iff req.peer_id,
  find_empty_stage_iff 0 req.stages,
  check_tasks_iff req.tasks,
  Bool-cases (is_empty req.tasks),
  Bool-cases (is_multi_stage req),
  Bool-cases (is_reducer req.aggregation),
  Bool-cases has_runtime,
)

-- A run is started exactly for a request with a peer, at most three orchestrations deep, that has
-- tasks or stages, a verifier or an arbiter, no stage without tasks, a runtime if its aggregation
-- is the reducer's, and tasks with different labels whose dependencies are labels of tasks and form
-- no cycle.
pub start_iff :
    (now : ℕ) (id : Text) (req : FanOutRequest) (o : Orchestrator)
    → ((run : Run) × (p : Orchestrator) × (start now id req o ≡ started run p))
      ↔ IsStartable o.has_runtime req
unfolding start
start_iff now id req o = elim (Option-cases (validate o.has_runtime req)) [
  | inl e ↦ (
    λ h. (validate_iff o.has_runtime req).0 e,
    λ v. (
      new_run now id req,
      record o {
        runs = insert id (new_run now id req) o.runs;
        cancels = insert id false o.cancels;
      },
      ground arith,
    ),
  )
  | inr (x, e) ↦ (
    λ (run, p, h). ground arith,
    λ v. let n = (validate_iff o.has_runtime req).1 v in absurd (ground arith),
  )
]
