-- ===== src/Orchestrator/Wave.antt =====
-- internal/orchestrator/execution.go, `runDAGWave`, as the steps that its goroutines take. A child
-- that ends does so in one step with its deferred calls; `collect` is one round of the loop over the
-- completions, which runs once the launching is over.
use koios.Prelude.{
  ℕ, suc, ◌+◌, ◌-◌, Bool, true, false, not, ◌&&◌, ◌||◌, Option, none, some, List, [], ◌∷◌, ◌++◌,
  map, ltb, leb, nat_eqb, if◌then◌else◌, length, get_or, set, count_of, is_empty,
}
use koios.Orchestrator.Types.{
  WaitPolicy, wait_all, wait_first, wait_quorum, ChildTask, ChildResult, FanOutRequest,
}
use koios.Orchestrator.Start.{label_to_idx, adjacency}
use koios.Orchestrator.Wait.{stage_wait_satisfied, total_steps, max_concurrency}

-- What stays the same: the tasks that each task depends on, the semaphore's size, the policy, the
-- budget, and the steps of the children of the stages before.
pub record Plan : Type 0 where
  pub adj : List (List ℕ)
  pub capacity : ℕ
  pub wait_policy : WaitPolicy
  pub max_steps : ℕ
  pub prior_steps : ℕ

-- `begun` holds the tasks that were launched, `active` those that hold the semaphore, and `finished`
-- those sent to `completionCh`, of which `collected` were received; `stopped` is `ctx.Err() != nil`.
pub record Wave : Type 0 where
  pub children : List ChildResult
  pub unmet : List ℕ
  pub ready : List ℕ
  pub begun : List ℕ
  pub active : List ℕ
  pub finished : List ℕ
  pub collected : ℕ
  pub stopped : Bool
  pub aborted : Bool
  pub policy_early_exit : Bool
  pub budget_exceeded : Bool

-- One entry `i` for each time that `j` is among the dependencies of `i`.
unfoldable pub entries_of : ℕ → ℕ → List ℕ → List ℕ
entries_of i j [] = []
entries_of i j (d ∷ ds) = let rest = entries_of i j ds in if nat_eqb d j then i ∷ rest else rest

-- `depOf[j]`, for the tasks from `i` on.
unfoldable pub dependents : ℕ → List (List ℕ) → ℕ → List ℕ
dependents i [] j = []
dependents i (ds ∷ adj) j = entries_of i j ds ++ dependents (suc i) adj j

-- The tasks from `i` on that wait for nothing.
unfoldable pub initially_ready : ℕ → List ℕ → List ℕ
initially_ready i [] = []
initially_ready i (u ∷ us) =
    let rest = initially_ready (suc i) us in if nat_eqb u 0 then i ∷ rest else rest

unfoldable pub new_plan : FanOutRequest → WaitPolicy → List ChildTask → List ChildResult → ℕ → Plan
new_plan req policy tasks children prior_steps = record {
  adj = adjacency (label_to_idx 0 (map (λ c. c.label) children) []) tasks;
  capacity = max_concurrency req.max_concurrency (length tasks);
  wait_policy = policy;
  max_steps = (req.budget).max_steps;
  prior_steps = prior_steps;
}

unfoldable pub new_wave : Plan → List ChildResult → Bool → Wave
new_wave plan children stopped = record {
  children = children;
  unmet = map length plan.adj;
  ready = initially_ready 0 (map length plan.adj);
  begun = [];
  active = [];
  finished = [];
  collected = 0;
  stopped = stopped;
  aborted = false;
  policy_early_exit = false;
  budget_exceeded = false;
}

-- The deferred loop over the dependents of a task. A count that is 0 would fall below it, without a
-- send.
unfoldable pub release : List ℕ → List ℕ → List ℕ → List ℕ × List ℕ
release [] unmet ready = (unmet, ready)
release (i ∷ is) unmet ready =
    release is (set unmet i (get_or unmet i 0 - 1))
      (if nat_eqb (get_or unmet i 0) 1 then ready ++ (i ∷ []) else ready)

unfoldable pub remove_one : ℕ → List ℕ → List ℕ
remove_one i [] = []
remove_one i (x ∷ xs) = let rest = remove_one i xs in if nat_eqb x i then xs else x ∷ rest

-- The condition of the launching loop.
unfoldable pub is_launching : Plan → Wave → Bool
is_launching plan w = ltb (length w.begun) (length plan.adj) && not w.aborted

-- The launch of the next task that is ready, or the end of the launching if the policy is met.
unfoldable pub launch : Plan → Wave → Option Wave
launch plan w =
    if is_launching plan w && ltb (length w.active) plan.capacity
    then elim w.ready [
      | [] ↦ none
      | i ∷ rest ↦ some (
          if stage_wait_satisfied w.children plan.wait_policy
          then record w { ready = rest; stopped = true; aborted = true }
          else record w { ready = rest; begun = i ∷ w.begun; active = i ∷ w.active })
    ]
    else none

unfoldable pub finish_child : Plan → ℕ → ChildResult → Wave → Option Wave
finish_child plan i c w =
    if ltb 0 (count_of (nat_eqb i) w.active)
    then some (record w {
      children = set w.children i c;
      unmet = (release (dependents 0 plan.adj i) w.unmet w.ready).0;
      ready = (release (dependents 0 plan.adj i) w.unmet w.ready).1;
      active = remove_one i w.active;
      finished = i ∷ w.finished;
    })
    else none

unfoldable pub is_wait_all : WaitPolicy → Bool
is_wait_all wait_all = true
is_wait_all wait_first = false
is_wait_all wait_quorum = false

unfoldable pub check_budget : Plan → Wave → Wave
check_budget plan w =
    if ltb 0 plan.max_steps
      && not w.budget_exceeded
      && leb plan.max_steps (plan.prior_steps + total_steps w.children)
    then record w { budget_exceeded = true; stopped = true }
    else w

unfoldable pub check_policy : Plan → Wave → Wave
check_policy plan w =
    if not w.budget_exceeded
      && not (is_wait_all plan.wait_policy)
      && stage_wait_satisfied w.children plan.wait_policy
    then record w { policy_early_exit = true; stopped = true }
    else w

unfoldable pub collect_one : Plan → Wave → Option Wave
collect_one plan w =
    if not (is_launching plan w) && ltb w.collected (length w.finished)
    then some (check_policy plan (check_budget plan (record w { collected = suc w.collected })))
    else none

pub data WaveEvent : Type 0 where
  launch_next : WaveEvent
  -- The launching loop sees the end of the context.
  give_up : WaveEvent
  finish : ℕ → ChildResult → WaveEvent
  collect : WaveEvent
  -- The run is cancelled, or its time is over.
  stop : WaveEvent

unfoldable pub wave_step : Plan → WaveEvent → Wave → Option Wave
wave_step plan launch_next w = launch plan w
wave_step plan give_up w =
    if is_launching plan w && w.stopped then some (record w { aborted = true }) else none
wave_step plan (finish i c) w = finish_child plan i c w
wave_step plan collect w = collect_one plan w
wave_step plan stop w = some (record w { stopped = true })

unfoldable pub run_wave : Plan → List WaveEvent → Wave → Option Wave
run_wave plan [] w = some w
run_wave plan (e ∷ es) w = elim (wave_step plan e w) [ none ↦ none | some v ↦ run_wave plan es v ]

-- The launching is over, no child runs, and every completion was received.
unfoldable pub is_over : Plan → Wave → Bool
is_over plan w =
    not (is_launching plan w) && is_empty w.active && nat_eqb w.collected (length w.finished)

-- What `runDAGWave` returns once it is over.
unfoldable pub wave_result : Plan → Wave → Bool × Bool
wave_result plan w = (
  w.policy_early_exit || (not w.stopped && stage_wait_satisfied w.children plan.wait_policy),
  w.budget_exceeded,
)
