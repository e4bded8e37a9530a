-- ===== src/Orchestrator/Wait.antt =====
-- internal/orchestrator/lifecycle.go: the wait policies, the counts over children, the limit on
-- concurrency, and the marks of a cancelled run.
use koios.Prelude.{
  ℕ, ◌+◌, ◌/◌, Bool, true, false, ◌&&◌, Option, none, some, List, [], ◌∷◌, map, ltb, leb, nat_eqb,
  if◌then◌else◌, length, count_of,
}
use koios.Subagent.Records.{
  Status, queued, running, completed, errored, killed, session_reset, session_delete,
}
use koios.Orchestrator.Types.{
  WaitPolicy, wait_all, wait_first, wait_quorum, RunStatus, ChildResult, Run,
}

unfoldable pub child_completed : Option Status → Bool
child_completed none = false
child_completed (some queued) = false
child_completed (some running) = false
child_completed (some completed) = true
child_completed (some errored) = false
child_completed (some killed) = false
child_completed (some session_reset) = false
child_completed (some session_delete) = false

unfoldable pub child_finished : Option Status → Bool
child_finished none = false
child_finished (some queued) = false
child_finished (some running) = false
child_finished (some completed) = true
child_finished (some errored) = true
child_finished (some killed) = true
child_finished (some session_reset) = false
child_finished (some session_delete) = false

unfoldable pub child_active : Option Status → Bool
child_active none = true
child_active (some queued) = true
child_active (some running) = true
child_active (some completed) = false
child_active (some errored) = false
child_active (some killed) = false
child_active (some session_reset) = false
child_active (some session_delete) = false

unfoldable pub completed_count : List ChildResult → ℕ
completed_count cs = count_of (λ c. child_completed c.status) cs

unfoldable pub finished_count : List ChildResult → ℕ
finished_count cs = count_of (λ c. child_finished c.status) cs

unfoldable pub policy_met : WaitPolicy → ℕ → ℕ → ℕ → Bool
policy_met wait_all total done finished = leb total finished
policy_met wait_first total done finished = leb 1 done
policy_met wait_quorum total done finished = leb (total / 2 + 1) done

unfoldable pub wait_policy_satisfied : Run → WaitPolicy → ℕ → Bool
wait_policy_satisfied run policy total =
    if nat_eqb total 0
    then true
    else policy_met policy total (completed_count run.children) (finished_count run.children)

unfoldable pub stage_wait_satisfied : List ChildResult → WaitPolicy → Bool
stage_wait_satisfied cs policy =
    let total = length cs in
    if nat_eqb total 0
    then true
    else policy_met policy total (completed_count cs) (finished_count cs)

unfoldable pub total_steps : List ChildResult → ℕ
total_steps [] = 0
total_steps (c ∷ cs) = c.steps + total_steps cs

unfoldable pub total_tool_calls : List ChildResult → ℕ
total_tool_calls [] = 0
total_tool_calls (c ∷ cs) = c.tool_calls + total_tool_calls cs

unfoldable pub max_concurrency : ℕ → ℕ → ℕ
max_concurrency limit total =
    if ltb 0 limit && ltb limit total then limit else if nat_eqb total 0 then 1 else total

unfoldable pub mark_child : ChildResult → ChildResult
mark_child c = if child_active c.status then record c { status = some killed } else c

unfoldable pub mark_cancelled : ℕ → Run → Run
mark_cancelled now run = record run {
  status = RunStatus.cancelled;
  finished_at = now;
  children = map mark_child run.children;
}
