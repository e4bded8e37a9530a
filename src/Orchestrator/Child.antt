-- ===== src/Orchestrator/Child.antt =====
-- internal/orchestrator/execution.go, `runChild`, with its retries, hedges and fallback, and the
-- request of `spawnAndPoll`. What the agents answer, and which of the parallel copies answers first,
-- is the environment's: `Attempt` is what an attempt meets.
use koios.Prelude.{
  ℕ, zero, suc, ◌+◌, max, Bool, true, false, not, ◌&&◌, ◌||◌, Option, none, some, List, [], ◌∷◌,
  ◌++◌, ltb, if◌then◌else◌, Text, text, is_empty,
}
use koios.Subagent.Records.{
  Status, completed, errored, SpawnRequest, leaf, control_none, status_eqb,
}
use koios.Orchestrator.Types.{
  SpawnTask, ChildTask, ChildResult, ChildOutcome, RetryPolicy, FanOutRequest, schema_strict,
  schema_warn, SchemaValidationMode,
}

unfoldable pub status_is : Option Status → Status → Bool
status_is none s = false
status_is (some r) s = status_eqb r s

unfoldable pub is_completed : ChildOutcome → Bool
is_completed o = status_is o.status completed

-- The first number that is not 0, or 0.
unfoldable pub or_else : ℕ → ℕ → ℕ
or_else zero b = b
or_else (suc a) b = suc a

unfoldable pub or_text : Text → Text → Text
or_text a b = if is_empty a then b else a

unfoldable pub spawn_request : FanOutRequest → SpawnTask → SpawnRequest
spawn_request req t = record {
  peer_id = or_text t.peer_id req.peer_id;
  parent_id = req.peer_id;
  parent_run_id = req.parent_run_id;
  parent_session_key = req.parent_session_key;
  source_session_key = req.parent_session_key;
  task = t.task;
  model = or_text t.model req.model;
  timeout = or_else (or_else t.timeout req.child_timeout) (req.budget).max_child_wall_clock;
  sandbox_mode = [];
  attachments = [];
  role = leaf;
  control = control_none;
  max_children = 0;
  session_key = [];
  stream = false;
  push_to_parent = false;
  reply_back = false;
  announce_skip = true;
  reply_skip = true;
  depth = req.depth;
}

-- What an attempt meets: whether the context ends in the wait before it, and the outcomes of its
-- spawns in the order in which they arrive, one for each copy.
pub record Attempt : Type 0 where
  pub stopped : Bool
  pub arrivals : List ChildOutcome

-- The zero value of `childOutcome`.
abbrev pub no_outcome : ChildOutcome
no_outcome = record {
  run_id = [];
  session_key = [];
  status = none;
  final_reply = [];
  err = [];
  steps = 0;
  tool_calls = 0;
  started_at = 0;
  finished_at = 0;
}

-- The first winner stays.
unfoldable pub elect : Option ChildOutcome → ChildOutcome → Option ChildOutcome
elect none o = if is_completed o then some o else none
elect (some w) o = some w

-- The loop over the channel: `left` outcomes are still to be received. The result is the winner and
-- what is left in the channel, or `none` if the loop waits for an outcome that does not come.
unfoldable pub receive :
    ℕ → List ChildOutcome → Option ChildOutcome → Option (Option ChildOutcome × List ChildOutcome)
receive zero arrivals winner = some (winner, arrivals)
receive (suc left) [] winner = none
receive (suc left) (o ∷ os) winner = receive left os (elect winner o)

-- `runChildHedged`, with what its copies send; `none` if it does not return. Without a winner the
-- code receives once more, and the channel is never closed.
unfoldable pub run_child_hedged : ℕ → List ChildOutcome → Option (ChildOutcome × Bool)
run_child_hedged count arrivals = elim (receive count arrivals none) [
  | none ↦ none
  | some (winner, rest) ↦ elim winner [
    | some w ↦ some (w, true)
    | none ↦ elim rest [ [] ↦ none | o ∷ os ↦ some (o, false) ]
  ]
]

pub record Progress : Type 0 where
  pub last_outcome : ChildOutcome
  pub succeeded : Bool
  pub attempts : ℕ
  -- The context ended in a wait, so that the fallback is passed over.
  pub stopped : Bool

abbrev pub no_progress : Progress
no_progress = record { last_outcome = no_outcome; succeeded = false; attempts = 0; stopped = false }

-- The outcome of the only spawn of an attempt.
unfoldable pub only_arrival : List ChildOutcome → ChildOutcome
only_arrival [] = no_outcome
only_arrival (o ∷ os) = o

-- One round of the loop over the attempts, or `none` if it does not return.
unfoldable pub run_attempt : ℕ → Attempt → Progress → Option Progress
run_attempt hedge a p =
    if ltb 1 hedge
    then elim (run_child_hedged hedge a.arrivals) [
      | none ↦ none
      | some (o, ok) ↦
          some (record p { last_outcome = o; succeeded = ok; attempts = p.attempts + hedge })
    ]
    else let o = only_arrival a.arrivals in
      some (record p { last_outcome = o; succeeded = is_completed o; attempts = suc p.attempts })

-- The loop; `attempt` is the number of the next attempt, of at most `left` that are left.
unfoldable pub run_attempts : ℕ → ℕ → (ℕ → Attempt) → ℕ → ℕ → Progress → Option Progress
run_attempts backoff hedge env attempt zero p = some p
run_attempts backoff hedge env attempt (suc left) p = elim p.succeeded [
  | true ↦ some p
  | false ↦ elim (ltb 0 attempt && ltb 0 backoff && (env attempt).stopped) [
    | true ↦ some (record p { stopped = true })
    | false ↦ elim (run_attempt hedge (env attempt) p) [
      | none ↦ none
      | some q ↦ run_attempts backoff hedge env (suc attempt) left q
    ]
  ]
]

-- The task's own policy, or that of the request, with one attempt at least.
unfoldable pub effective_retry : ChildTask → FanOutRequest → RetryPolicy
effective_retry task req =
    let retry = if ltb 0 (task.retry).max_attempts then task.retry else req.retry in
    if ltb 0 retry.max_attempts then retry else record retry { max_attempts = 1 }

unfoldable pub run_fallback : Option SpawnTask → ChildOutcome → Progress → Progress
run_fallback none o p = p
run_fallback (some t) o p =
    if p.succeeded || p.stopped then p else record p { last_outcome = o; attempts = suc p.attempts }

-- `runChild` up to the label `done`. `fallback` is the outcome of the fallback task.
unfoldable pub run_tries :
    FanOutRequest → ChildTask → (ℕ → Attempt) → ChildOutcome → Option Progress
run_tries req task env fallback =
    let retry = effective_retry task req in
    elim (run_attempts retry.backoff_base (max task.hedge_count 1) env 0 retry.max_attempts
      no_progress) [ none ↦ none | some p ↦ some (run_fallback task.fallback_task fallback p) ]

unfoldable pub set_outcome : Progress → ChildResult → ChildResult
set_outcome p c =
    let o = p.last_outcome in
    record c {
      run_id = o.run_id;
      session_key = o.session_key;
      status = o.status;
      final_reply = o.final_reply;
      error = o.err;
      steps = o.steps;
      tool_calls = o.tool_calls;
      attempts = p.attempts;
      started_at = or_else o.started_at c.started_at;
      finished_at = or_else o.finished_at c.finished_at;
    }

-- `strings.Join` with `"; "`.
unfoldable pub join_violations : List Text → Text
join_violations [] = []
join_violations (v ∷ []) = v
join_violations (v ∷ w ∷ vs) = v ++ text "; " ++ join_violations (w ∷ vs)

-- The check of the reply; `violations` is what `validateOutputSchema` finds.
unfoldable pub check_schema :
    SchemaValidationMode → ChildTask → (Text → Text → List Text) → ChildResult → ChildResult
check_schema mode task validate c =
    if not (is_empty task.output_schema) && not (is_empty c.final_reply)
    then elim (validate c.final_reply task.output_schema) [
      | [] ↦ record c { output_json = c.final_reply }
      | v ∷ vs ↦ elim mode [
        | schema_warn ↦ record c { schema_violations = v ∷ vs }
        | schema_strict ↦ record c {
          schema_violations = v ∷ vs;
          status = some errored;
          error = text "schema violation: " ++ join_violations (v ∷ vs);
        }
      ]
    ]
    else c

unfoldable pub run_child :
    (Text → Text → List Text)
    → FanOutRequest
    → ChildTask
    → (ℕ → Attempt)
    → ChildOutcome
    → ChildResult
    → Option ChildResult
run_child validate req task env fallback c = elim (run_tries req task env fallback) [
  | none ↦ none
  | some p ↦ some (check_schema req.schema_validation_mode task validate (set_outcome p c))
]
