-- ===== src/Workflow/Runner.antt =====
-- internal/workflow/runner.go: how a run is driven. `rt` is the agent runtime, if there is one,
-- `client` the HTTP client, each with the number of the round,
-- since the same request may be answered in different ways, and `upper` `unicode.ToUpper`. `stopped i` and `stopped_in i` tell whether
-- the context is done at the start of round `i` and after its step.
use koios.Prelude.{
  ℕ, zero, suc, ◌+◌, ◌-◌, ◌*◌, max, Bool, true, false, not, Option, none, some, List, [], ◌∷◌, ◌++◌,
  map, leb, nat_eqb, if◌then◌else◌, nat_eq, length, Dict, lookup, insert, Text, text, text_eqb,
  text_eq, is_empty, trim_space, has_prefix, contains, trim_prefix,
}
use koios.Workflow.Data.{
  agent_turn, webhook, condition, unknown_kind, Step, Workflow, pending, running, completed, failed,
  cancelled, StepOutcome, output, error, no_error, exceeded_iterations, step_not_found, step_failed,
  Run, AgentRequest, AgentRuntime, WebhookRequest, WebhookResponse, response, no_response,
}

-- `strings.ReplaceAll`, with `skip` characters of a match still to pass over.
unfoldable pub replace_from : Text → Text → ℕ → Text → Text
replace_from old new skip [] = []
replace_from old new (suc skip) (c ∷ s) = replace_from old new skip s
replace_from old new zero (c ∷ s) =
    let rest = replace_from old new (if has_prefix (c ∷ s) old then length old - 1 else 0) s in
    if has_prefix (c ∷ s) old then new ++ rest else c ∷ rest

unfoldable pub apply_template : Text → Text → Text
apply_template tmpl out = replace_from (text "{{.Output}}") out 0 tmpl

unfoldable pub eval_condition : Text → Text → Bool
eval_condition cond prev =
    if text_eqb cond (text "always_true")
    then true
    else if text_eqb cond (text "always_false")
    then false
    else if text_eqb cond (text "output_empty")
    then is_empty (trim_space prev)
    else if has_prefix cond (text "output_contains:")
    then contains prev (trim_prefix cond (text "output_contains:"))
    else if has_prefix cond (text "output_not_contains:")
    then not (contains prev (trim_prefix cond (text "output_not_contains:")))
    else false

unfoldable pub run_condition : Run → Step → Text
run_condition run step =
    if eval_condition step.condition_text run.last_output then text "true" else text "false"

unfoldable pub next_step : Step → Text → Text
next_step step out = elim step.kind [
  | condition ↦ if text_eqb out (text "true") then step.true_step else step.false_step
  | agent_turn ↦ step.on_success
  | webhook ↦ step.on_success
  | unknown_kind ↦ step.on_success
]

unfoldable pub index_steps : Dict Text Step → List Step → Dict Text Step
index_steps idx [] = idx
index_steps idx (s ∷ r) = index_steps (insert s.id s idx) r

unfoldable pub build_step_index : Workflow → Dict Text Step
build_step_index wf = index_steps [] wf.steps

abbrev pub or_default : ℕ → ℕ → ℕ
or_default n d = if nat_eqb n 0 then d else n

-- The request that `runAgentTurn` makes. `IncludeHistory` is not read.
unfoldable pub agent_request : Text → Text → Run → Step → AgentRequest
agent_request default_model peer run step = record {
  peer_id = peer;
  session_key = peer ++ text "::workflow::" ++ run.id ++ text "::" ++ step.id;
  message = apply_template step.message run.last_output;
  model = if is_empty step.model then default_model else step.model;
  max_steps = or_default step.max_steps 10;
  timeout_seconds = or_default step.timeout_seconds 120;
  active_profile = step.profile;
}

unfoldable pub run_agent_turn : ℕ → Option AgentRuntime → Text → Run → Step → StepOutcome
run_agent_turn i none peer run step =
    error (text "agent runtime not available; call SetAgentRuntime first")
run_agent_turn i (some rt) peer run step = elim (rt.run i (agent_request rt.model peer run step)) [
  | output o ↦ output (trim_space o)
  | error e ↦ error (text "agent turn: " ++ e)
]

module _ (upper : ℕ → ℕ) where
  unfoldable pub webhook_request : Run → Step → WebhookRequest
  webhook_request run step =
      let m = map upper (trim_space step.method) in
      let b = apply_template step.body_template run.last_output in
      record {
        method = if is_empty m then text "POST" else m;
        url = step.url;
        body = b;
        headers =
            if is_empty b then step.headers else elim (lookup (text "Content-Type") step.headers) [
              | some v ↦ step.headers
              | none ↦ step.headers ++ ((text "Content-Type", text "application/json") ∷ [])
            ];
        timeout_seconds = or_default step.webhook_timeout_seconds 30;
      }

  -- The number of the status is left out of the error's text.
  unfoldable pub run_webhook : (WebhookRequest → WebhookResponse) → Run → Step → StepOutcome
  run_webhook client run step = elim (client (webhook_request run step)) [
    | no_response e ↦ error (text "webhook: " ++ e)
    | response code body ↦
        if leb 400 code
        then error (text "webhook: HTTP " ++ trim_space body)
        else output (trim_space body)
  ]

unfoldable pub max_iter : Workflow → ℕ
max_iter wf = max (length wf.steps * 3) 20

-- One round: the run goes on or is over.
pub data Progress : Type 0 where
  goes_on : Run → Progress
  is_over : Run → Progress

unfoldable pub output_of : StepOutcome → Text
output_of (output o) = o
output_of (error e) = []

module _ (upper : ℕ → ℕ) (rt : Option AgentRuntime) (client : ℕ → WebhookRequest → WebhookResponse)
    (stopped stopped_in : ℕ → Bool) where
  unfoldable pub execute_step : ℕ → Workflow → Run → Step → StepOutcome
  execute_step i wf run step = elim step.kind [
    | agent_turn ↦ run_agent_turn i rt wf.peer_id run step
    | webhook ↦ run_webhook upper (client i) run step
    | condition ↦ output (run_condition run step)
    | unknown_kind ↦ error (text "unknown step kind")
  ]

  unfoldable pub record_result : Step → StepOutcome → Run → Run
  record_result step res run = record run {
    step_results = insert step.id (record { step_id = step.id; outcome = res }) run.step_results;
    last_output = elim step.kind [
      | condition ↦ run.last_output
      | agent_turn ↦ output_of res
      | webhook ↦ output_of res
      | unknown_kind ↦ output_of res
    ];
  }

  -- Where the run goes once the result is recorded.
  unfoldable pub route : ℕ → Step → StepOutcome → Run → Progress
  route i step (output o) run = goes_on (record run { current_step = next_step step o })
  route i step (error e) run =
      if is_empty step.on_failure
      then if stopped_in i
        then is_over (record run { status = cancelled })
        else is_over (record run { status = failed; run_error = step_failed step.id e })
      else goes_on (record run { current_step = step.on_failure })

  unfoldable pub take_step : ℕ → Workflow → Run → Option Step → Progress
  take_step i wf run none =
      is_over (record run { status = failed; run_error = step_not_found run.current_step })
  take_step i wf run (some step) =
      let res = execute_step i wf run step in route i step res (record_result step res run)

  unfoldable pub round : ℕ → Workflow → Run → Progress
  round i wf run =
      if stopped i
      then is_over (record run { status = cancelled })
      else if is_empty run.current_step
      then is_over (record run { status = completed })
      else take_step i wf run (lookup run.current_step (build_step_index wf))

  -- The loop from round `i` on, with at most `n` rounds.
  unfoldable pub rounds : ℕ → ℕ → Workflow → Run → Run
  rounds zero i wf run = record run { status = failed; run_error = exceeded_iterations }
  rounds (suc n) i wf run = elim (round i wf run) [
    | is_over r ↦ r
    | goes_on r ↦ rounds n (i + 1) wf r
  ]

  unfoldable pub execute : Workflow → Run → Run
  execute wf run = rounds (max_iter wf) 0 wf (record run { status = running })

-- The run that `Start` makes, or its error.
pub data StartResult : Type 0 where
  started : Run → StartResult
  workflow_not_found not_accessible no_steps save_failed : StartResult

-- `id` is the new run's id, `saved` whether the store took it.
unfoldable pub start : Text → Bool → Dict Text Workflow → Text → Text → StartResult
start id saved store workflow_id peer = elim (lookup workflow_id store) [
  | none ↦ workflow_not_found
  | some wf ↦ if not (text_eqb wf.peer_id peer) then not_accessible else elim wf.steps [
    | [] ↦ no_steps
    | ◌∷◌ s r ↦
        if saved
        then started (record {
          id = id;
          workflow_id = workflow_id;
          peer_id = peer;
          status = pending;
          current_step = if is_empty wf.first_step then s.id else wf.first_step;
          step_results = [];
          last_output = [];
          run_error = no_error;
        })
        else save_failed
  ]
]
