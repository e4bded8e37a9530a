-- ===== src/Tests/Runs.antt =====
-- Examples for internal/workflow/runner.go.
use koios.Workflow.Runner.{
  goes_on, round, execute_step, run_agent_turn, agent_request, replace_from, apply_template,
  record_result, route, take_step, next_step, output_of,
}
use koios.Workflow.Routing.{Leads, round_goes_on_lem}
use koios.Prelude.{
  ℕ, ◌<◌, ◌≡◌, refl, ◌≢◌, Bool, false, some, List, [], ◌∷◌, arith, if◌then◌else◌, nat_eq, All,
  lookup, insert, Text, text, text_eqb, text_eqb_iff, text_eq, is_space, trim_space, has_prefix,
}
use koios.Workflow.Data.{
  agent_turn, Step, Workflow, pending, output, no_error, exceeded_iterations, Run, AgentRuntime,
  WebhookRequest, WebhookResponse, no_response,
}
use koios.Workflow.Runner.{build_step_index, index_steps, execute}
use koios.Workflow.Termination.{Terminal, routes, execute-Terminal, execute-acyclic}

abbrev same : ℕ → ℕ
same c = c

abbrev echo : AgentRuntime
echo = record { model = text "m"; run = λ i r. output r.message }

abbrev offline : ℕ → WebhookRequest → WebhookResponse
offline i r = no_response (text "offline")

abbrev never : ℕ → Bool
never i = false

abbrev ask : Text → Text → Text → Step
ask id next fallback = record {
  id = id;
  name = [];
  kind = agent_turn;
  message = text "hi";
  model = [];
  max_steps = 0;
  timeout_seconds = 0;
  include_history = false;
  profile = [];
  url = [];
  method = [];
  headers = [];
  body_template = [];
  webhook_timeout_seconds = 0;
  condition_text = [];
  true_step = [];
  false_step = [];
  on_success = next;
  on_failure = fallback;
}

abbrev flow : List Step → Workflow
flow steps = record {
  id = text "w";
  name = [];
  description = [];
  peer_id = text "bob";
  first_step = [];
  steps = steps;
}

abbrev fresh : Run
fresh = record {
  id = text "r";
  workflow_id = text "w";
  peer_id = text "bob";
  status = pending;
  current_step = text "a";
  step_results = [];
  last_output = [];
  run_error = no_error;
}

-- A cycle.
abbrev looping : Workflow
looping = flow (ask (text "a") (text "a") [] ∷ [])

execute-Terminal_example : Terminal (execute same (some echo) offline never never looping fresh)
execute-Terminal_example = execute-Terminal same (some echo) offline never never looping fresh

abbrev straight : Workflow
straight = flow (ask (text "a") (text "b") [] ∷ [])

abbrev rank : Text → ℕ
rank t = if text_eqb t (text "a") then 2 else 1

straight_descends :
    (id : Text) (step : Step)
    → lookup id (build_step_index straight) ≡ some step
    → All (λ s. rank s < rank id) (routes step)
unfolding build_step_index index_steps lookup insert
straight_descends id step h = ground (arith, text_eqb_iff (text "a") id, text_eqb_iff id (text "a"))

execute-acyclic_example :
    (execute same (some echo) offline never never straight fresh).run_error ≢ exceeded_iterations
execute-acyclic_example =
    execute-acyclic same (some echo) offline never never rank straight fresh straight_descends refl
      (omega arith)

abbrev asked : Run
asked = record fresh {
  current_step = text "b";
  step_results = (text "a", record { step_id = text "a"; outcome = output (text "hi") }) ∷ [];
  last_output = text "hi";
}

first_round : round same (some echo) offline never never 0 straight fresh ≡ goes_on asked
unfolding round take_step route record_result execute_step run_agent_turn agent_request
    apply_template replace_from next_step output_of build_step_index index_steps lookup insert
    trim_space is_space has_prefix
first_round = refl

round_goes_on_lem_example :
    (step : Step) × (lookup (text "a") (build_step_index straight) ≡ some step)
    × Leads same (some echo) offline never never 0 straight fresh step asked
round_goes_on_lem_example =
    round_goes_on_lem same (some echo) offline never never 0 straight fresh asked first_round
