-- ===== src/Workflow/Data.antt =====
-- internal/workflow/workflow.go: workflows, their steps and their runs, without the times.
use koios.Prelude.{ℕ, Bool, List, nat_eq, Dict, Text, text_eq}

pub data StepKind : Type 0 where
  agent_turn webhook condition unknown_kind : StepKind

pub record Step : Type 0 where
  pub id : Text
  pub name : Text
  pub kind : StepKind
  pub message : Text
  pub model : Text
  pub max_steps : ℕ
  pub timeout_seconds : ℕ
  pub include_history : Bool
  pub profile : Text
  pub url : Text
  pub method : Text
  pub headers : Dict Text Text
  pub body_template : Text
  pub webhook_timeout_seconds : ℕ
  pub condition_text : Text
  pub true_step : Text
  pub false_step : Text
  pub on_success : Text
  pub on_failure : Text

pub record Workflow : Type 0 where
  pub id : Text
  pub name : Text
  pub description : Text
  pub peer_id : Text
  pub first_step : Text
  pub steps : List Step

pub data RunStatus : Type 0 where
  pending running completed failed cancelled : RunStatus

-- What a step comes to: its output, or its error's text.
pub data StepOutcome : Type 0 where
  output : Text → StepOutcome
  error : Text → StepOutcome

pub record StepResult : Type 0 where
  pub step_id : Text
  pub outcome : StepOutcome

-- The errors that a run can end with, for the texts that the source makes of them.
pub data RunError : Type 0 where
  no_error exceeded_iterations : RunError
  step_not_found : Text → RunError
  step_failed : Text → Text → RunError

pub record Run : Type 0 where
  pub id : Text
  pub workflow_id : Text
  pub peer_id : Text
  pub status : RunStatus
  pub current_step : Text
  pub step_results : Dict Text StepResult
  pub last_output : Text
  pub run_error : RunError

-- What an agent turn asks of the agent runtime.
pub record AgentRequest : Type 0 where
  pub peer_id : Text
  pub session_key : Text
  pub message : Text
  pub model : Text
  pub max_steps : ℕ
  pub timeout_seconds : ℕ
  pub active_profile : Text

pub record AgentRuntime : Type 0 where
  pub model : Text
  -- What the turn that is asked for in the given round comes to.
  pub run : ℕ → AgentRequest → StepOutcome

-- What a webhook step sends, its headers in the order in which they are set.
pub record WebhookRequest : Type 0 where
  pub method : Text
  pub url : Text
  pub body : Text
  pub headers : List (Text × Text)
  pub timeout_seconds : ℕ

-- A response of the HTTP client: a status and the start of the body, or an error.
pub data WebhookResponse : Type 0 where
  response : ℕ → Text → WebhookResponse
  no_response : Text → WebhookResponse
