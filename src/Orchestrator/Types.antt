-- ===== src/Orchestrator/Types.antt =====
-- internal/orchestrator/types.go. A time is a number, 0 for the zero time, and an `int` that the code
-- treats alike at 0 and below is a natural number. The numbers of `VoteConfig`, floating-point ones,
-- are left out with it.
use koios.Prelude.{ℕ, Bool, Option, List, Dict, Text}
use koios.Subagent.Records.{Status}

pub data AggregationMode : Type 0 where
  collect : AggregationMode
  concat : AggregationMode
  reducer : AggregationMode
  vote : AggregationMode

pub data WaitPolicy : Type 0 where
  wait_all : WaitPolicy
  wait_first : WaitPolicy
  wait_quorum : WaitPolicy

pub data RunStatus : Type 0 where
  starting : RunStatus
  running : RunStatus
  aggregating : RunStatus
  completed : RunStatus
  errored : RunStatus
  cancelled : RunStatus

pub record Budget : Type 0 where
  pub max_steps : ℕ
  pub max_child_wall_clock : ℕ

pub data SchemaValidationMode : Type 0 where
  schema_warn : SchemaValidationMode
  schema_strict : SchemaValidationMode

pub record RetryPolicy : Type 0 where
  pub max_attempts : ℕ
  pub backoff_base : ℕ

-- What `spawnAndPoll` reads of a `ChildTask`.
pub record SpawnTask : Type 0 where
  pub task : Text
  pub peer_id : Text
  pub model : Text
  pub timeout : ℕ

-- A fallback task is only spawned, so of it the model keeps what a spawn reads. The role of a task
-- is never read.
pub record ChildTask : Type 0 where
  pub label : Text
  pub spawn : SpawnTask
  pub output_schema : Text
  pub depends_on : List Text
  pub retry : RetryPolicy
  pub hedge_count : ℕ
  pub fallback_task : Option SpawnTask

-- `none` stands for the empty status, of a child that has not been spawned.
pub record ChildResult : Type 0 where
  pub label : Text
  pub run_id : Text
  pub session_key : Text
  pub status : Option Status
  pub final_reply : Text
  pub error : Text
  pub steps : ℕ
  pub tool_calls : ℕ
  pub attempts : ℕ
  pub started_at : ℕ
  pub finished_at : ℕ
  pub schema_violations : List Text
  pub output_json : Text

-- The empty aggregation and the empty policy are `none`.
pub record StageSpec : Type 0 where
  pub tasks : List ChildTask
  pub aggregation : Option AggregationMode
  pub reducer_prompt : Text
  pub wait_policy : Option WaitPolicy

pub record StageResult : Type 0 where
  pub stage_index : ℕ
  pub children : List ChildResult
  pub aggregated_reply : Text

pub record FanOutRequest : Type 0 where
  pub peer_id : Text
  pub parent_session_key : Text
  pub depth : ℕ
  pub tasks : List ChildTask
  pub max_concurrency : ℕ
  pub timeout : ℕ
  pub child_timeout : ℕ
  pub wait_policy : Option WaitPolicy
  pub aggregation : Option AggregationMode
  pub reducer_prompt : Text
  pub model : Text
  pub announce_start : Bool
  pub parent_run_id : Text
  pub verifier_task : Option ChildTask
  pub arbiter_task : Option ChildTask
  pub stages : List StageSpec
  pub stream_partials : Bool
  pub retry : RetryPolicy
  pub budget : Budget
  pub barrier_groups : Dict Text (List Text)
  pub schema_validation_mode : SchemaValidationMode

-- The timeline and the provenance, a log of the run, are left out.
pub record Run : Type 0 where
  pub id : Text
  pub peer_id : Text
  pub parent_session_key : Text
  pub parent_run_id : Text
  pub status : RunStatus
  pub wait_policy : WaitPolicy
  pub aggregation : AggregationMode
  pub reducer_prompt : Text
  pub max_concurrency : ℕ
  pub children : List ChildResult
  pub barrier_groups : Dict Text (List Text)
  pub aggregated_reply : Text
  pub error : Text
  pub created_at : ℕ
  pub started_at : ℕ
  pub finished_at : ℕ
  pub stage_results : List StageResult

-- What `spawnAndPoll` returns.
pub record ChildOutcome : Type 0 where
  pub run_id : Text
  pub session_key : Text
  pub status : Option Status
  pub final_reply : Text
  pub err : Text
  pub steps : ℕ
  pub tool_calls : ℕ
  pub started_at : ℕ
  pub finished_at : ℕ
