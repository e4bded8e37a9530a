-- ===== src/Subagent/Records.antt =====
-- internal/subagent/registry.go, its data: the record of one run of a subagent. `TimingMs`, which is
-- only passed on to the run ledger, is left out. Times are numbers, 0 for the zero time.
use koios.Prelude.{ℕ, Bool, List, map, nat_eqb, nat_eq, Text, text_eq}
use koios.Types.{Message}
use koios.Redact

pub data Role : Type 0 where
  main orchestrator leaf : Role

pub data ControlScope : Type 0 where
  control_children control_none : ControlScope

pub data Status : Type 0 where
  queued running completed errored killed session_reset session_delete : Status

pub record LifecycleEvent : Type 0 where
  pub at : ℕ
  pub kind : Text
  pub message : Text

pub data SubTurnState : Type 0 where
  turn_queued turn_starting turn_running turn_completed turn_errored turn_killed : SubTurnState

pub record SubTurn : Type 0 where
  pub id : Text
  pub state : SubTurnState
  pub parent_session_key : Text
  pub parent_run_id : Text
  pub source_session_key : Text
  pub child_session_key : Text
  pub reserved_slot : Bool
  pub concurrency_key : Text
  pub concurrency_limit : ℕ
  pub active_children : ℕ
  pub steps : ℕ
  pub tool_calls : ℕ
  pub last_event : Text
  pub queued_at : ℕ
  pub started_at : ℕ
  pub last_event_at : ℕ
  pub finished_at : ℕ

pub record Attachment : Type 0 where
  pub name : Text
  pub mime_type : Text
  pub content : Text

pub record SpawnRequest : Type 0 where
  pub peer_id : Text
  pub parent_id : Text
  pub parent_run_id : Text
  pub parent_session_key : Text
  pub source_session_key : Text
  pub task : Text
  pub model : Text
  pub timeout : ℕ
  pub sandbox_mode : Text
  pub attachments : List Attachment
  pub role : Role
  pub control : ControlScope
  pub max_children : ℕ
  pub session_key : Text
  pub stream : Bool
  pub push_to_parent : Bool
  pub reply_back : Bool
  pub announce_skip : Bool
  pub reply_skip : Bool
  pub depth : ℕ

pub record RunRecord : Type 0 where
  pub id : Text
  pub peer_id : Text
  pub parent_id : Text
  pub session_key : Text
  pub task : Text
  pub model : Text
  pub timeout : ℕ
  pub sandbox_mode : Text
  pub attachments : List Attachment
  pub role : Role
  pub control : ControlScope
  pub max_children : ℕ
  pub status : Status
  pub created_at : ℕ
  pub started_at : ℕ
  pub finished_at : ℕ
  pub final_reply : Text
  pub error : Text
  pub events : List LifecycleEvent
  pub transcript : List Message
  pub children : List Text
  pub steering : List Text
  pub reply_back : Bool
  pub announce_skip : Bool
  pub reply_skip : Bool
  pub sub_turn : SubTurn

-- What is told to the run ledger. A finish also carries token counts, which are always 0, and the
-- timing.
pub data LedgerCall : Type 0 where
  ledger_queued : Text → Text → Text → Text → ℕ → LedgerCall
  ledger_started : Text → ℕ → LedgerCall
  ledger_finished : Text → ℕ → Status → Text → ℕ → LedgerCall
  ledger_metadata : Text → Text → ℕ → LedgerCall

unfoldable pub status_eqb : Status → Status → Bool
status_eqb a b = nat_eqb (rank a) (rank b)
  where
    rank : Status → ℕ
    rank queued = 0
    rank running = 1
    rank completed = 2
    rank errored = 3
    rank killed = 4
    rank session_reset = 5
    rank session_delete = 6

-- The record as it is saved, for `redact.String` in the place of `scrub`.
unfoldable pub sanitize_run_record : (Text → Text) → RunRecord → RunRecord
sanitize_run_record scrub rec = record rec {
  peer_id = scrub rec.peer_id;
  parent_id = scrub rec.parent_id;
  session_key = scrub rec.session_key;
  task = scrub rec.task;
  final_reply = scrub rec.final_reply;
  error = scrub rec.error;
  transcript = Redact.messages scrub rec.transcript;
  events = map {A = LifecycleEvent} (λ ev. record ev { message = scrub ev.message }) rec.events;
  steering = map scrub rec.steering;
}
