-- ===== src/Handler/Executions.antt =====
-- What internal/handler/idempotency.go promises: a log of the executions, the newest first, without a
-- map of scopes and without records that are dropped.
use koios.Prelude.{
  ℕ, suc, ◌≤◌, Option, none, some, List, [], ◌∷◌, if◌then◌else◌, nat_eq, Dict, lookup, insert, Text,
  text_eqb, text_eq,
}
use koios.Handler.Idempotency.{RpcResponse, IdempotencyRecord, is_expired}

pub record Execution : Type 0 where
  pub scope : Text
  pub call : IdempotencyRecord

pub record Log : Type 0 where
  pub ttl : ℕ
  pub executions : Dict ℕ Execution
  pub next_execution : ℕ

-- The newest execution of a scope.
unfoldable pub newest : Text → Dict ℕ Execution → Option (ℕ × Execution)
newest scope [] = none
newest scope ((i, e) ∷ es) = if text_eqb e.scope scope then some (i, e) else newest scope es

-- What happens at the server, and what it answers.
pub data Event : Type 0 where
  request : Text → Text → ℕ → Event
  answer : ℕ → RpcResponse → Event
  resume : ℕ → Event

pub data Reply : Type 0 where
  executes : ℕ → Reply
  waits : ℕ → Reply
  conflicts : Reply
  answered : Reply
  panics : Reply
  resumes : RpcResponse → Reply
  blocked : Reply

unfoldable pub log_execution : Text → Text → ℕ → Log → Log
log_execution scope params_hash now l = record l {
  executions =
      (
        l.next_execution,
        record {
          scope = scope;
          call = record { params_hash = params_hash; created_at = now; response = none };
        },
      )
      ∷ l.executions;
  next_execution = suc l.next_execution;
}

-- A call repeats the newest execution of its scope if that is not too old, and executes otherwise.
unfoldable pub promise_request : Text → Text → ℕ → Log → Log × Reply
promise_request scope params_hash now l = elim (newest scope l.executions) [
  | none ↦ (log_execution scope params_hash now l, executes l.next_execution)
  | some (i, e) ↦
      if is_expired l.ttl now e.call
      then (log_execution scope params_hash now l, executes l.next_execution)
      else (l, if text_eqb (e.call).params_hash params_hash then waits i else conflicts)
]

unfoldable pub promise : Event → Log → Log × Reply
promise (request scope params_hash now) l = promise_request scope params_hash now l
promise (answer i resp) l = elim (lookup i l.executions) [
  | none ↦ (l, panics)
  | some e ↦ elim (e.call).response [
    | some old ↦ (l, panics)
    | none ↦ (
      record l {
        executions =
            insert i (record e { call = record e.call { response = some resp } }) l.executions;
      },
      answered,
    )
  ]
]
promise (resume i) l = elim (lookup i l.executions) [
  | none ↦ (l, blocked)
  | some e ↦ elim (e.call).response [ none ↦ (l, blocked) | some resp ↦ (l, resumes resp) ]
]

unfoldable pub promised : List Event → Log → List Reply
promised [] l = []
promised (e ∷ es) l = let (m, r) = promise e l in r ∷ promised es m

unfoldable pub new_log : ℕ → Log
new_log ttl = record { ttl = ttl; executions = []; next_execution = 0 }

-- The clock does not go back from `now`.
abbrev pub InOrder : ℕ → List Event → Type 0
InOrder now [] = Unit
InOrder now (request scope params_hash t ∷ es) = (now ≤ t) × InOrder t es
InOrder now (answer i resp ∷ es) = InOrder now es
InOrder now (resume i ∷ es) = InOrder now es
