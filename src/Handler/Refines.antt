-- ===== src/Handler/Refines.antt =====
-- internal/handler/idempotency.go against the log of executions, event by event.
use koios.Prelude.{ℕ, ◌≡◌, some, nat_eq, text_eq}
use koios.Handler.Idempotency.{RpcResponse, IdempotencyStore}
use koios.Handler.Executions.{Execution, Log, Reply}
use koios.Handler.Relation.{Refines}

-- One step of the server answers as the log does, and leaves the two in relation.
abbrev Agrees : ℕ → IdempotencyStore × Reply → Log × Reply → Type 0
Agrees t a b = (a.1 ≡ b.1) × Refines t a.0 b.0

abbrev respond : RpcResponse → Execution → Execution
respond resp e = record e { call = record e.call { response = some resp } }
