-- ===== src/Handler/Idempotency.antt =====
-- internal/handler/idempotency.go, and `handleIdempotentRPC` of ws.go. A record of the store is shared
-- by the call that made it and those that wait on it: the map holds its number, and `records` is the
-- heap, the newest first. `parse_key` stands for encoding/json on the field of the parameters that
-- is read, and `hash` for the canonical form with its SHA-256.
use koios.Prelude.{
  ℕ, suc, ◌-◌, Bool, false, not, ◌||◌, Option, none, some, List, [], ◌∷◌, ◌++◌, ltb, nat_eqb,
  if◌then◌else◌, nat_eq, keep, some_of, Dict, lookup, insert, Text, text, text_eqb, text_eq,
  is_empty, trim_space,
}

-- Of a response the model keeps its text, with the id of the request it answers.
pub record RpcResponse : Type 0 where
  pub id : Text
  pub body : Text

pub record IdempotencyRecord : Type 0 where
  pub params_hash : Text
  pub created_at : ℕ
  -- `none` until the channel `done` is closed.
  pub response : Option RpcResponse

pub record IdempotencyStore : Type 0 where
  pub ttl : ℕ
  pub entries : Dict Text ℕ
  pub records : Dict ℕ IdempotencyRecord
  pub next_record : ℕ

-- A day in nanoseconds.
abbrev pub idempotency_ttl : ℕ
idempotency_ttl = 86_400_000_000_000

unfoldable pub new_idempotency_store : ℕ → IdempotencyStore
new_idempotency_store ttl = record {
  ttl = if nat_eqb ttl 0 then idempotency_ttl else ttl;
  entries = [];
  records = [];
  next_record = 0;
}

pub data IdempotencyReservation : Type 0 where
  reserved : ℕ → IdempotencyReservation
  must_wait : ℕ → IdempotencyReservation
  conflict : IdempotencyReservation

unfoldable pub is_expired : ℕ → ℕ → IdempotencyRecord → Bool
is_expired ttl now r = ltb ttl (now - r.created_at)

-- An entry whose record is not too old.
unfoldable pub is_live : ℕ → ℕ → Dict ℕ IdempotencyRecord → Text × ℕ → Bool
is_live ttl now records e = elim (lookup e.1 records) [
  | none ↦ false
  | some r ↦ not (is_expired ttl now r)
]

unfoldable pub drop_expired : ℕ → IdempotencyStore → IdempotencyStore
drop_expired now s = record s { entries = keep (is_live s.ttl now s.records) s.entries }

unfoldable pub allocate : Text → Text → ℕ → IdempotencyStore → IdempotencyStore
allocate scope params_hash now s = record s {
  entries = insert scope s.next_record s.entries;
  records =
      (s.next_record, record { params_hash = params_hash; created_at = now; response = none })
      ∷ s.records;
  next_record = suc s.next_record;
}

-- What is found under a number of the map.
unfoldable pub reserve_found : Text → ℕ → Option IdempotencyRecord → IdempotencyReservation
reserve_found params_hash i none = conflict
reserve_found params_hash i (some r) =
    if text_eqb r.params_hash params_hash then must_wait i else conflict

unfoldable pub reserve :
    Text → Text → ℕ → IdempotencyStore → IdempotencyStore × IdempotencyReservation
reserve scope params_hash now store =
    let s = drop_expired now store in
    elim (lookup scope s.entries) [
      | some i ↦ (s, reserve_found params_hash i (lookup i s.records))
      | none ↦ (allocate scope params_hash now s, reserved s.next_record)
    ]

-- `none` for a record that is finished already, on which `close` would panic.
unfoldable pub finish : ℕ → RpcResponse → IdempotencyStore → Option IdempotencyStore
finish i resp s = elim (lookup i s.records) [
  | none ↦ none
  | some r ↦ elim r.response [
    | some old ↦ none
    | none ↦ some (record s { records = insert i (record r { response = some resp }) s.records })
  ]
]

-- What a call that waits receives, or `none` as long as the record is not finished.
unfoldable pub wait : ℕ → IdempotencyStore → Option RpcResponse
wait i s = elim (lookup i s.records) [ none ↦ none | some r ↦ r.response ]

unfoldable pub idempotent_rpc_methods : List Text
idempotent_rpc_methods =
    text "chat"
    ∷ text "session.reset"
    ∷ text "presence.set"
    ∷ text "standing.set"
    ∷ text "standing.clear"
    ∷ text "standing.profile.set"
    ∷ text "standing.profile.delete"
    ∷ text "standing.profile.activate"
    ∷ text "agent.run"
    ∷ text "agent.start"
    ∷ text "agent.cancel"
    ∷ text "agent.steer"
    ∷ text "subagent.spawn"
    ∷ text "subagent.kill"
    ∷ text "subagent.steer"
    ∷ text "memory.insert"
    ∷ text "memory.delete"
    ∷ text "memory.entity.create"
    ∷ text "memory.entity.update"
    ∷ text "memory.entity.link_chunk"
    ∷ text "memory.entity.relate"
    ∷ text "memory.entity.touch"
    ∷ text "memory.entity.delete"
    ∷ text "memory.entity.unlink_chunk"
    ∷ text "memory.entity.unrelate"
    ∷ text "contact.alias"
    ∷ text "contact.link_channel_identity"
    ∷ text "memory.candidate.create"
    ∷ text "memory.candidate.edit"
    ∷ text "memory.candidate.approve"
    ∷ text "memory.candidate.merge"
    ∷ text "memory.candidate.reject"
    ∷ text "task.candidate.create"
    ∷ text "task.candidate.extract"
    ∷ text "task.candidate.edit"
    ∷ text "task.candidate.approve"
    ∷ text "task.candidate.reject"
    ∷ text "task.update"
    ∷ text "task.assign"
    ∷ text "task.snooze"
    ∷ text "task.complete"
    ∷ text "task.reopen"
    ∷ text "waiting.create"
    ∷ text "waiting.update"
    ∷ text "waiting.snooze"
    ∷ text "waiting.resolve"
    ∷ text "waiting.reopen"
    ∷ text "workspace.write"
    ∷ text "workspace.edit"
    ∷ text "workspace.mkdir"
    ∷ text "workspace.delete"
    ∷ text "approval.approve"
    ∷ text "approval.reject"
    ∷ text "skills.approve"
    ∷ text "skills.reject"
    ∷ text "exec"
    ∷ text "exec.approve"
    ∷ text "exec.reject"
    ∷ text "cron.create"
    ∷ text "cron.update"
    ∷ text "cron.delete"
    ∷ text "cron.trigger"
    ∷ text "heartbeat.set"
    ∷ text "heartbeat.wake"
    ∷ text "server.set_log_level"
    ∷ []

unfoldable pub is_idempotent_rpc_method : Text → Bool
is_idempotent_rpc_method m = some_of (text_eqb m) idempotent_rpc_methods

-- What encoding/json finds: an error, no key, or a key.
pub data KeyField : Type 0 where
  invalid_params : KeyField
  no_key : KeyField
  key_field : Text → KeyField

abbrev pub null_params : Text
null_params = text "null"

-- The key, empty if there is none; `none` is an error.
unfoldable pub idempotency_key_from_params : (Text → KeyField) → Text → Option Text
idempotency_key_from_params parse_key params =
    if is_empty params || text_eqb params null_params then some [] else elim (parse_key params) [
      | invalid_params ↦ none
      | no_key ↦ some []
      | key_field k ↦ let key = trim_space k in if is_empty key then none else some key
    ]

pub data Admission : Type 0 where
  -- Not idempotent: it is dispatched as it is.
  dispatched : Admission
  refused : Admission
  keyed : IdempotencyReservation → Admission

unfoldable pub scope_of : Text → Text → Text → Text
scope_of peer_id method key = peer_id ++ (0 ∷ method ++ (0 ∷ key))

-- `handleIdempotentRPC` up to the reservation.
unfoldable pub handle_idempotent_rpc :
    (Text → KeyField)
    → (Text → Option Text)
    → Text
    → Text
    → Text
    → ℕ
    → IdempotencyStore
    → IdempotencyStore × Admission
handle_idempotent_rpc parse_key hash peer_id method params now s =
    if not (is_idempotent_rpc_method method)
    then (s, dispatched)
    else elim (idempotency_key_from_params parse_key params) [
      | none ↦ (s, refused)
      | some [] ↦ (s, dispatched)
      | some (c ∷ cs) ↦ elim (hash params) [
        | none ↦ (s, refused)
        | some h ↦ let (t, r) = reserve (scope_of peer_id method (c ∷ cs)) h now s in (t, keyed r)
      ]
    ]
