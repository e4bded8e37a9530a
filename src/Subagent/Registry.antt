-- ===== src/Subagent/Registry.antt =====
-- internal/subagent/registry.go, its operations. `scrub` stands for `redact.String`, and `accepted`
-- says whether the file system takes a write; one that it refuses is ignored by the code.
use koios.Prelude.{
  ℕ, ◌-◌, Bool, false, not, ◌&&◌, ◌||◌, Option, none, some, List, [], ◌∷◌, ◌++◌, map, ltb, nat_eqb,
  if◌then◌else◌, nat_eq, length, drop, keep, count_of, some_of, Dict, lookup, insert, Text, text,
  text_eqb, text_eq, is_empty,
}
use koios.Subagent.Records.{
  Status, queued, running, completed, errored, killed, session_reset, session_delete, turn_queued,
  SpawnRequest, RunRecord, LedgerCall, ledger_queued, ledger_started, ledger_finished,
  ledger_metadata, status_eqb, sanitize_run_record,
}

pub record Registry : Type 0 where
  pub records : Dict Text RunRecord
  pub has_path : Bool
  pub saved : List RunRecord
  pub max_age : ℕ
  pub max_events : ℕ
  pub has_ledger : Bool

-- `NewRegistry` in memory: a day, in nanoseconds, and a hundred events.
abbrev pub new_registry : Registry
new_registry = record {
  records = [];
  has_path = false;
  saved = [];
  max_age = 86_400_000_000_000;
  max_events = 100;
  has_ledger = false;
}

unfoldable pub insert_by_creation : RunRecord → List RunRecord → List RunRecord
insert_by_creation r [] = r ∷ []
insert_by_creation r (x ∷ xs) =
    let rest = insert_by_creation r xs in
    if ltb x.created_at r.created_at then x ∷ rest else r ∷ x ∷ xs

unfoldable pub sort_by_creation : List RunRecord → List RunRecord
sort_by_creation [] = []
sort_by_creation (x ∷ xs) = insert_by_creation x (sort_by_creation xs)

unfoldable pub save_locked : (Text → Text) → Bool → Registry → Registry
save_locked scrub accepted r =
    if r.has_path && accepted
    then record r { saved = sort_by_creation (map (λ e. sanitize_run_record scrub e.1) r.records) }
    else r

-- `Spawn`, with the ids that are drawn.
unfoldable pub new_run : (Text → Text) → ℕ → Text → Text → SpawnRequest → Text → RunRecord
new_run scrub now id turn_id req session_key = record {
  id = id;
  peer_id = req.peer_id;
  parent_id = req.parent_id;
  session_key = session_key;
  task = scrub req.task;
  model = req.model;
  timeout = req.timeout;
  sandbox_mode = req.sandbox_mode;
  attachments = req.attachments;
  role = req.role;
  control = req.control;
  max_children = req.max_children;
  status = queued;
  created_at = now;
  started_at = 0;
  finished_at = 0;
  final_reply = [];
  error = [];
  events = record { at = now; kind = text "spawn"; message = scrub req.task } ∷ [];
  transcript = [];
  children = [];
  steering = [];
  reply_back = req.reply_back || req.push_to_parent;
  announce_skip = req.announce_skip;
  reply_skip = req.reply_skip;
  sub_turn = record {
    id = turn_id;
    state = turn_queued;
    parent_session_key = req.parent_session_key;
    parent_run_id = req.parent_run_id;
    source_session_key =
        if is_empty req.source_session_key then req.parent_session_key else req.source_session_key;
    child_session_key = session_key;
    reserved_slot = false;
    concurrency_key = [];
    concurrency_limit = 0;
    active_children = 0;
    steps = 0;
    tool_calls = 0;
    last_event = [];
    queued_at = now;
    started_at = 0;
    last_event_at = 0;
    finished_at = 0;
  };
}

unfoldable pub spawn :
    (Text → Text)
    → Bool
    → ℕ
    → Text
    → Text
    → SpawnRequest
    → Text
    → Registry
    → Registry × RunRecord × List LedgerCall
spawn scrub accepted now id turn_id req session_key r =
    let rec = new_run scrub now id turn_id req session_key in
    (
      save_locked scrub accepted (record r { records = insert id rec r.records }),
      rec,
      if r.has_ledger
          then ledger_queued id rec.peer_id session_key req.model now
            ∷ ledger_metadata id (rec.sub_turn).parent_run_id (rec.sub_turn).tool_calls
            ∷ []
          else [],
    )

unfoldable pub is_active : Status → Bool
is_active s = status_eqb s running || status_eqb s queued

-- The call that a change of status makes.
unfoldable pub transition_calls : Text → Status → RunRecord → List LedgerCall
transition_calls id previous rec = if status_eqb rec.status previous then [] else elim rec.status [
  | queued ↦ []
  | running ↦ ledger_started id rec.started_at ∷ []
  | completed ↦ finish
  | errored ↦ finish
  | killed ↦ finish
  | session_reset ↦ finish
  | session_delete ↦ finish
]
  where
    finish : List LedgerCall
    finish = ledger_finished id rec.finished_at rec.status rec.error (rec.sub_turn).steps ∷ []

unfoldable pub update :
    (Text → Text)
    → Bool
    → Text
    → (RunRecord → RunRecord)
    → Registry
    → Registry × Option RunRecord × List LedgerCall
update scrub accepted id change r = elim (lookup id r.records) [
  | none ↦ (r, none, [])
  | some rec ↦ (
    save_locked scrub accepted (record r { records = insert id (change rec) r.records }),
    some (change rec),
    if r.has_ledger
        then ledger_metadata id ((change rec).sub_turn).parent_run_id
            ((change rec).sub_turn).tool_calls
          ∷ transition_calls id rec.status (change rec)
        else [],
  )
]

unfoldable pub add_event : (Text → Text) → ℕ → ℕ → Text → Text → RunRecord → RunRecord
add_event scrub max_events now kind message rec =
    let events = rec.events ++ (record { at = now; kind = kind; message = scrub message } ∷ []) in
    record rec {
      events =
          if ltb max_events (length events)
          then drop (length events - max_events) events
          else events;
      sub_turn = record rec.sub_turn { last_event = kind; last_event_at = now };
    }

unfoldable pub append_event :
    (Text → Text)
    → Bool
    → ℕ
    → Text
    → Text
    → Text
    → Registry
    → Registry × Option RunRecord × List LedgerCall
append_event scrub accepted now id kind message r =
    update scrub accepted id (add_event scrub r.max_events now kind message) r

unfoldable pub add_child : Text → RunRecord → RunRecord
add_child child rec =
    if some_of (λ c. text_eqb c child) rec.children
    then rec
    else record rec { children = rec.children ++ (child ∷ []) }

unfoldable pub link_child :
    (Text → Text) → Bool → Text → Text → Registry → Registry × List LedgerCall
link_child scrub accepted parent child r =
    if is_empty parent || is_empty child || text_eqb parent child
    then (r, [])
    else let (r', _, calls) = update scrub accepted parent (add_child child) r in (r', calls)

-- A record that `Sweep` removes.
unfoldable pub is_swept : ℕ → ℕ → RunRecord → Bool
is_swept now max_age rec =
    not (is_active rec.status)
    && ltb max_age (now - (if nat_eqb rec.finished_at 0 then rec.created_at else rec.finished_at))

-- The new registry and the number of records removed. An age that is not positive is 0.
unfoldable pub sweep : (Text → Text) → Bool → ℕ → ℕ → Registry → Registry × ℕ
sweep scrub accepted now age r =
    let max_age = if nat_eqb age 0 then r.max_age else age in
    (
      save_locked scrub accepted
          (record r { records = keep (λ e. not (is_swept now max_age e.1)) r.records }),
      count_of (λ e. is_swept now max_age e.1) r.records,
    )
