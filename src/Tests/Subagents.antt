-- ===== src/Tests/Subagents.antt =====
-- Examples for internal/subagent/registry.go.
use koios.Prelude.{
  ◌≡◌, refl, ◌≢◌, true, false, ◌||◌, none, some, [], ◌∷◌, arith, nat_eqb, ltb, ◌-◌, if◌then◌else◌,
  nat_eq, count_of, lookup, NodupKeys, Text, text, text_eq,
}
use koios.Subagent.Records.{
  RunRecord, SpawnRequest, leaf, control_none, queued, running, completed, status_eqb,
}
use koios.Subagent.Registry.{Registry, new_registry, new_run, update, is_active, sweep}
use koios.Subagent.Effects.{sweep_lem, update_finishes, is_finish, Distinct}

abbrev bare : Text → Text
bare t = t

abbrev request : SpawnRequest
request = record {
  peer_id = text "bob";
  parent_id = [];
  parent_run_id = [];
  parent_session_key = text "bob";
  source_session_key = [];
  task = text "look it up";
  model = [];
  timeout = 0;
  sandbox_mode = [];
  attachments = [];
  role = leaf;
  control = control_none;
  max_children = 0;
  session_key = [];
  stream = false;
  push_to_parent = false;
  reply_back = false;
  announce_skip = false;
  reply_skip = false;
  depth = 0;
}

abbrev spawned : RunRecord
spawned = new_run bare 10 (text "r1") (text "t1") request (text "bob::sub")

abbrev registry : Registry
registry = record new_registry { records = (text "r1", spawned) ∷ []; has_ledger = true }

found : lookup (text "r1") registry.records ≡ some spawned
unfolding lookup
found = refl

once : NodupKeys registry.records
unfolding lookup
once = (refl, tt)

sweep_lem_example :
    lookup (text "r1") ((sweep bare true 50 20 registry).0).records
    ≡ elim (lookup (text "r1") registry.records) [
      | none ↦ none
      | some rec ↦
          let limit = if nat_eqb 20 0 then registry.max_age else 20 in
          let since = if nat_eqb rec.finished_at 0 then rec.created_at else rec.finished_at in
          if status_eqb rec.status running || status_eqb rec.status queued
          then some rec
          else if ltb limit (50 - since)
          then none
          else some rec
    ]
sweep_lem_example = sweep_lem bare true 50 20 (text "r1") registry once

not_itself : text "r1" ≢ text "r2"
not_itself e = ground arith

no_children : Distinct spawned.children
unfolding new_run
no_children = tt

abbrev finish : RunRecord → RunRecord
finish rec = record rec { status = completed; finished_at = 30 }

update_finishes_example :
    count_of is_finish (update bare true (text "r1") finish registry).2
    ≡ (if status_eqb completed spawned.status || is_active completed then 0 else 1)
update_finishes_example = update_finishes bare true (text "r1") finish registry spawned found refl
