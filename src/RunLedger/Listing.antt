-- ===== src/RunLedger/Listing.antt =====
-- internal/runledger/store.go, `List` and `CompleteTiming`. `ms` stands for the milliseconds of a
-- duration.
use koios.Prelude.{
  ℕ, ◌-◌, Bool, true, false, not, ◌&&◌, ◌||◌, Option, none, some, List, [], ◌∷◌, ltb, nat_eqb,
  if◌then◌else◌, length, take, lookup, Text, text_eqb, text_eq, is_empty,
}
use koios.RunLedger.Store.{
  RunKind, kind_agent, kind_subagent, kind_orchestrator, kind_workflow, kind_cron,
  kind_code_execution, kind_process, RunStatus, queued, running, completed, errored, canceled,
  skipped, Timing, Record, Store,
}

-- The empty kind and the empty status are `none`.
pub record Filter : Type 0 where
  pub peer_id : Text
  pub kind : Option RunKind
  pub status : Option RunStatus
  pub limit : ℕ

unfoldable pub kind_number : RunKind → ℕ
kind_number kind_agent = 0
kind_number kind_subagent = 1
kind_number kind_orchestrator = 2
kind_number kind_workflow = 3
kind_number kind_cron = 4
kind_number kind_code_execution = 5
kind_number kind_process = 6

unfoldable pub status_number : RunStatus → ℕ
status_number queued = 0
status_number running = 1
status_number completed = 2
status_number errored = 3
status_number canceled = 4
status_number skipped = 5

unfoldable pub is_terminal : RunStatus → Bool
is_terminal queued = false
is_terminal running = false
is_terminal completed = true
is_terminal errored = true
is_terminal canceled = true
is_terminal skipped = true

unfoldable pub or_time : Option ℕ → ℕ → ℕ
or_time none t = t
or_time (some s) t = s

unfoldable pub latest_activity_at : Record → ℕ
latest_activity_at r = or_time r.finished_at (or_time r.started_at r.queued_at)

-- With the age `retain_for`, 0 for none, a terminal record that is older is left out.
unfoldable pub is_retained : ℕ → ℕ → Record → Bool
is_retained retain_for now r =
    nat_eqb retain_for 0
    || not (is_terminal r.status)
    || not (ltb (or_time r.finished_at r.queued_at) (now - retain_for))

unfoldable pub matches_kind : Option RunKind → RunKind → Bool
matches_kind none k = true
matches_kind (some j) k = nat_eqb (kind_number j) (kind_number k)

unfoldable pub matches_status : Option RunStatus → RunStatus → Bool
matches_status none s = true
matches_status (some t) s = nat_eqb (status_number t) (status_number s)

unfoldable pub matches_filter : Filter → Record → Bool
matches_filter f r =
    (is_empty f.peer_id || text_eqb r.peer_id f.peer_id)
    && matches_kind f.kind r.kind
    && matches_status f.status r.status

-- The records of the ids of the list that are to be shown, the last one first.
unfoldable pub selected : Filter → ℕ → ℕ → Store → List Text → List Record → List Record
selected f retain_for now s [] shown = shown
selected f retain_for now s (id ∷ ids) shown = elim (lookup id (s.index).entries) [
  | none ↦ selected f retain_for now s ids shown
  | some r ↦
      selected f retain_for now s ids
        (if is_retained retain_for now r && matches_filter f r then r ∷ shown else shown)
]

-- Is the first record to stand before the second?
unfoldable pub is_newer : Record → Record → Bool
is_newer a b =
    let ta = latest_activity_at a in
    let tb = latest_activity_at b in
    if nat_eqb ta tb then ltb b.queued_at a.queued_at else ltb tb ta

unfoldable pub insert_newest : Record → List Record → List Record
insert_newest r [] = r ∷ []
insert_newest r (x ∷ xs) =
    let rest = insert_newest r xs in if is_newer x r then x ∷ rest else r ∷ x ∷ xs

unfoldable pub sort_newest : List Record → List Record
sort_newest [] = []
sort_newest (x ∷ xs) = insert_newest x (sort_newest xs)

unfoldable pub list_records : Filter → ℕ → ℕ → Store → List Record
list_records f retain_for now s =
    let out = sort_newest (selected f retain_for now s (s.index).order []) in
    if ltb 0 f.limit && ltb f.limit (length out) then take f.limit out else out

unfoldable pub span_ms : (ℕ → ℕ) → ℕ → Option ℕ → ℕ
span_ms ms from none = 0
span_ms ms from (some to) = if ltb 0 from && ltb from to then ms (to - from) else 0

unfoldable pub or_span : ℕ → ℕ → ℕ
or_span given derived = if ltb 0 given then given else derived

-- The time outside the model and the tools, if either was measured.
unfoldable pub finalize_span : (ℕ → ℕ) → Record → Timing → ℕ
finalize_span ms r t = elim r.started_at [
  | none ↦ 0
  | some started ↦ elim r.finished_at [
    | none ↦ 0
    | some finished ↦
        if (ltb 0 t.model_ms || ltb 0 t.tool_ms) && ltb started finished
        then ms (finished - started) - t.model_ms - t.tool_ms
        else 0
  ]
]

unfoldable pub complete_timing : (ℕ → ℕ) → Record → Timing → Option Timing
complete_timing ms r partial =
    let t : Timing = record partial {
      queue_ms = or_span partial.queue_ms (span_ms ms r.queued_at r.started_at);
      total_ms = or_span partial.total_ms (span_ms ms r.queued_at r.finished_at);
      finalize_ms = or_span partial.finalize_ms (finalize_span ms r partial);
    } in
    if nat_eqb t.queue_ms 0
      && nat_eqb t.model_ms 0
      && nat_eqb t.tool_ms 0
      && nat_eqb t.finalize_ms 0
      && nat_eqb t.total_ms 0
      && nat_eqb t.retries 0
    then none
    else some t
