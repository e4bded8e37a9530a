-- ===== src/Session/Maintain.antt =====
-- internal/session/store.go: the maintenance of all sessions (`Maintain`). The order in which Go
-- visits a map, and in which `sort.Slice` leaves sessions of equal activity, is that of the lists.
use koios.Prelude.{
  ℕ, suc, ◌+◌, ◌-◌, Bool, true, false, not, ◌&&◌, ◌||◌, none, some, List, [], ◌∷◌, ◌++◌, ltb, leb,
  nat_eqb, if◌then◌else◌, nat_eq, length, take, keep, Dict, lookup, Text, text_eq,
}
use koios.Session.Data.{Reader, Session}
use koios.Session.Lifecycle.{Lifetimes, Action, nothing, idle, idle_prune, daily, apply_lifecycle}
use koios.Session.Store.{Store, File, Env, get_or_load, delete_session}

pub record SessionRecord : Type 0 where
  pub peer_id : Text
  pub last_activity : ℕ

pub record MaintenanceReport : Type 0 where
  pub deleted_expired : ℕ
  pub deleted_evicted : ℕ
  pub idle_resets : ℕ
  pub idle_prunes : ℕ
  pub daily_resets : ℕ

unfoldable pub record_of : ℕ → Text → Session → SessionRecord
record_of now p s = record {
  peer_id = p;
  last_activity = if nat_eqb s.last_activity 0 then now else s.last_activity;
}

unfoldable pub loaded_records : ℕ → Dict Text Session → List SessionRecord
loaded_records now [] = []
loaded_records now ((p, s) ∷ m) = record_of now p s ∷ loaded_records now m

-- The files of peers that are not loaded.
unfoldable pub file_records : Dict Text Session → Dict Text File → List SessionRecord
file_records peers [] = []
file_records peers ((p, f) ∷ m) =
    let rest = file_records peers m in
    elim (lookup p peers) [
      | some s ↦ rest
      | none ↦ record { peer_id = p; last_activity = f.mod_time } ∷ rest
    ]

unfoldable pub session_records : ℕ → Store → List SessionRecord
session_records now st =
    loaded_records now st.peers ++ (if st.has_dir then file_records st.peers st.files else [])

unfoldable pub maintenance_enabled : Store → Bool
maintenance_enabled st =
    ltb 0 st.retention
    || ltb 0 st.max_entries
    || ltb 0 st.lifetimes.idle_reset_after
    || (ltb 0 st.lifetimes.idle_prune_after && ltb 0 st.lifetimes.idle_prune_keep)
    || elim st.lifetimes.daily_reset_mins [ some m ↦ true | none ↦ false ]

unfoldable pub lifecycle_enabled : Lifetimes → Bool
lifecycle_enabled lt =
    ltb 0 lt.idle_reset_after
    || (ltb 0 lt.idle_prune_after && ltb 0 lt.idle_prune_keep)
    || elim lt.daily_reset_mins [ some m ↦ true | none ↦ false ]

unfoldable pub load_all : Reader → List SessionRecord → Store → Store
load_all reload [] st = st
load_all reload (r ∷ rs) st = load_all reload rs (get_or_load reload r.peer_id st).0

unfoldable pub count_action : Action → MaintenanceReport → MaintenanceReport
count_action nothing r = r
count_action idle r = record r { idle_resets = r.idle_resets + 1 }
count_action idle_prune r = record r { idle_prunes = r.idle_prunes + 1 }
count_action daily r = record r { daily_resets = r.daily_resets + 1 }

-- The loop over the loaded sessions.
unfoldable pub apply_lifecycles :
    Env → Lifetimes → Dict Text Session → MaintenanceReport → Dict Text Session × MaintenanceReport
apply_lifecycles env lt [] report = ([], report)
apply_lifecycles env lt ((p, s) ∷ m) report =
    let (s', act) = apply_lifecycle env.cutover env.accepted lt env.now s in
    let (m', report') = apply_lifecycles env lt m (count_action act report) in
    ((p, s') ∷ m', report')

unfoldable pub delete_all : Bool → List SessionRecord → Store → Store × ℕ
delete_all accepted [] st = (st, 0)
delete_all accepted (r ∷ rs) st =
    let (st', deleted) = delete_session accepted r.peer_id st in
    let (st'', n) = delete_all accepted rs st' in (st'', if deleted then suc n else n)

unfoldable pub is_expired : ℕ → ℕ → SessionRecord → Bool
is_expired now retention r =
    not (nat_eqb r.last_activity 0) && leb retention (now - r.last_activity)

unfoldable pub delete_expired : Env → MaintenanceReport → Store → Store × MaintenanceReport
delete_expired env report st =
    if ltb 0 st.retention
    then (let (st', n) =
          delete_all env.accepted
            (keep (is_expired env.now st.retention) (session_records env.now st)) st in
        (st', record report { deleted_expired = n }))
    else (st, report)

unfoldable pub insert_by_activity : SessionRecord → List SessionRecord → List SessionRecord
insert_by_activity r [] = r ∷ []
insert_by_activity r (x ∷ xs) =
    if leb r.last_activity x.last_activity then r ∷ x ∷ xs else x ∷ insert_by_activity r xs

unfoldable pub sort_by_activity : List SessionRecord → List SessionRecord
sort_by_activity [] = []
sort_by_activity (r ∷ rs) = insert_by_activity r (sort_by_activity rs)

unfoldable pub evict_oldest : Env → MaintenanceReport → Store → Store × MaintenanceReport
evict_oldest env report st =
    let records = session_records env.now st in
    if ltb 0 st.max_entries && ltb st.max_entries (length records)
    then (let (st', n) =
          delete_all env.accepted
            (take (length records - st.max_entries) (sort_by_activity records)) st in
        (st', record report { deleted_evicted = n }))
    else (st, report)

unfoldable pub maintain : Env → Store → Store × MaintenanceReport
maintain env st =
    let st1 =
      if lifecycle_enabled st.lifetimes
      then load_all env.reload (session_records env.now st) st
      else st in
    let zero_report : MaintenanceReport = record {
      deleted_expired = 0;
      deleted_evicted = 0;
      idle_resets = 0;
      idle_prunes = 0;
      daily_resets = 0;
    } in
    let (peers, report) = apply_lifecycles env st1.lifetimes st1.peers zero_report in
    let (st2, report') = delete_expired env report (record st1 { peers = peers }) in
    evict_oldest env report' st2
