-- ===== src/Session/Maintained.antt =====
-- internal/session/store.go, `Maintain`: what it makes of a session that is loaded.
use koios.Prelude.{
  ◌-◌, ◌<◌, ◌≡◌, ◌∙◌, sym, ap, subst, refl, inl, inr, arith, Bool, true, false, not, ◌&&◌, none,
  some, List, [], ◌∷◌, leb, nat_eqb, if◌then◌else◌, Bool-cases, Option-cases, nat_eq, length, take,
  keep, Dict, lookup, lookup-insert, NodupKeys, NodupKeys-insert, Text, text_eqb, text_eqb_iff,
  text_eq,
}
use koios.Session.Data.{Reader, Session}
use koios.Session.Lifecycle.{Lifetimes, apply_lifecycle}
use koios.Session.Store.{Store, Env, get_or_load, put, open_session, delete_session}
use koios.Session.Maintain.{
  is_expired, SessionRecord, MaintenanceReport, load_all, apply_lifecycles, count_action,
  delete_expired, evict_oldest, maintain, session_records, lifecycle_enabled, delete_all,
  sort_by_activity,
}
use koios.Session.Expiry.{delete_expired_exact, delete_all-lookup}

-- What loading other sessions keeps.
abbrev Kept : Text → Session → Store → Store → Type 0
Kept q s st st' =
    (lookup q st'.peers ≡ some s)
    × NodupKeys st'.peers
    × (st'.lifetimes ≡ st.lifetimes)
    × (st'.retention ≡ st.retention)
    × (st'.max_entries ≡ st.max_entries)

get_or_load-Kept :
    (reload : Reader) (p q : Text) (s : Session) (st : Store)
    → lookup q st.peers ≡ some s
    → NodupKeys st.peers
    → Kept q s st (get_or_load reload p st).0
unfolding get_or_load put
get_or_load-Kept reload p q s st h n = elim (Option-cases (lookup p st.peers)) [
  | inl e ↦
      let opened = open_session reload p st in
      let l = lookup-insert p q opened st.peers in
      let d = NodupKeys-insert p opened st.peers n in
      rw (e, get_or_load) (ground (arith, text_eqb_iff p q), d, refl, refl, refl)
  | inr (t, e) ↦ rw (e, get_or_load) (h, n, refl, refl, refl)
]

load_all-Kept :
    (reload : Reader) (rs : List SessionRecord) (q : Text) (s : Session) (st : Store)
    → lookup q st.peers ≡ some s
    → NodupKeys st.peers
    → Kept q s st (load_all reload rs st)
unfolding load_all
load_all-Kept reload [] q s st h n = (h, n, refl, refl, refl)
load_all-Kept reload (r ∷ rs) q s st h n =
    let (a, b, c, d, e) = get_or_load-Kept reload r.peer_id q s st h n in
    let (a', b', c', d', e') =
      load_all-Kept reload rs q s (get_or_load reload r.peer_id st).0 a b in
    (a', b', c' ∙ c, d' ∙ d, e' ∙ e)

apply_lifecycles-none :
    (env : Env) (lt : Lifetimes) (q : Text) (m : Dict Text Session) (report : MaintenanceReport)
    → lookup q m ≡ none
    → lookup q (apply_lifecycles env lt m report).0 ≡ none
unfolding apply_lifecycles lookup
apply_lifecycles-none env lt q [] report h = refl
apply_lifecycles-none env lt q ((p, s) ∷ m) report h =
    let act = (apply_lifecycle env.cutover env.accepted lt env.now s).1 in
    ground (arith, apply_lifecycles-none env lt q m (count_action act report))

apply_lifecycles-NodupKeys :
    (env : Env) (lt : Lifetimes) (m : Dict Text Session) (report : MaintenanceReport)
    → NodupKeys m
    → NodupKeys (apply_lifecycles env lt m report).0
unfolding apply_lifecycles
apply_lifecycles-NodupKeys env lt [] report n = tt
apply_lifecycles-NodupKeys env lt ((p, s) ∷ m) report (e, n) =
    let act = (apply_lifecycle env.cutover env.accepted lt env.now s).1 in
    (
      apply_lifecycles-none env lt p m (count_action act report) e,
      apply_lifecycles-NodupKeys env lt m (count_action act report) n,
    )

lookup-apply_lifecycles :
    (env : Env) (lt : Lifetimes) (q : Text) (s : Session) (m : Dict Text Session)
    (report : MaintenanceReport)
    → lookup q m ≡ some s
    → lookup q (apply_lifecycles env lt m report).0
      ≡ some (apply_lifecycle env.cutover env.accepted lt env.now s).0
unfolding apply_lifecycles lookup
lookup-apply_lifecycles env lt q s [] report h = cc
lookup-apply_lifecycles env lt q s ((p, t) ∷ m) report h =
    let act = (apply_lifecycle env.cutover env.accepted lt env.now t).1 in
    let rest = lookup-apply_lifecycles env lt q s m (count_action act report) in
    elim (Bool-cases (text_eqb p q)) [
      | inl b ↦ let same : t ≡ s = ground arith in rw (b, same) refl
      | inr b ↦ rw b (rest (ground arith))
    ]

evict_oldest-none :
    (env : Env) (q : Text) (report : MaintenanceReport) (st : Store)
    → env.accepted ≡ true
    → lookup q st.peers ≡ none
    → lookup q (evict_oldest env report st).0.peers ≡ none
unfolding evict_oldest
evict_oldest-none env q report st acc h =
    let records = session_records env.now st in
    let rs = take (length records - st.max_entries) (sort_by_activity records) in
    let d = delete_all-lookup rs q st in simp acc (ground arith)

evict_oldest_unbounded :
    (env : Env) (report : MaintenanceReport) (st : Store)
    → st.max_entries ≡ 0
    → (evict_oldest env report st).0 ≡ st
unfolding evict_oldest
evict_oldest_unbounded env report st h = ground arith

max_entries-delete_session :
    (accepted : Bool) (p : Text) (st : Store)
    → (delete_session accepted p st).0.max_entries ≡ st.max_entries
unfolding delete_session
max_entries-delete_session accepted p st = elim (Option-cases (lookup p st.peers)) [
  | inl e ↦ ground arith
  | inr (s, e) ↦ ground arith
]

max_entries-delete_all :
    (accepted : Bool) (rs : List SessionRecord) (st : Store)
    → (delete_all accepted rs st).0.max_entries ≡ st.max_entries
unfolding delete_all
max_entries-delete_all accepted [] st = refl
max_entries-delete_all accepted (r ∷ rs) st =
    max_entries-delete_all accepted rs (delete_session accepted r.peer_id st).0
    ∙ max_entries-delete_session accepted r.peer_id st

max_entries-delete_expired :
    (env : Env) (report : MaintenanceReport) (st : Store)
    → (delete_expired env report st).0.max_entries ≡ st.max_entries
unfolding delete_expired
max_entries-delete_expired env report st =
    let rs = keep (is_expired env.now st.retention) (session_records env.now st) in
    ground (arith, max_entries-delete_all env.accepted rs st)

-- The store once the lifecycles of all sessions are applied, and the report so far.
abbrev loaded_store : Env → Store → Store
loaded_store env st =
    if lifecycle_enabled st.lifetimes
    then load_all env.reload (session_records env.now st) st
    else st

abbrev empty_report : MaintenanceReport
empty_report = record {
  deleted_expired = 0;
  deleted_evicted = 0;
  idle_resets = 0;
  idle_prunes = 0;
  daily_resets = 0;
}

loaded_store-Kept :
    (env : Env) (q : Text) (s : Session) (st : Store)
    → lookup q st.peers ≡ some s
    → NodupKeys st.peers
    → Kept q s st (loaded_store env st)
loaded_store-Kept env q s st h n = elim (Bool-cases (lifecycle_enabled st.lifetimes)) [
  | inl b ↦ rw b (load_all-Kept env.reload (session_records env.now st) q s st h n)
  | inr b ↦ rw b (h, n, refl, refl, refl)
]

-- Where a retention time is configured, files can be removed and no peer has two sessions, one round
-- of maintenance first resets or prunes a loaded session as its lifecycle says. It deletes the outcome
-- if that has been active and its last activity, now if it was reset, is at least the retention time
-- ago. Otherwise, and with no cap on the number of sessions, it leaves the outcome.
pub maintain_lem :
    (env : Env) (q : Text) (s : Session) (st : Store)
    → env.accepted ≡ true
    → 0 < st.retention
    → NodupKeys st.peers
    → lookup q st.peers ≡ some s
    → let s' = (apply_lifecycle env.cutover env.accepted st.lifetimes env.now s).0 in
      let is_old =
        not (nat_eqb s'.last_activity 0) && leb st.retention (env.now - s'.last_activity) in
      (is_old ≡ true → lookup q (maintain env st).0.peers ≡ none)
      × (is_old ≡ false → st.max_entries ≡ 0 → lookup q (maintain env st).0.peers ≡ some s')
unfolding maintain
maintain_lem env q s st acc h n l =
    let st1 = loaded_store env st in
    let (a, b, c, d, e) = loaded_store-Kept env q s st l n in
    let cycled = apply_lifecycles env st1.lifetimes st1.peers empty_report in
    let s' = (apply_lifecycle env.cutover env.accepted st.lifetimes env.now s).0 in
    let st2 : Store = record st1 { peers = cycled.0 } in
    let found : lookup q cycled.0 ≡ some s' =
      lookup-apply_lifecycles env st1.lifetimes q s st1.peers empty_report a
      ∙ ap (λ lt. some (apply_lifecycle env.cutover env.accepted lt env.now s).0) c in
    let exact =
      delete_expired_exact env cycled.1 q s' st2 acc (subst (λ x. 0 < x) (sym d) h)
        (apply_lifecycles-NodupKeys env st1.lifetimes st1.peers empty_report b) found in
    let bound = max_entries-delete_expired env cycled.1 st2 in
    let st3 = (delete_expired env cycled.1 st2).0 in
    let report = (delete_expired env cycled.1 st2).1 in
    (
      λ old. evict_oldest-none env q report st3 acc (ground arith),
      λ young free.
          ap (λ x. lookup q x.peers) (evict_oldest_unbounded env report st3 (ground arith))
          ∙ ground arith,
    )
