-- ===== src/Session/Expiry.antt =====
-- internal/session/store.go: which sessions `Maintain` deletes as expired.
use koios.Prelude.{
  ℕ, ◌-◌, ◌<◌, ◌≡◌, refl, inl, inr, Bool, true, false, not, ◌&&◌, ◌||◌, none, some, List, [], ◌∷◌,
  ◌++◌, append-nil, arith, leb, nat_eqb, if◌then◌else◌, lt→ltb, Bool-cases, Option-cases, nat_eq,
  keep, some_of, Dict, lookup, NodupKeys, lookup-delete, Text, text_eqb, text_eqb_iff, text_eq,
}
use koios.Session.Data.{Session}
use koios.Session.Store.{Store, File, Env, delete_session}
use koios.Session.Maintain.{
  SessionRecord, MaintenanceReport, delete_all, is_expired, delete_expired, session_records,
  record_of, loaded_records, file_records,
}

-- Is the peer among the given records?
abbrev pub names : Text → List SessionRecord → Bool
names p = some_of (λ r. text_eqb r.peer_id p)

delete_session-lookup :
    (p q : Text) (st : Store)
    → lookup q (delete_session true p st).0.peers
      ≡ (if text_eqb p q then none else lookup q st.peers)
unfolding delete_session
delete_session-lookup p q st = elim (Option-cases (lookup p st.peers)) [
  | inl e ↦ ground (arith, lookup-delete p q st.files, text_eqb_iff p q)
  | inr (s, e) ↦ ground (arith, lookup-delete p q st.peers)
]

pub delete_all-lookup :
    (rs : List SessionRecord) (q : Text) (st : Store)
    → lookup q (delete_all true rs st).0.peers ≡ (if names q rs then none else lookup q st.peers)
unfolding delete_all
delete_all-lookup [] q st = refl
delete_all-lookup (r ∷ rs) q st = ground (
  arith,
  delete_session-lookup r.peer_id q st,
  delete_all-lookup rs q (delete_session true r.peer_id st).0,
)

peer_id-record_of : (now : ℕ) (p : Text) (s : Session) → (record_of now p s).peer_id ≡ p
unfolding record_of
peer_id-record_of now p s = refl

names-keep-loaded_none :
    (p : SessionRecord → Bool) (now : ℕ) (q : Text) (m : Dict Text Session)
    → lookup q m ≡ none
    → names q (keep p (loaded_records now m)) ≡ false
unfolding loaded_records lookup
names-keep-loaded_none p now q [] h = refl
names-keep-loaded_none p now q ((j, s) ∷ m) h =
    ground (arith, names-keep-loaded_none p now q m, peer_id-record_of now j s)

-- The only loaded record of a peer is that of its session.
names-keep-loaded :
    (p : SessionRecord → Bool) (now : ℕ) (q : Text) (s : Session) (m : Dict Text Session)
    → NodupKeys m
    → lookup q m ≡ some s
    → names q (keep p (loaded_records now m)) ≡ p (record_of now q s)
unfolding loaded_records lookup
names-keep-loaded p now q s [] nd h = cc
names-keep-loaded p now q s ((j, t) ∷ m) nd h = elim (Bool-cases (text_eqb j q)) [
  | inl e ↦
      ground (arith, text_eqb_iff j q, names-keep-loaded_none p now q m, peer_id-record_of now j t)
  | inr e ↦ ground (arith, names-keep-loaded p now q s m, peer_id-record_of now j t)
]

names-keep-files :
    (p : SessionRecord → Bool) (q : Text) (s : Session) (peers : Dict Text Session)
    (m : Dict Text File)
    → lookup q peers ≡ some s
    → names q (keep p (file_records peers m)) ≡ false
unfolding file_records
names-keep-files p q s peers [] h = refl
names-keep-files p q s peers ((j, f) ∷ m) h = elim (Option-cases (lookup j peers)) [
  | inl e ↦ ground (arith, names-keep-files p q s peers m h, text_eqb_iff j q)
  | inr (t, e) ↦ ground (arith, names-keep-files p q s peers m h)
]

names-append :
    (q : Text) (xs ys : List SessionRecord) → names q (xs ++ ys) ≡ names q xs || names q ys
names-append q [] ys = refl
names-append q (x ∷ xs) ys = ground (arith, names-append q xs ys)

keep-append :
    (p : SessionRecord → Bool) (xs ys : List SessionRecord)
    → keep p (xs ++ ys) ≡ keep p xs ++ keep p ys
keep-append p [] ys = refl
keep-append p (x ∷ xs) ys = ground (arith, keep-append p xs ys)

names-keep-session_records :
    (p : SessionRecord → Bool) (now : ℕ) (q : Text) (s : Session) (st : Store)
    → NodupKeys st.peers
    → lookup q st.peers ≡ some s
    → names q (keep p (session_records now st)) ≡ p (record_of now q s)
unfolding session_records
names-keep-session_records p now q s st nd h =
    let loaded = loaded_records now st.peers in
    let files = file_records st.peers st.files in
    ground (
      arith,
      keep-append p loaded files,
      append-nil loaded,
      names-append q (keep p loaded) (keep p files),
      names-keep-loaded p now q s st.peers nd h,
      names-keep-files p q s st.peers st.files h,
    )

is_expired-record_of :
    (now retention : ℕ) (q : Text) (s : Session)
    → 0 < retention
    → is_expired now retention (record_of now q s)
      ≡ not (nat_eqb s.last_activity 0) && leb retention (now - s.last_activity)
unfolding is_expired record_of
is_expired-record_of now retention q s h = ground arith

-- Where a retention time is configured, files can be removed and no peer has two sessions, the step of
-- `Maintain` for expired sessions deletes a loaded session if it has been active and its last activity
-- is at least that long ago, and otherwise leaves it as it is.
pub delete_expired_exact :
    (env : Env) (report : MaintenanceReport) (q : Text) (s : Session) (st : Store)
    → env.accepted ≡ true
    → 0 < st.retention
    → NodupKeys st.peers
    → lookup q st.peers ≡ some s
    → lookup q (delete_expired env report st).0.peers ≡ (
        if not (nat_eqb s.last_activity 0) && leb st.retention (env.now - s.last_activity)
        then none
        else some s)
unfolding delete_expired
delete_expired_exact env report q s st acc h nd e =
    let records = keep (is_expired env.now st.retention) (session_records env.now st) in
    simp (acc, lt→ltb 0 st.retention h)
      (rw
        (
          delete_all-lookup records q st,
          names-keep-session_records (is_expired env.now st.retention) env.now q s st nd e,
          is_expired-record_of env.now st.retention q s h,
          e,
        )
        refl)
