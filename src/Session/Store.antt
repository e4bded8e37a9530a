-- ===== src/Session/Store.antt =====
-- internal/session/store.go: the store of sessions, one for each peer. `files` holds the journal
-- files, under the session directory, of the peers whose session is not loaded; a loaded session
-- owns its file (`Session.Data`). Files are named by `url.PathEscape(peerID)`, which is injective.
use koios.Prelude.{
  ℕ, ◌+◌, Bool, true, false, not, ◌&&◌, Option, none, some, List, [], ◌∷◌, map, nat_eqb,
  if◌then◌else◌, nat_eq, length, keep, Dict, lookup, insert, delete, Text, text_eq, is_empty,
}
use koios.Types.{Message}
use koios.Redact
use koios.Session.Data.{Reader, Session, Line, load_from_file, reset}
use koios.Session.Compaction.{
  Answers, CompactionReport, CompactionStatus, prepare_compaction, execute_compaction,
  build_compaction_status, estimate_request_tokens,
}
use koios.Session.Append.{Limits, append_to_session}
use koios.Session.Lifecycle.{Cutover, Lifetimes, apply_lifecycle}

pub record File : Type 0 where
  pub lines : List Line
  pub mod_time : ℕ

-- `AppendEvent`
pub record AppendEvent : Type 0 where
  pub peer_id : Text
  pub source : Text
  pub messages : List Message

-- Subscribers are known by their number; `Subscribe`'s callbacks are outside the model.
pub record Store : Type 0 where
  pub peers : Dict Text Session
  pub limits : Limits
  pub lifetimes : Lifetimes
  pub has_dir : Bool
  pub files : Dict Text File
  pub retention : ℕ
  pub max_entries : ℕ
  pub subscribers : Dict Text (List ℕ)
  pub next_sub_id : ℕ

-- What the environment brings to one call: the functions that the code calls in other packages,
-- whether the file system accepts a write, and the time.
pub record Env : Type 0 where
  pub scrub : Text → Text
  pub reload : Reader
  pub request_bytes : List Message → ℕ
  pub cutover : Cutover
  pub accepted : Bool
  pub answers : Answers
  pub now : ℕ

unfoldable pub fresh_session : Reader → Bool → Option File → Session
unfolding load_from_file
fresh_session reload has_dir (some f) = load_from_file reload f.lines f.mod_time
fresh_session reload has_dir none = record {
  messages = [];
  persisted = has_dir;
  journal = [];
  last_activity = 0;
}

-- `&Session{}`, and with a session directory the path and content of its file.
unfoldable pub open_session : Reader → Text → Store → Session
unfolding fresh_session
open_session reload peer st =
    if st.has_dir
    then fresh_session reload true (lookup peer st.files)
    else fresh_session reload false none

unfoldable pub put : Text → Session → Store → Store
put peer s st = record st { peers = insert peer s st.peers; files = delete peer st.files }

unfoldable pub get_or_load : Reader → Text → Store → Store × Session
get_or_load reload peer st = elim (lookup peer st.peers) [
  | some s ↦ (st, s)
  | none ↦ let s = open_session reload peer st in (put peer s st, s)
]

unfoldable pub get : Env → Text → Store → Store × Session
get env peer st =
    let (st', s) = get_or_load env.reload peer st in
    let s' = (apply_lifecycle env.cutover env.accepted st'.lifetimes env.now s).0 in
    (put peer s' st', s')

-- `notifyAppend`: the subscribers that are called, each with the event.
unfoldable pub notify_append : AppendEvent → Store → List (ℕ × AppendEvent)
notify_append ev st = elim (lookup ev.peer_id st.subscribers) [
  | some ids ↦ map (λ i. (i, ev)) ids
  | none ↦ []
]

-- `AppendCtxWithSource`; `Append`, `AppendCtx` and `AppendWithSource` only fill in arguments.
unfoldable pub append_ctx_with_source :
    Env → Text → Text → List Message → Store → Store × List (ℕ × AppendEvent)
append_ctx_with_source env peer source ms st =
    if is_empty ms
    then (st, [])
    else let redacted = Redact.messages env.scrub ms in
      let (st', s) = get env peer st in
      let s' =
        append_to_session env.request_bytes env.accepted st'.limits env.answers env.now redacted
          s in
      let st'' = put peer s' st' in
      (st'', notify_append (record { peer_id = peer; source = source; messages = redacted }) st'')

-- `Store.Reset`
unfoldable pub reset_peer : Bool → ℕ → Text → Store → Store
reset_peer accepted now peer st = elim (lookup peer st.peers) [
  | some s ↦ put peer (reset accepted now s) st
  | none ↦ st
]

-- `deleteSession`: the new store, and whether something is reported deleted. A file that cannot be
-- removed stays.
unfoldable pub delete_session : Bool → Text → Store → Store × Bool
delete_session accepted peer st = elim (lookup peer st.peers) [
  | some s ↦
      let unloaded = record st { peers = delete peer st.peers } in
      if s.persisted && not accepted
      then (
        record unloaded {
          files = insert peer (record { lines = s.journal; mod_time = s.last_activity }) st.files;
        },
        false,
      )
      else (unloaded, true)
  | none ↦
      if st.has_dir
      then (if accepted then (record st { files = delete peer st.files }, true) else (st, false))
      else (st, false)
]

-- `CompactNow`, with no other goroutine between.
unfoldable pub compact_now : Env → Text → Store → Store × Option CompactionReport
compact_now env peer st =
    let (st', s) = get env peer st in
    let l = st'.limits in
    elim (prepare_compaction env.request_bytes l.compact_reserve l.has_compactor l.has_flusher s) [
      | none ↦ (st', none)
      | some a ↦
          let (s', r) = execute_compaction env.accepted env.answers a s in (put peer s' st', some r)
    ]

-- `Store.CompactionStatus`
unfoldable pub compaction_status : Env → Text → Store → Store × CompactionStatus
compaction_status env peer st =
    let (st', s) = get env peer st in
    let l = st'.limits in
    (
      st',
      build_compaction_status (length s.messages)
          (estimate_request_tokens env.request_bytes s.messages) l.compact_reserve l.has_compactor
          l.has_flusher,
    )

unfoldable pub subscribe : Text → Store → Store × ℕ
subscribe peer st =
    let id = st.next_sub_id + 1 in
    let ids : List ℕ = elim (lookup peer st.subscribers) [ some l ↦ l | none ↦ [] ] in
    (record st { next_sub_id = id; subscribers = insert peer (id ∷ ids) st.subscribers }, id)

-- The function that `Subscribe` returns.
unfoldable pub unsubscribe : Text → ℕ → Store → Store
unsubscribe peer id st = elim (lookup peer st.subscribers) [
  | none ↦ st
  | some ids ↦
      let rest = keep (λ i. not (nat_eqb i id)) ids in
      record st {
        subscribers =
            if is_empty rest then delete peer st.subscribers else insert peer rest st.subscribers;
      }
]
