-- ===== src/Session/Append.antt =====
-- internal/session/store.go: adding messages to one session (`appendMsgs`), and the part of
-- `AppendCtxWithSource` that works on that session.
use koios.Prelude.{ℕ, Bool, ◌&&◌, Option, none, some, List, ◌++◌, if◌then◌else◌, nat_eq, text_eq}
use koios.Types.{Message}
use koios.Session.Data.{Session, write_entries, rewrite_file}
use koios.Session.Prune.{prune_to_max}
use koios.Session.Compaction.{
  CompactionAttempt, CompactionReport, Answers, should_compact, prepare_compaction,
  execute_compaction,
}

-- The limits and components of the store that an append reads.
pub record Limits : Type 0 where
  pub max_msgs : ℕ
  pub compact_threshold : ℕ
  pub compact_token_threshold : ℕ
  pub compact_reserve : ℕ
  pub has_compactor : Bool
  pub has_flusher : Bool

unfoldable pub prune_and_write : Bool → ℕ → List Message → Session → Session
prune_and_write accepted max_msgs ms s =
    let (s', pruned) = prune_to_max max_msgs s in
    if pruned then rewrite_file accepted s' else write_entries accepted ms s'

unfoldable pub append_msgs :
    (List Message → ℕ)
    → Bool
    → Limits
    → ℕ
    → List Message
    → Session
    → Session × Option CompactionAttempt
append_msgs request_bytes accepted l now ms s =
    let s' = record s { messages = s.messages ++ ms; last_activity = now } in
    if l.has_compactor
      && should_compact request_bytes l.compact_threshold l.compact_token_threshold s'.messages
    then (
      write_entries accepted ms s',
      prepare_compaction request_bytes l.compact_reserve l.has_compactor l.has_flusher s',
    )
    else (prune_and_write accepted l.max_msgs ms s', none)

-- `pruneReportAfterFailedCompaction`
unfoldable pub prune_after_failed_compaction : Bool → ℕ → Session → Session
prune_after_failed_compaction accepted max_msgs s =
    let (s', pruned) = prune_to_max max_msgs s in if pruned then rewrite_file accepted s' else s'

-- What `AppendCtxWithSource` does with an attempt once the compactor has answered. The session is
-- given as it then stands: other goroutines may have changed it since the attempt was prepared.
unfoldable pub complete_append :
    Bool → Limits → Answers → CompactionAttempt → Session → Session × CompactionReport
complete_append accepted l answers a s =
    let (s', r) = execute_compaction accepted answers a s in
    (if r.compacted then s' else prune_after_failed_compaction accepted l.max_msgs s', r)

-- `appendMsgs` and, if an attempt was prepared, its completion, with no other goroutine between.
unfoldable pub append_to_session :
    (List Message → ℕ) → Bool → Limits → Answers → ℕ → List Message → Session → Session
append_to_session request_bytes accepted l answers now ms s =
    let (s', attempt) = append_msgs request_bytes accepted l now ms s in
    elim attempt [ none ↦ s' | some a ↦ (complete_append accepted l answers a s').0 ]
