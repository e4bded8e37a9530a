-- ===== src/Session/Cap.antt =====
-- internal/session/store.go: how long a history is after an append, with no compactor.
use koios.Prelude.{
  ℕ, ◌≤◌, ◌<◌, min, max, ◌≡◌, Bool, false, List, ◌++◌, arith, nat_eq, length, take, drop, text_eq,
}
use koios.Types.{Message}
use koios.Session.Data.{Session, rewrite_file, write_entries}
use koios.Session.Prune.{system_end, prune_to_max, prune_to_max_bound}
use koios.Session.Compaction.{Answers}
use koios.Session.Append.{Limits, prune_and_write, append_msgs, append_to_session}

messages-prune_and_write :
    (accepted : Bool) (k : ℕ) (ms : List Message) (s : Session)
    → (prune_and_write accepted k ms s).messages ≡ (prune_to_max k s).0.messages
unfolding prune_and_write rewrite_file write_entries
messages-prune_and_write accepted k ms s = ground arith

messages-append_to_session :
    (request_bytes : List Message → ℕ) (accepted : Bool) (l : Limits) (answers : Answers) (now : ℕ)
    (ms : List Message) (s : Session)
    → l.has_compactor ≡ false
    → (append_to_session request_bytes accepted l answers now ms s).messages
      ≡ (prune_to_max l.max_msgs
          (record s { messages = s.messages ++ ms; last_activity = now })).0.messages
unfolding append_to_session append_msgs
messages-append_to_session request_bytes accepted l answers now ms s h = ground (
  arith,
  messages-prune_and_write accepted l.max_msgs ms
      (record s { messages = s.messages ++ ms; last_activity = now }),
)

-- With a positive cap and no compactor, an append leaves as many messages as the cap, or all if there
-- are no more, or the leading system messages alone where these exceed it. What is left is the leading
-- system messages and an end piece of the history with the new messages.
pub append_to_session_bound :
    (request_bytes : List Message → ℕ) (accepted : Bool) (l : Limits) (answers : Answers) (now : ℕ)
    (ms : List Message) (s : Session)
    → l.has_compactor ≡ false
    → 0 < l.max_msgs
    → let all = s.messages ++ ms in
      let after = (append_to_session request_bytes accepted l answers now ms s).messages in
      (length after ≡ min (length all) (max l.max_msgs (system_end all)))
      × ((k : ℕ) × (system_end all ≤ k) × (after ≡ take (system_end all) all ++ drop k all))
append_to_session_bound request_bytes accepted l answers now ms s h g =
    rw (messages-append_to_session request_bytes accepted l answers now ms s h) (
      prune_to_max_bound l.max_msgs (record s { messages = s.messages ++ ms; last_activity = now })
        g)
