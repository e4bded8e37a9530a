-- ===== src/Session/Recovery.antt =====
-- internal/session/store.go: what a restart finds in the journal file of a session.
use koios.Prelude.{
  ℕ, ◌≡◌, refl, ◌∙◌, inl, inr, true, not, ◌&&◌, Option, none, some, List, [], ◌∷◌, ◌++◌, map, arith,
  nat_eqb, Bool-cases, nat_eq, get_elem?, Text, text_eq,
}
use mathlib.Core.List.{map-append}
use koios.Types.{Message}
use koios.Session.Compaction.NoLoss.{execute_compaction_rule}
use koios.Session.Data.{
  Session, Line, Reader, msg, read_lines, readable, all_fit, readable_all, readable-append,
  all_fit-append, write_entries, rewrite_file, truncate_file, reset, read_lines-map-msg,
  read_lines-append,
}
use koios.Session.Prune.{
  prune_to_max, prune_session_messages, prune_to_max_unpruned, persisted-prune_to_max,
  persisted-prune_session_messages,
}
use koios.Session.Compaction.{
  should_compact, CompactionAttempt, Answers, execute_compaction, apply_compaction_attempt,
  has_message_prefix,
}
use koios.Session.Append.{
  Limits, append_msgs, complete_append, prune_and_write, prune_after_failed_compaction,
}
use koios.Session.Lifecycle.{
  Cutover, Lifetimes, should_daily_reset, apply_lifecycle, idle_prune_step, daily_step,
}
use koios.Session.Interleaving.{
  Shared, Event, append, compact_now, complete, lifecycle, reset_at, step, run, complete_attempt,
  Pending,
}

module _ (reload : Reader) where
  -- The file gives back the messages, each as it is decoded, up to the first whose line does not fit
  -- the reader's buffer, and its reading comes to the end if all of them fit.
  abbrev pub Holds : List Line → List Message → Type 0
  Holds ls ms =
      (read_lines reload [] ls ≡ map reload.decode (readable reload ms))
      × (all_fit reload ls ≡ all_fit reload (map msg ms))

  -- The session has a file, and it holds the session's messages.
  pub record Synced (s : Session) : Type 0 where
    pub on_disk : s.persisted ≡ true
    pub same : Holds s.journal s.messages

  rewrite_file-Synced : (s : Session) → s.persisted ≡ true → Synced (rewrite_file true s)
  unfolding rewrite_file
  rewrite_file-Synced s h = ground (arith, read_lines-map-msg reload [] s.messages)

  truncate_file-Synced :
      (s : Session) → s.persisted ≡ true → s.messages ≡ [] → Synced (truncate_file true s)
  unfolding truncate_file read_lines readable all_fit
  truncate_file-Synced s h e = ground arith

  Holds-append :
      (ls : List Line) (old ms : List Message) → Holds ls old → Holds (ls ++ map msg ms) (old ++ ms)
  Holds-append ls old ms (same, ends) =
      let read = read_lines-append reload [] ls (map msg ms) in
      let more = read_lines-map-msg reload (map reload.decode (readable reload old)) ms in
      let all = readable-append reload old ms in
      let apart = map-append reload.decode old (readable reload ms) in
      (
        elim (Bool-cases (all_fit reload (map msg old))) [
          | inl f ↦ let o = readable_all reload old f in ground arith
          | inr f ↦ ground arith
        ],
        ground (
          arith,
          all_fit-append reload ls (map msg ms),
          all_fit-append reload (map msg old) (map msg ms),
          map-append msg old ms,
        ),
      )

  write_entries-Synced :
      (s : Session) (old ms : List Message)
      → s.persisted ≡ true
      → Holds s.journal old
      → s.messages ≡ old ++ ms
      → Synced (write_entries true ms s)
  unfolding write_entries
  write_entries-Synced s old ms h sync e =
      let grown = Holds-append s.journal old ms sync in ground arith

  prune_and_write-Synced :
      (k : ℕ) (s : Session) (old ms : List Message)
      → s.persisted ≡ true
      → Holds s.journal old
      → s.messages ≡ old ++ ms
      → Synced (prune_and_write true k ms s)
  unfolding prune_and_write
  prune_and_write-Synced k s old ms h sync e = elim (Bool-cases (prune_to_max k s).1) [
    | inl p ↦
        rw (p, prune_and_write)
          (rewrite_file-Synced (prune_to_max k s).0 (persisted-prune_to_max k s ∙ h))
    | inr p ↦
        rw (p, prune_and_write)
          (rw (prune_to_max_unpruned k s p) (write_entries-Synced s old ms h sync e))
  ]

  prune_after_failed-Synced :
      (k : ℕ) (s : Session) → Synced s → Synced (prune_after_failed_compaction true k s)
  unfolding prune_after_failed_compaction
  prune_after_failed-Synced k s sync = elim (Bool-cases (prune_to_max k s).1) [
    | inl p ↦
        rw (p, prune_after_failed_compaction)
          (rewrite_file-Synced (prune_to_max k s).0 (persisted-prune_to_max k s ∙ sync.on_disk))
    | inr p ↦ rw (p, prune_after_failed_compaction) (rw (prune_to_max_unpruned k s p) sync)
  ]

  apply_attempt-Synced :
      (a : CompactionAttempt) (t : Text) (s : Session)
      → Synced s
      → Synced (apply_compaction_attempt true a t s).0
  unfolding apply_compaction_attempt
  apply_attempt-Synced a t s sync =
      elim (Bool-cases (has_message_prefix s.messages a.base_messages)) [
        | inl e ↦ rw (e, apply_compaction_attempt) (rewrite_file-Synced _ sync.on_disk)
        | inr e ↦ rw (e, apply_compaction_attempt) sync
      ]

  execute-Synced :
      (answers : Answers) (a : CompactionAttempt) (s : Session)
      → Synced s
      → Synced (execute_compaction true answers a s).0
  execute-Synced answers a s sync =
      execute_compaction_rule Synced true answers a s sync (λ t. apply_attempt-Synced a t s sync)

  append_msgs-Synced :
      (request_bytes : List Message → ℕ) (l : Limits) (now : ℕ) (ms : List Message) (s : Session)
      → Synced s
      → Synced (append_msgs request_bytes true l now ms s).0
  unfolding append_msgs
  append_msgs-Synced request_bytes l now ms s sync =
      let s' : Session = record s { messages = s.messages ++ ms; last_activity = now } in
      elim (Bool-cases (
        l.has_compactor
        && should_compact request_bytes l.compact_threshold l.compact_token_threshold
            s'.messages)) [
              | inl e ↦
                  rw (e, append_msgs)
                    (write_entries-Synced s' s.messages ms sync.on_disk sync.same refl)
              | inr e ↦
                  rw (e, append_msgs)
                    (prune_and_write-Synced l.max_msgs s' s.messages ms sync.on_disk sync.same refl)
            ]

  complete_append-Synced :
      (l : Limits) (answers : Answers) (a : CompactionAttempt) (s : Session)
      → Synced s
      → Synced (complete_append true l answers a s).0
  unfolding complete_append
  complete_append-Synced l answers a s sync =
      elim (Bool-cases (execute_compaction true answers a s).1.compacted) [
        | inl e ↦ rw (e, complete_append) (execute-Synced answers a s sync)
        | inr e ↦
            rw (e, complete_append)
              (prune_after_failed-Synced l.max_msgs (execute_compaction true answers a s).0
                (execute-Synced answers a s sync))
      ]

  complete_attempt-Synced :
      (l : Limits) (answers : Answers) (p : Option Pending) (s : Session)
      → Synced s
      → Synced (complete_attempt true l answers p s)
  unfolding complete_attempt
  complete_attempt-Synced l answers none s sync = sync
  complete_attempt-Synced l answers (some p) s sync = elim (Bool-cases p.by_append) [
    | inl e ↦ rw (e, complete_attempt) (complete_append-Synced l answers p.attempt s sync)
    | inr e ↦ rw (e, complete_attempt) (execute-Synced answers p.attempt s sync)
  ]

  daily_step-Synced :
      (cutover : Cutover) (lt : Lifetimes) (now : ℕ) (s : Session)
      → Synced s
      → Synced (daily_step cutover true lt now s).0
  unfolding daily_step
  daily_step-Synced cutover lt now s sync =
      elim (Bool-cases (
        not (nat_eqb s.last_activity 0)
        && should_daily_reset cutover now s.last_activity lt.daily_reset_mins)) [
          | inl e ↦ rw (e, daily_step) (truncate_file-Synced _ sync.on_disk refl)
          | inr e ↦ rw (e, daily_step) sync
        ]

  idle_prune_step-Synced :
      (cutover : Cutover) (lt : Lifetimes) (now : ℕ) (s : Session)
      → Synced s
      → Synced (idle_prune_step cutover true lt now s).0
  unfolding idle_prune_step
  idle_prune_step-Synced cutover lt now s sync = ground (
    arith,
    rewrite_file-Synced (prune_session_messages lt.idle_prune_keep s).0
        (persisted-prune_session_messages lt.idle_prune_keep s ∙ sync.on_disk),
    daily_step-Synced cutover lt now s sync,
  )

  apply_lifecycle-Synced :
      (cutover : Cutover) (lt : Lifetimes) (now : ℕ) (s : Session)
      → Synced s
      → Synced (apply_lifecycle cutover true lt now s).0
  unfolding apply_lifecycle
  apply_lifecycle-Synced cutover lt now s sync = ground (
    arith,
    truncate_file-Synced (record s { messages = []; last_activity = now }) sync.on_disk refl,
    idle_prune_step-Synced cutover lt now s sync,
  )

module _ (reload : Reader) (request_bytes : List Message → ℕ) (cutover : Cutover) (l : Limits)
    (lt : Lifetimes) where
  step-Synced :
      (st : Shared) (e : Event)
      → Synced reload st.session
      → Synced reload (step request_bytes cutover l lt true st e).session
  unfolding step reset
  step-Synced st (append now ms) sync =
      append_msgs-Synced reload request_bytes l now ms st.session sync
  step-Synced st compact_now sync = sync
  step-Synced st (complete i answers) sync =
      complete_attempt-Synced reload l answers (get_elem? st.pending i) st.session sync
  step-Synced st (lifecycle now) sync = apply_lifecycle-Synced reload cutover lt now st.session sync
  step-Synced st (reset_at now) sync = truncate_file-Synced reload _ sync.on_disk refl

  -- Where the file system accepts every write: after any interleaving of appends, forced
  -- compactions, their completions, resets and lifecycle checks on a session with a file that
  -- gives back its messages, loading the file gives back the messages of the session, each as it
  -- is decoded from its own JSON form, up to the first whose line is longer than the reader's buffer
  -- of 4 MiB; all of them, if no line is.
  pub run-Synced :
      (st : Shared) (es : List Event)
      → Synced reload st.session
      → Synced reload (run request_bytes cutover l lt true st es).session
  unfolding run
  run-Synced st [] sync = sync
  run-Synced st (e ∷ es) sync =
      run-Synced (step request_bytes cutover l lt true st e) es (step-Synced st e sync)
