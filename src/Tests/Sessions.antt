-- ===== src/Tests/Sessions.antt =====
-- Examples for internal/session/store.go.
use koios.Session.Append.{Limits, append_to_session}
use koios.Session.Cap.{append_to_session_bound}
use koios.Session.Subscribers.{subscribers_of}
use koios.Session.Store.{AppendEvent, notify_append, subscribe, unsubscribe}
use koios.Prelude.{
  ℕ, ◌+◌, ◌-◌, ◌≤◌, ◌<◌, min, max, ◌≡◌, refl, ◌≢◌, ◌⊎◌, true, false, not, ◌&&◌, none, some, List,
  [], ◌∷◌, ◌++◌, arith, leb, nat_eqb, nat_eq, length, take, drop, All, lookup, NodupKeys, text,
  text_eq, is_empty, is_space, trim_space,
}
use koios.Redact
use koios.Session.Data.{Session, checkpoint, read_lines, read_line, readable, all_fit, fits}
use koios.Session.Prune.{
  is_system, system_end, prune_to_max, prune_session_messages, prune_to_max_bound,
  prune_session_messages_lem,
}
use koios.Session.Compaction.{
  prepare_compaction, build_compaction_status, apply_compaction_attempt, execute_compaction,
  effective_reserve, estimate_request_tokens,
}
use koios.Session.Compaction.NoLoss.{
  apply_compaction_attempt_grown, execute_compaction_cases, Applied,
}
use koios.Session.Interleaving.{Event, append, complete, lifecycle, run}
use koios.Session.Recovery.{Synced, run-Synced}
use koios.Session.Store as Stores
use koios.Session.Store.{Store, get_or_load, reset_peer}
use koios.Session.Isolation.{Untouched, peers_isolated}
use koios.Session.Policies.{Policies, SessionPolicy, zero_policy}
use koios.Session.Maintain.{maintain}
use koios.Session.Maintained.{maintain_lem}
use koios.Session.Lifecycle.{apply_lifecycle}
use koios.Tests.SessionData.{
  hello, answer, as_read, size, midnight, limits, lifetimes, answers, talk, alice_file, store, env,
  attempt,
}

found_bob : lookup (text "bob") store.peers ≡ some talk
unfolding lookup
found_bob = refl

no_alice : lookup (text "alice") store.peers ≡ none
unfolding lookup
no_alice = refl

found_alice : lookup (text "alice") store.files ≡ some alice_file
unfolding lookup
found_alice = refl

once : NodupKeys store.peers
unfolding lookup
once = (refl, tt)

not_blank_bob : is_empty (trim_space (text "bob")) ≡ false
unfolding trim_space is_space
not_blank_bob = refl

not_blank_work : is_empty (trim_space (text "work")) ≡ false
unfolding trim_space is_space
not_blank_work = refl

abbrev events : List Event
events =
    append 11 (hello ∷ answer ∷ [])
    ∷ append 12 (hello ∷ [])
    ∷ complete 0 answers
    ∷ lifecycle 90
    ∷ []

talk-Synced : Synced as_read talk
unfolding read_lines read_line readable all_fit fits
talk-Synced = record { on_disk = refl; same = (refl, refl) }

run-Synced_example :
    Synced as_read
      (run size midnight limits lifetimes true
        (record { session = talk; pending = [] })
        events).session
run-Synced_example =
    run-Synced as_read size midnight limits lifetimes (record { session = talk; pending = [] })
      events talk-Synced

prepared : prepare_compaction size 1 true false talk ≡ some attempt
unfolding prepare_compaction build_compaction_status effective_reserve estimate_request_tokens
prepared = refl

abbrev grown : Session
grown = record talk { messages = talk.messages ++ answer ∷ [] }

apply_compaction_attempt_grown_example :
    ((apply_compaction_attempt true attempt (text "s") grown).1 ≡ true)
    × ((apply_compaction_attempt true attempt (text "s") grown).0.messages
        ≡ checkpoint (text "s") ∷ (drop (length attempt.to_compact) talk.messages ++ answer ∷ []))
    × (attempt.to_compact ++ drop (length attempt.to_compact) talk.messages ≡ talk.messages)
    × (0 < length attempt.to_compact)
apply_compaction_attempt_grown_example =
    apply_compaction_attempt_grown size 1 false true (text "s") talk grown (answer ∷ []) attempt
      prepared refl

execute_compaction_cases_example :
    let (s', r) = execute_compaction true answers attempt grown in
    ((r.compacted ≡ true) × Applied true answers attempt grown s')
    ⊎ ((r.compacted ≡ false) × (s' ≡ grown))
execute_compaction_cases_example =
    execute_compaction_cases true answers attempt grown refl refl refl

bob_is_not_alice : text "bob" ≢ text "alice"
bob_is_not_alice e = ground arith

peers_isolated_example :
    Untouched (text "alice") store (Stores.get env (text "bob") store).0
    × Untouched
        (text "alice")
        store
        (Stores.append_ctx_with_source env (text "bob") (text "ws") (hello ∷ []) store).0
    × Untouched (text "alice") store (reset_peer true 100 (text "bob") store)
    × Untouched (text "alice") store (Stores.delete_session true (text "bob") store).0
    × Untouched (text "alice") store (Stores.compact_now env (text "bob") store).0
peers_isolated_example =
    peers_isolated env (text "bob") (text "alice") (text "ws") (hello ∷ []) store bob_is_not_alice

prune_to_max_bound_example :
    (length (prune_to_max 2 talk).0.messages
      ≡ min (length talk.messages) (max 2 (system_end talk.messages)))
    × ((k : ℕ) × (system_end talk.messages ≤ k)
        × ((prune_to_max 2 talk).0.messages
            ≡ take (system_end talk.messages) talk.messages ++ drop k talk.messages))
prune_to_max_bound_example = prune_to_max_bound 2 talk (omega arith)

talk_is_long : system_end talk.messages + 1 < length talk.messages
unfolding system_end is_system
talk_is_long = omega arith

prune_session_messages_lem_example :
    let r = prune_session_messages 1 talk in
    (r.1 ≡ true)
    × (r.0.messages
        ≡ take (system_end talk.messages) talk.messages
          ++ drop (length talk.messages - 1) talk.messages)
    × (length r.0.messages ≡ system_end talk.messages + 1)
prune_session_messages_lem_example =
    (prune_session_messages_lem 1 talk).1 (omega arith) talk_is_long

abbrev chosen : SessionPolicy
chosen = record zero_policy { provider_profile = text "work" }

abbrev kept : Policies
kept = record { policies = (text "bob", chosen) ∷ (text "alice", chosen) ∷ []; saved = none }

-- Without a cap on the number of sessions.
abbrev old_store : Store
old_store = record store { max_entries = 0 }

abbrev cycled : Session
cycled = (apply_lifecycle env.cutover true old_store.lifetimes env.now talk).0

maintain_lem_example :
    let is_old = not (nat_eqb cycled.last_activity 0) && leb 60 (100 - cycled.last_activity) in
    (is_old ≡ true → lookup (text "bob") (maintain env old_store).0.peers ≡ none)
    × (is_old ≡ false
        → old_store.max_entries ≡ 0
        → lookup (text "bob") (maintain env old_store).0.peers ≡ some cycled)
maintain_lem_example =
    maintain_lem env (text "bob") talk old_store refl (omega arith) once found_bob

abbrev plain_limits : Limits
plain_limits = record limits { has_compactor = false }

append_to_session_bound_example :
    let all = talk.messages ++ hello ∷ [] in
    let after = (append_to_session size true plain_limits answers 20 (hello ∷ []) talk).messages in
    (length after ≡ min (length all) (max 3 (system_end all)))
    × ((k : ℕ) × (system_end all ≤ k) × (after ≡ take (system_end all) all ++ drop k all))
append_to_session_bound_example =
    append_to_session_bound size true plain_limits answers 20 (hello ∷ []) talk refl (omega arith)

abbrev told_store : Store
told_store = record store { subscribers = (text "bob", 1 ∷ []) ∷ []; next_sub_id = 1 }

abbrev said : AppendEvent
said = record { peer_id = text "bob"; source = text "ws"; messages = hello ∷ [] }

one_subscriber : All (λ i. i ≤ 1) (subscribers_of (text "bob") told_store)
unfolding lookup
one_subscriber = (omega arith, tt)
