-- ===== src/Tests/Repeats.antt =====
-- Examples for internal/handler, internal/presence and internal/runledger.
use koios.Prelude.{
  ℕ, ◌-◌, ◌<◌, ◌≡◌, ◌⊎◌, refl, true, false, none, some, List, [], ◌∷◌, ◌++◌, All, ltb, text_eq,
  text,
}
use koios.Handler.Executions.{Event, request, answer, resume}
use koios.Handler.ToolPolicy.{ToolPolicy, BuiltInToolRegistry}
use koios.RunLedger.Store.{
  Record, Line, entry, clean, Store, whole, refused, kind_agent, queued, completed, empty_index,
  max_line, new_store, replay, tail_lines,
}
use koios.RunLedger.SameIndex.{Fits, IsStable, SameIndex}
use koios.RunLedger.Replay.{Operation, add_record, update_record, operate_all, reopen_lem}
use koios.Presence.Manager.{State, Manager, get, clear_expired_typing}
use koios.Presence.Typing.{clear_expired_typing_lem}

abbrev repeated : List Event
repeated =
    request (text "bob chat k") (text "h") 1
    ∷ request (text "bob chat k") (text "h") 2
    ∷ request (text "bob chat k") (text "other") 3
    ∷ answer 0 record { id = text "1"; body = text "yes" }
    ∷ resume 0
    ∷ request (text "bob chat k") (text "h") 90
    ∷ []

-- Aliases of two steps.
abbrev registry : BuiltInToolRegistry
registry = record {
  defs = text "system.run" ∷ text "time.now" ∷ [];
  aliases = (text "shell", text "exec") ∷ (text "exec", text "system.run") ∷ [];
  hidden_names = [];
  groups = [];
  profiles = [];
  plugin_names = [];
}

abbrev no_exec : ToolPolicy
no_exec = record { profile = text "full"; allow = text "system.run" ∷ []; deny = text "exec" ∷ [] }

abbrev same : ℕ → ℕ
same c = c

abbrev typing_bob : State
typing_bob = record {
  peer_id = text "bob";
  status = text "online";
  typing = true;
  updated_at = 1;
  source = [];
}

abbrev manager : Manager
manager = record {
  states = (text "bob", typing_bob) ∷ [];
  subscribers = 1 ∷ [];
  next_sub_id = 1;
  typing_ttl = 8;
}

clear_expired_typing_lem_example :
    let after = (clear_expired_typing 10 manager).0 in
    (get (text "bob") after ≡ some typing_bob
      → true ≡ true
      → (get (text "bob") manager ≡ some typing_bob) × (10 - 1 < 8))
    × (get (text "bob") manager ≡ some typing_bob
        → (get (text "bob") after ≡ some typing_bob)
          ⊎ ((true ≡ true)
              × (ltb (10 - 1) 8 ≡ false)
              × (get (text "bob") after
                  ≡ some (record typing_bob { typing = false; updated_at = 10 }))))
clear_expired_typing_lem_example = clear_expired_typing_lem 10 manager (text "bob") typing_bob

abbrev agent_run : Record
agent_run = record {
  id = text "r1";
  kind = kind_agent;
  peer_id = text "bob";
  session_key = text "bob";
  model = [];
  status = queued;
  error = [];
  steps = 0;
  tool_calls = 0;
  parent_id = [];
  prompt_tokens = 0;
  completion_tokens = 0;
  request = [];
  result = [];
  queued_at = 5;
  started_at = none;
  finished_at = none;
  timing = none;
}

abbrev line_length : Record → ℕ
line_length r = 300

abbrev first_ledger : Store
first_ledger = record { lines = []; tail = clean; index = empty_index }

first_ledger_opens : new_store (λ r. r) line_length [] clean ≡ some first_ledger
unfolding new_store replay tail_lines
first_ledger_opens = refl

abbrev unchanged : Record → Record
unchanged r = r

unchanged-IsStable : IsStable unchanged
unchanged-IsStable = record { same_id = λ r. refl; same_again = λ r. refl }

-- The second write takes nothing.
abbrev ledger_calls : List Operation
ledger_calls =
    add_record whole agent_run
    ∷ update_record refused (text "r1") (λ r. r)
    ∷ update_record whole (text "r1") (λ r. record r { status = completed })
    ∷ []

reopen_lem_example :
    let after = operate_all line_length ledger_calls first_ledger in
    (All (Fits line_length) after.lines
      → after.tail ≡ clean
      → (again : Store) × (new_store unchanged line_length after.lines after.tail ≡ some again)
        × SameIndex unchanged unchanged-IsStable line_length after.index again.index)
    × ((before rest : List Line) (r : Record)
        → after.lines ≡ before ++ (entry r ∷ rest)
        → max_line < line_length r
        → new_store unchanged line_length after.lines after.tail ≡ none)
reopen_lem_example =
    reopen_lem unchanged unchanged-IsStable line_length [] clean first_ledger ledger_calls
      first_ledger_opens
