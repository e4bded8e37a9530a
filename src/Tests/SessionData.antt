-- ===== src/Tests/SessionData.antt =====
-- Data of internal/session/store.go for the examples.
use koios.Prelude.{
  ℕ, ◌-◌, ◌*◌, ◌%◌, true, false, none, List, [], ◌∷◌, nat_eq, length, text, text_eq,
}
use koios.Types.{Message, plain_message}
use koios.Session.Data.{Reader, Session, msg, other}
use koios.Session.Compaction.{Answers, no_flusher, summarised, CompactionAttempt}
use koios.Session.Append.{Limits}
use koios.Session.Lifecycle.{Cutover, Lifetimes}
use koios.Session.Store.{File, Store, Env}

abbrev pub hello : Message
hello = plain_message (text "user") (text "hello")

abbrev pub answer : Message
answer = plain_message (text "assistant") (text "hi")

abbrev pub rules : Message
rules = plain_message (text "system") (text "be brief")

abbrev pub as_read : Reader
as_read = record { decode = λ m. record m { raw_content = m.content }; line_size = λ l. 1000 }

abbrev pub size : List Message → ℕ
size ms = 100 * length ms

abbrev pub midnight : Cutover
midnight now minutes = now - now % 1000

abbrev pub limits : Limits
limits = record {
  max_msgs = 3;
  compact_threshold = 2;
  compact_token_threshold = 0;
  compact_reserve = 1;
  has_compactor = true;
  has_flusher = false;
}

abbrev pub lifetimes : Lifetimes
lifetimes = record {
  idle_reset_after = 0;
  idle_prune_after = 50;
  idle_prune_keep = 1;
  daily_reset_mins = none;
}

abbrev pub answers : Answers
answers = record {
  hook_error = none;
  flush = no_flusher;
  compactor = summarised (text "greetings");
}

abbrev pub talk : Session
talk = record {
  messages = rules ∷ hello ∷ answer ∷ hello ∷ [];
  persisted = true;
  journal = msg rules ∷ msg hello ∷ msg answer ∷ msg hello ∷ [];
  last_activity = 10;
}

abbrev pub blank : Session
blank = record { messages = []; persisted = true; journal = []; last_activity = 0 }

abbrev pub alice_file : File
alice_file = record { lines = msg hello ∷ other ∷ msg answer ∷ []; mod_time = 7 }

abbrev pub store : Store
store = record {
  peers = (text "bob", talk) ∷ [];
  limits = limits;
  lifetimes = lifetimes;
  has_dir = true;
  files = (text "alice", alice_file) ∷ [];
  retention = 60;
  max_entries = 5;
  subscribers = [];
  next_sub_id = 0;
}

abbrev pub env : Env
env = record {
  scrub = λ t. t;
  reload = as_read;
  request_bytes = size;
  cutover = midnight;
  accepted = true;
  answers = answers;
  now = 100;
}

-- The attempt that the session's four messages lead to.
abbrev pub attempt : CompactionAttempt
attempt = record {
  base_messages = rules ∷ hello ∷ answer ∷ hello ∷ [];
  to_compact = rules ∷ hello ∷ answer ∷ [];
  split_idx = 3;
  report = record {
    status = record {
      enabled = true;
      memory_flush_enabled = false;
      session_messages = 4;
      estimated_prompt_tokens = 100;
      reserve = 1;
      compacted_messages = 3;
      kept_messages = 1;
      eligible = true;
      reason = [];
    };
    compacted = false;
    memory_flushed = false;
    memory_flush_error = [];
    summary_chars = 0;
    error = [];
  };
}
