-- ===== src/Lib.antt =====
-- A model of koios, a daemon that gives peers, who write from chat channels or a web socket, an LLM
-- agent with a history of their own, and of what its parts promise.
--
-- The parts and where they are modelled:
--   * internal/session/store.go, the histories of the peers: Session. Data holds one session with its
--     journal file (`loadFromFile`, `writeEntries`, `rewriteFile`, `truncateFile`, `Reset`), Prune the
--     dropping of old messages (`pruneToMaxLocked`, `pruneSessionMessages`), Compaction the replacement
--     of old messages by a summary (`prepareCompaction`, `executeCompaction`, `applyCompactionAttempt`,
--     `buildCompactionStatus`), Append the append to one session, Lifecycle the idle and daily resets,
--     Store the operations on the map of sessions (`Get`, `AppendCtxWithSource`, `Reset`, `CompactNow`,
--     `DeleteSession`, `Subscribe`), Maintain the periodic deletion and eviction, Policies the settings
--     of a session, and Interleaving the critical sections of the goroutines on one session as events.
--     The theorems are in Prune, Cap, Recovery, Isolation, Expiry, Maintained, Subscribers, PolicyEffects and
--     under Compaction.
--   * internal/types/types.go and internal/redact/redact.go, messages and the removal of secrets: Types
--     and Redact. The store redacts what it appends.
--   * internal/types/tool_names.go: ToolNames.
--   * internal/channels: BindingData and Bindings for the senders that ask for access and are approved
--     (bindings.go), with theorems in Approval and Operator; DmPolicy for dm_policy.go, which uses them;
--     TextChunk for text_chunk.go, with theorems in Chunks.
--   * internal/provider/key_selector.go: Provider, with Keys for the selector (`selectIndex`,
--     `leastUsedHealthyIndexLocked`, `reportResult`) and theorems in Choice, Usage and Sticky, which
--     rest on the lemmas of Counting.
--   * internal/subagent/registry.go: Subagent, with Records for the data, Registry for `Spawn`, `Update`,
--     `AppendEvent`, `LinkChild` and `Sweep`, and theorems in Effects.
--   * internal/workflow: Data and Runner for workflow.go and runner.go, with theorems in Termination and
--     Routing.
--   * internal/orchestrator: Orchestrator, with Types for types.go, Start for the checks of `Start`, Cycle
--     for `detectCycle`, Wait for the wait policies, Wave for `runDAGWave`, Child for `runChild` and
--     `runChildHedged`, Aggregate for aggregation.go, and Stages for `executeMultiStage`, `execute` and
--     `finishRun`. Graph, Colors, Neighbours, Detect and Verdict lead to the theorems on cycles, Accepted
--     to that on requests, Released, Ordered and Unstuck to those on waves, Watched and Recorded to that
--     on stages, and Hedged and Attempts hold those on children.
--   * internal/handler: Handler, with Idempotency for idempotency.go and `handleIdempotentRPC` of ws.go,
--     Executions for the log that it is compared with, and theorems in Relation and Refines;
--     ToolNamesData and ToolPolicy for tool_policy.go and tool_registry.go, with theorems in Denied;
--     Execute for the names of calls and their refusal (chat_tools_catalog.go, chat_tools_execute.go), with
--     theorems in Leading and Refused.
--   * internal/presence/manager.go: Presence, with Manager for the code and theorems in Typing.
--   * internal/runledger/store.go: RunLedger, with Store for the file and the index, Listing for `List` and
--     `CompleteTiming`, and theorems in SameIndex and Replay.
--   * internal/scheduler/job.go and scheduler.go: Scheduler, with Jobs for the jobs, their next run and
--     what `executeJob` leaves of them, Dispatch for a tick, which asks Presence whether a peer is active,
--     RunLog for the log of runs, and theorems in Retries, Launched, Pending and Newest.
--   * internal/ops/hooks.go, which the scheduler and the session store call: Hooks, with Manager for the
--     code, Sorted for the stable sorting, and theorems in Order.
--   * Prelude holds the shared names and lemmas; the modules of Tests apply theorems to concrete data.
--
-- How the state is written. Texts are lists of runes, taken to be valid UTF-8 (tool names: bytes). Go
-- integers that the code only tests for being positive are natural numbers, 0 for those that are not.
-- Times are natural numbers, 0 for the zero time. A map is an association list, in the order in which
-- a loop happens to visit it. A mutex makes the
-- body it guards one function on the state. Errors are constructors in place of their texts where no
-- code reads the text.
--
-- What other code does is an argument: the regular expressions of `redact.String` (`scrub`), the
-- message that decoding reads back and the length of its line (`Reader`), the size of a request (`request_bytes`), the time of day
-- (`cutover`), whether the file system takes a write (`accepted`), the compactor, flusher and hooks
-- (`Answers`), the agents that a child or a reducer runs, the votes of children, JSON and SHA-256 for the
-- keys of repeated calls, the order in which goroutines get to run (lists of events), parsing of times and cron expressions (`Clock`), `unicode.ToLower` and `unicode.ToUpper` (`lower`, `upper`), the random codes, the agent
-- runtime and the HTTP client.
--
-- Fuel. The loop that cuts a text into chunks has as much fuel as the text has characters: every round
-- takes at least one. The loop of a workflow has the bound of the code itself. The search for the least
-- used key counts down the keys. The depth of the search for dependency cycles is bounded by the
-- number of tasks, since each call takes a white node. The loop over the aliases of a tool has one
-- round more than there are aliases. Other loops are over lists.
--
-- Not modelled: the handlers and the command line, which decode requests and call these parts; the
-- agent, the providers' transports and the browser, which are input and output; the databases of
-- memories, tasks, plans and the like; logging, and the text of most errors.
pub mod Prelude
pub mod Types
pub mod Redact
pub mod Session
pub mod Channels
pub mod ToolNames
pub mod Provider
pub mod Subagent
pub mod Orchestrator
pub mod Handler
pub mod Hooks
pub mod Presence
pub mod RunLedger
pub mod Scheduler
pub mod Workflow
pub mod Tests
