-- ===== src/Lib.antt =====
-- Verification of inber's server: the parts that decide what a session may send, run and spend.
--
-- The server (server/) holds sessions; a session drives an engine (engine/), which keeps the
-- conversation, asks the guard (guard/) before each turn and each tool call, and runs the agent
-- loop (agent/) against the model's API. Sessions are logged (session/) and rebuilt from their logs.
--
-- - Message, Repair: conversation/repair.go. `Message` models the types of the Anthropic SDK that
--   the code reads and writes. `repair_dangling_tool_use`, `repair_missing_tool_results`,
--   `repair_alternation`, `repair_empty_content` and `repair_thinking_signatures` are the functions
--   of those names; a pass that writes into its slice returns the new list. Repair/Answered,
--   Extension, Counting, Alternation and Content hold what is proved of them.
-- - ToolId: internal/toolid/toolid.go. Resume: `LoadMessages` of session/resume.go, with the scanner
--   and the JSON decoder as arguments; it uses Repair and ToolId.
-- - Turns: conversation/message_utils.go, where a conversation is split and mended. Transcript: the
--   text of a conversation that the summarizing model reads. Summary, Summarize: conversation/
--   summary_generation.go and summarize.go, with the model's API and the memory store as `Services`;
--   `summarize_conversation` splits with Turns, writes with Transcript and mends with Turns.
-- - Staged, Staging: conversation/staged.go, the boundary between the frozen and the staging zone, and
--   `ManageStaging` and `CrossZoneDedup`, which act behind it.
-- - Manage: `ManageConversation` of conversation/manage.go. It deduplicates file references (Dedup:
--   dedup_files.go), stashes large texts (Stash: stash.go), saves facts (AutoSave: manage_auto_save.go) and
--   prunes by age (Prune: manage_tool_pruning.go, with ManagementConfig and Texts: manage_config.go,
--   manage_text_utils.go and internal/textutil); Estimate weighs messages (image_tokens.go). JSON, regular
--   expressions, hashes, ids, the decoder of images, the errors of the store and what a save does to its rows are arguments. Prune/Outline
--   has the view of a conversation that all these passes share.
-- - HeadTail: session/truncate.go, large outputs cut to a head and a tail.
-- - ReadCache: agent/read_cache.go, with JSON and the identity of paths as arguments. ChainField,
--   ToolOutcome, Chain: agent/chain.go, `extractChain`, the outcome of a block and `executeWithChain`,
--   whose branches are functions by clauses. Execution: `executeTools` of agent/agent_run.go, which
--   runs Chain on each block and keeps the books of ReadCache. The world that tools act on is a type
--   `W`; what a rider does is one argument of Chain. Sideband: `processSideband` of agent/sideband.go,
--   the riders themselves, with the gate and the callbacks as arguments.
-- - TurnParts, RequestLoop: `Run` of agent/agent.go, with `buildRequest` and `executeAPICall` of agent/
--   agent_run.go. One round of the loop runs the calls of a response with Execution; the API, the context and
--   the hooks are `Surroundings` with a state of their own. The loop has one round of fuel more than the cap on
--   calls, and the round behind the cap ends it. ApiError: what an error says, and of whom.
-- - Queue: server/queue.go. A call of `Enqueue` is a task in one of five phases; `take_step` is what it
--   does between two points where it may block, and `Step` interleaves the tasks.
-- - Delivery: server/session.go, the messages that reach a session during a turn and between turns, with the check of the
--   guard in front of a turn (engine/engine.go). Each hold of
--   its mutex is one action; a turn begins only when none is in flight, as Queue runs one call at a time.
-- - Spawn: `Spawn` of server/spawn.go with the minting of keys of server/session_forking.go. A call is a task, its
--   phases are the points where another call can come in, and the answers of the configuration, the clock, the
--   store and the disk are part of the moves. A parent is looked up by its key, as nothing here takes a session
--   out of the map. Alone, Growth: calls one after the other, and `ForkAndSpawn`, with 206 steps of fuel for a
--   call, of which none can take more. Stream: what `newSubagentEventForwarder` passes on.
-- - Failover: `selectModel` of engine/failover.go, with what the model store knows as an argument.
-- - Guard: guard/guard.go, mode.go and state.go, and `restoreGuardState` of
--   server/session_creation.go. Each method holds the mutex throughout, so a method is one step.
--
-- Numbers: Go's `int` is a signed integer that does not wrap, but for the product of a duration in
-- Failover, which is taken modulo 2^64: the counters count turns, tokens and
-- seconds of one session. float64 is a type parameter with the operations that the guard uses. Time
-- is an argument, in nanoseconds; it does not run backwards within a run. Loops recur on their
-- lists; the digits of a number have the number itself as fuel, and the loop of `find_turn_boundary`
-- the index it starts from, as each round moves the split back.
-- Texts are characters of valid UTF-8, and cuts fall between characters; the source's loops over bytes do the
-- same on such texts, and on others nothing is said.
-- Slices are values: no function here depends on two slices sharing an array.
--
-- Not modelled: HTTP handlers, the database, subprocesses, terminal output, and the SDKs that the
-- code calls.
mod Prelude
pub mod Message
pub mod Repair
pub mod Guard
pub mod ToolId
pub mod Resume
pub mod Turns
pub mod Transcript
pub mod Texts
pub mod ManagementConfig
pub mod Prune
pub mod Dedup
pub mod Staging
pub mod Estimate
pub mod Shelf
pub mod Stash
pub mod AutoSave
pub mod Manage
pub mod HeadTail
pub mod Staged
pub mod Summary
pub mod Summarize
pub mod ReadCache
pub mod ChainField
pub mod ToolOutcome
pub mod Chain
pub mod Sideband
pub mod Execution
pub mod ApiError
pub mod TurnParts
pub mod RequestLoop
pub mod Queue
pub mod Delivery
pub mod Spawn
pub mod Failover
mod Samples
