-- ===== src/Lib.antt =====
-- agentic-loop: a tool-calling loop around a language model. A run sends a conversation to a provider,
-- runs the tools the model asks for behind an approval gate, feeds the results back, and keeps the
-- conversation within the model's context window. This library models the components that a run is
-- built from, as pure functions on explicit states.
--
-- Modules and the code they are about:
--   Message         core/message.go: messages, their ordered parts and their flattened views
--   Node            core/node.go, convert.go: the nodes of a conversation, to and from flat messages
--   Session         internal/loop/session.go with core/tree.go: the conversation of a run
--   MessageQueue    internal/loop/message_queue.go, queued_message.go: messages sent during a run
--   Tools           internal/loop/tools.go, message.go, run_tools.go: tool set, gate, fingerprint
--   Dedup           internal/loop/dedup.go: repeats of an output become a marker
--   Errors          core/errors.go, errorkind.go: which errors are retried, and their kinds
--   Retry           extras/retry.go: attempts with backoff
--   RateLimiter     extras/ratelimit.go: spacing of request starts
--   ContextWindow   internal/loop/contextwindow.go: the window of a run and the cap
--   Compaction      internal/loop/compact.go, autocompact.go: summaries in place of history
--   SubagentRuns    internal/loop/subagent_runs.go: the registry of launched sub-agents
--   Elapsed         internal/loop/elapsed.go: the notice of the time that has passed
--   ParamStrip      core/paramstrip.go: a refused parameter is removed and the call sent once more
--   StreamString    core/streamstring.go: text fields that fill while a model streams
--   ArgScan         internal/loop/argscan.go: members of a call's arguments, as they complete
--   TextDiff        internal/loop/textdiff.go: unified diffs of changed resources
--   RunLoop         internal/loop/run_loop.go, run_call.go, run_config.go, inbox.go, resources.go and
--                   emitToolBatch of events.go: the run that joins these parts
--   Todo            todo/todo.go: the task list of a run and its four tools
--   Prelude         shared names, tests, lists, texts, maps and integers
-- A run (runOn, RunLoop.Run.run_on) keeps its conversation in a Session, whose nodes are those of Node.
-- At a turn boundary (RunLoop.Turn.boundary) it compacts, delivers sub-agent reports, drains the queue
-- and the inbox, polls the watched resources and caps the request by ContextWindow. It then calls the
-- provider (RunLoop.Calling.run_model_call), with the notice of Elapsed. Calls go through Tools and the
-- results through Dedup (RunLoop.Batch, RunLoop.ToolTurn); a turn without calls ends in RunLoop.Ending.
-- Compaction reads the overflow flag of Errors; a compaction resets Dedup. MessageQueue and SubagentRuns
-- stand behind the interfaces QueuePort and SubagentPort, and Retry around the provider. Todo is a set
-- of tools of its own, as Tools would run them.
--
-- A Go string is the list of its bytes. A Go int that is an index or a length is a natural number; a
-- setting or a token count is an integer, without the wrap-around at 64 bits, except for the delay of
-- a retry and for the ids of the task list, which are written with it. A mutex makes each call of a shared object one step, so an
-- interleaving is a list of calls. What is outside (providers, approvers, tools, clocks, sleeps) is a
-- function on a world state.
--
-- Fuel: the walk of the diff has fuel for every step that it can take. The drain of the queue has one
-- unit for each message and one more. compactToFit takes one unit for each round of its loop and each
-- call of itself; the module Returns says when the number of messages and one more is enough, and
-- the module Stall when no fuel is. A run takes one unit for each round of its loop, and a turn is
-- asked again once at most, so twice the cap on turns and two more are enough; without a cap a run has
-- no bound. The drain of the inbox has one unit for each message of its backlog and one more.
--
-- Parameters: the FIFO of the container library (ConcurrentQueue, with its documented laws), the hex
-- digest, the decoding and the quoting of a string literal, the float threshold of auto-compaction,
-- the layout of the wall clock, lower case, and the regular expressions that find a refused name. For
-- a run: the provider with the stream of its parts, the host's callbacks, the texts of errors, and
-- compactToFit as a function (Host.fit), which is the result of the modelled loop wherever that comes
-- to an end; a run in which it does not is no run of the model.
--
-- Not modelled: the interleavings of the goroutines of read-only calls, the checks that report lost
-- state, the panic handler, sibling branches of a conversation, node types of a host, raw blocks, the
-- wire formats, the tools over files, git, search and the network, and the command lines.
pub mod Prelude
pub mod Message
pub mod Node
pub mod Session
pub mod Errors
pub mod MessageQueue
pub mod Tools
pub mod Dedup
pub mod Retry
pub mod RateLimiter
pub mod ContextWindow
pub mod Compaction
pub mod SubagentRuns
pub mod Elapsed
pub mod ParamStrip
pub mod StreamString
pub mod ArgScan
pub mod TextDiff
pub mod Todo
pub mod RunLoop
