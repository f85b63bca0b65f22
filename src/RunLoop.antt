-- ===== src/RunLoop.antt =====
-- internal/loop/run_loop.go, run_call.go, run_config.go, events.go, inbox.go and autocompact.go: the
-- run loop's configuration, its state and what it meets outside. `W` is the state of everything
-- outside the loop: the provider, the host's callbacks, the queue, the inbox and the sub-agents, which
-- other goroutines may change whenever the loop calls out.
pub mod Notices
pub mod Calling
pub mod Compacting
pub mod Delivery
pub mod Batch
pub mod ToolTurn
pub mod Ending
pub mod Turn
pub mod Run
pub mod Sound
mod Examples
use agentic_loop.Prelude.{List, ℕ, Text, Bool, Option, ◌≡◌, some}
use agentic_loop.Prelude.Int.{ℤ, pos}
use agentic_loop.Message.{Message, ToolCall, ToolDecl}
use agentic_loop.Errors.{Error}
use agentic_loop.Node.{Node, Body}
use agentic_loop.Session.{Session}
use agentic_loop.Dedup.{OutputDeduper}
use agentic_loop.Tools.{ToolResult, ToolContentPart, CallConfig}
use agentic_loop.ContextWindow.{WindowConfig, WindowError, LimitsAnswer, Event, ReportError}
use agentic_loop.Compaction as Compaction
use agentic_loop.SubagentRuns.{SubagentReport}
use agentic_loop.Elapsed.{ElapsedTracker}

pub record Usage : Type 0 where
  pub prompt_tokens : ℤ
  pub completion_tokens : ℤ

pub record Completion : Type 0 where
  pub message : Message
  pub usage : Usage
  pub usage_reported : Bool
  -- The names that the response gives the model: the list id a gateway routed to, and the body's.
  pub routed : Text
  pub model : Text

-- What `client.Stream` leaves: the completion, the parts that began in order, the results that tools
-- gave from streamed arguments by call id, its error, and the first error that the sink kept.
pub record Streamed : Type 0 where
  pub comp : Option Completion
  pub bodies : List Body
  pub refused : List (Text × ToolResult)
  pub error : Option Error
  pub sink_error : Option Error

-- The fields of a call's request that the loop sets and OnTurnBegin may change.
pub record Request : Type 0 where
  pub messages : List Message
  pub tools : List ToolDecl

pub data Status : Type 0 where
  complete errored cancelled : Status

-- Callbacks whose error or answer the loop does not use.
pub data Notice : Type 0 where
  -- The row, the message if there is one, and how the turn ended.
  finalized : Text → Option Message → Status → Notice
  stopping : ℕ → Option Completion → Notice
  announced : Message → Notice
  compaction_failed : Error → Notice
  window_found : Event Error → Notice
  -- The name that was asked first, and why each name gave no window.
  window_unknown : Text → List (ReportError Error) → Notice

pub record ResourceChange : Type 0 where
  pub change_id : Text
  pub server : Text
  pub uri : Text
  pub label : Text
  pub kind : Text
  pub summary : Text
  pub note : Text

pub record ResourcePoll : Type 0 where
  pub changes : List ResourceChange
  pub warnings : List Text
  pub baseline : Bool

module _ (W : Type 0) where
  -- `Config.Messages`, a MessageQueue that other goroutines fill.
  pub record QueuePort : Type 0 where
    pub pending : W → Bool
    pub drain : W → List Message × W
    pub post : Message → W → W
    pub close : W → List Message × W

  -- `Config.Subagents`, a SubagentRuns; `collect` waits until one reports or the context ends.
  pub record SubagentPort : Type 0 where
    pub pending : W → ℕ
    pub running : W → ℕ
    pub take_reports : W → List (SubagentReport Usage) × W
    pub cancel_remaining : W → ℕ × W
    pub collect : W → (List (SubagentReport Usage) × Option Error) × W

  -- `Config.Inbox`. At most `backlog` messages are received before the inbox is empty.
  pub record InboxPort : Type 0 where
    pub backlog : W → ℕ
    pub receive : W → Option Message × W

  abbrev pub Fitted : Type 0
  Fitted = Compaction.Result (Compaction.CompactResult Usage) × List Usage × W

  -- The provider and the host. A callback that is not set changes nothing and has no error.
  pub record Host : Type 0 where
    -- The turn, the id for the first node, the request.
    pub stream : ℕ → Text → Request → W → Streamed × W
    pub ask_limits : Text → W → LimitsAnswer Error × W
    -- What the provider makes of the request to summarize some messages.
    pub complete : List Message → W → Compaction.Result (Compaction.Completion Usage) × W
    -- `compactToFit` on the messages of the window, with the usages so far. Where its loop comes to an
    -- end, this is its result; a run in which it does not come to an end is no run of this model.
    pub fit : List Message → List Usage → W → Fitted
    pub fit_lem :
        (msgs : List Message) (us : List Usage) (w : W) (fuel : ℕ) (out : Fitted)
        → Compaction.compact_to_fit complete fuel msgs us w ≡ some out
        → fit msgs us w ≡ out
    pub turn_begin : ℕ → Request → W → (Request × Option Error) × W
    pub turn_end : ℕ → Option Completion → Option Error → W → Option Error × W
    pub tool_batch : List ToolCall → W → (List ToolCall × Option Error) × W
    pub tool_call : ToolCall → W → (ToolCall × Option Error) × W
    pub tool_result : ToolCall → ToolResult → Message → W → Option Error × W
    -- Call id, the assistant's row, content, parts, error.
    pub tool_message : Text → Text → Text → List ToolContentPart → Bool → W → Option Error × W
    pub assistant_message : Text → W → (Text × Option Error) × W
    pub compacted : Text → List Message → W → Text × W
    pub resource_notice : Text → List Text → W → Text × W
    pub tell : Notice → W → W
    pub turn_hook : ℕ → W → W
    -- ctx.Err()
    pub context_error : W → Option Error
    pub now : W → ℕ
    pub error_text : Error → Text
    pub window_error : WindowError → Error

  pub record Config : Type 0 where
    pub host : Host
    pub call : CallConfig W
    -- Zero for a cap that is not positive.
    pub max_turns : ℕ
    -- req.Model; whether req.AutoCompact is positive; its part of the window.
    pub model : Text
    pub armed : Bool
    pub threshold : ℤ → ℤ
    pub messages : Option QueuePort
    pub inbox : Option InboxPort
    pub subagents : Option SubagentPort
    pub watcher : Option (W → (ResourcePoll × Option Error) × W)
    pub diff_tool : Text
    pub window : WindowConfig
    pub dedup : Bool
    -- `Config.ElapsedTime`: none where it is nil, and then none for a request with no time.
    pub elapsed : Option (Option ℕ)
    -- time.Format by the notice's layout; strconv.Quote; the digest of crypto/sha256 in hex.
    pub clock : ℕ → Text
    pub quote : Text → Text
    pub hex_sha256 : Text → Text

-- The loop's variables, with the world that they meet.
pub record Loop (W : Type 0) : Type 0 where
  pub world : W
  pub session : Session
  pub turns : ℕ
  pub usages : List Usage
  pub last_batch : Text
  pub repeats : ℕ
  pub last_comp : Option Completion
  pub last_sent : ℕ
  pub served_asked : Text
  pub overflow_turn : Option ℕ
  pub deduper : Option OutputDeduper
  pub window : WindowConfig
  pub tracker : Option ElapsedTracker

-- How a turn ends: the next turn, the same turn once more, or the run's end with what it returns.
pub data Step (W : Type 0) : Type 0 where
  next_turn same_turn : Loop W → Step W
  ended : Loop W → Option Message → Option Error → Step W

-- A step of a turn that may end the run.
pub data Stage (W : Type 0) : Type 0 where
  going : Loop W → Stage W
  halted : Loop W → Option Message → Option Error → Stage W

module _ {W : Type 0} where
  abbrev pub then_step : Stage W → (Loop W → Step W) → Step W
  then_step (going r) f = f r
  then_step (halted r final e) f = ended r final e

  abbrev pub then_stage : Stage W → (Loop W → Stage W) → Stage W
  then_stage (going r) f = f r
  then_stage (halted r final e) f = halted r final e

  -- One callback whose outcome is not used.
  abbrev pub tell : Config W → Notice → Loop W → Loop W
  tell cfg n r = record r { world = cfg.host.tell n r.world }
