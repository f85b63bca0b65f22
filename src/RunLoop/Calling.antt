-- ===== src/RunLoop/Calling.antt =====
-- internal/loop/run_call.go with `streamCall` of session.go, and the helpers of run_loop.go on messages.
use agentic_loop.Prelude.{
  List, ℕ, Text, codes, ◌∷◌, trim_space, [], Bool, Option, none, ◌++◌, if◌then◌else◌, text_eq, true,
  false, some, not, is_nil, ◌&&◌, ◌+◌,
}
use agentic_loop.Message.{Message, Part, tool_call_part, ToolCall, ToolDecl, ThinkingBlock}
use agentic_loop.Errors.{Error, plain, callback, wrapped, wrap_callback_err}
use agentic_loop.Node.{Node, drafts, message_from_nodes}
use agentic_loop.Session.{Session, add_all}
use agentic_loop.Tools.{ToolResult}
use agentic_loop.Elapsed.{mark_call, elapsed_messages, ElapsedTracker}
use agentic_loop.RunLoop.{Config, Loop, Completion, Streamed, Request, Usage}

abbrev pub no_output_placeholder : Text
no_output_placeholder = codes "(no output was produced this turn)"

abbrev pub thinking_text : List ThinkingBlock → Text
thinking_text [] = []
thinking_text (b ∷ bs) = b.text ++ thinking_text bs

-- The text to surface where the loop ends without a written answer.
unfoldable pub fallback_output : Message → Text
fallback_output m =
    let s = trim_space m.content in
    let t = trim_space (thinking_text m.thinking_blocks) in
    if not (is_nil s) then s else if not (is_nil t) then t else no_output_placeholder

abbrev pub no_call_parts : List Part → List Part
no_call_parts [] = []
no_call_parts (tool_call_part i n a ∷ ps) = no_call_parts ps
no_call_parts (p ∷ ps) = p ∷ no_call_parts ps

-- The turn's message with its calls cleared, on the host's row.
unfoldable pub without_calls : Message → Text → Message
without_calls m id = record m {
  tool_calls = [];
  parts = no_call_parts m.parts;
  id = if is_nil id then m.id else id;
}

abbrev pub same_call_fields : ToolCall → ToolCall → Bool
same_call_fields a b = text_eq a.id b.id && text_eq a.name b.name && text_eq a.arguments b.arguments

unfoldable pub same_calls : List ToolCall → List ToolCall → Bool
same_calls [] [] = true
same_calls (a ∷ as_) (b ∷ bs) = same_call_fields a b && same_calls as_ bs
same_calls _ _ = false

-- `modelCall` with the call's error.
pub record ModelCall : Type 0 where
  pub comp : Option Completion
  pub nodes : List Node
  -- Its call record, where a call was made.
  pub call : Option ℕ
  pub refused : List (Text × ToolResult)
  pub error : Option Error

unfoldable pub turn_message : ModelCall → Message
turn_message mc = message_from_nodes mc.nodes

abbrev pub arg_refused_text : Text
arg_refused_text = codes "agentic: a tool refused the call from a streamed argument"

-- errors.Is for errArgRefused, which is told by its text.
abbrev pub is_arg_refused : Error → Bool
is_arg_refused (plain t) = text_eq t arg_refused_text
is_arg_refused (callback e) = is_arg_refused e
is_arg_refused (wrapped t e) = is_arg_refused e
is_arg_refused _ = false

abbrev pub has_comp : Option Completion → Bool
has_comp none = false
has_comp (some c) = true

-- A refusal ended the call on purpose, where something streamed.
abbrev pub stream_error : Bool → Option Error → Option Error
stream_error has none = none
stream_error has (some e) = if is_arg_refused e && has then none else some e

abbrev pub or_sink : Option Error → Option Error → Option Error
or_sink (some e) sink = some e
or_sink none none = none
or_sink none (some s) = if is_arg_refused s then none else some s

unfoldable pub call_error : Streamed → Option Error
call_error st = or_sink (stream_error (has_comp st.comp) st.error) st.sink_error

abbrev pub usage_of : Option Completion → List Usage
usage_of none = []
usage_of (some c) = c.usage ∷ []

-- The sink's own error, which ends a call that went well.
abbrev pub or_else : Option Error → Option Error → Option Error
or_else (some e) other = some e
or_else none other = other

module _ {W : Type 0} (cfg : Config W) where
  abbrev pub no_call : Option Error → Loop W → ModelCall × Loop W
  no_call e r = (record { comp = none; nodes = []; call = none; refused = []; error = e }, r)

  abbrev pub made_call : ℕ → Text → Loop W → Streamed × W → ModelCall × Loop W
  made_call turn first_id r (st, w) =
      let s = r.session in
      let added : List Node × Session =
        add_all (drafts first_id [] st.bodies) (some s.next_call)
          (record s { next_call = s.next_call + 1 }) in
      let told : Option Error × W = cfg.host.turn_end turn st.comp (call_error st) w in
      (
        record {
          comp = st.comp;
          nodes = added.0;
          call = some s.next_call;
          refused = st.refused;
          error = or_else (wrap_callback_err told.0) (call_error st);
        },
        record r {
          session = added.1;
          turns = r.turns + 1;
          usages = r.usages ++ usage_of st.comp;
          world = told.1;
        },
      )

  abbrev pub begun : ℕ → Text → Loop W → (Request × Option Error) × W → ModelCall × Loop W
  begun turn first_id r ((req, none), w) =
      made_call turn first_id r (cfg.host.stream turn first_id req w)
  begun turn first_id r ((req, some e), w) =
      no_call (wrap_callback_err (some e)) (record r { world = w })

  -- The messages that it sends, the tools that it offers, and the id of its first node.
  unfoldable pub run_model_call :
      ℕ → List Message → List ToolDecl → Text → Loop W → ModelCall × Loop W
  run_model_call turn msgs tools first_id r =
      let marked : Text × Option ElapsedTracker =
        mark_call cfg.clock (cfg.host.now r.world) r.tracker in
      begun turn first_id (record r { tracker = marked.1 })
        (cfg.host.turn_begin turn
          (record { messages = elapsed_messages msgs marked.0; tools = tools }) r.world)
