-- ===== src/RunLoop/Examples.antt =====
-- A run of the loop against a small host: the world counts the model calls, the first call asks for a
-- tool, and the second answers.
use Compaction.{should_compact}
use agentic_loop.Prelude.Dict.{lookup}
use agentic_loop.Dedup.{collapse, new_output_deduper}
use agentic_loop.RunLoop.Ending.{finish_turn}
use agentic_loop.RunLoop.Batch.{collapsed, emit_tool_batch, dispatch, start, record_results}
use agentic_loop.RunLoop.ToolTurn.{run_batch}
use agentic_loop.RunLoop.Calling.{turn_message, same_calls, run_model_call, call_error}
use agentic_loop.RunLoop.Compacting.{cap, forget_sent, compact_here, served_window}
use agentic_loop.RunLoop.Delivery.{answer, watch, drain_inbox_now, drain, deliver_ready}
use agentic_loop.RunLoop.Turn.{one_turn}
use agentic_loop.Prelude.{
  text_eq, decimal, trim_space, List, ℕ, codes, some, ◌+◌, [], true, ◌∷◌, none, false, suc, zero,
  ◌≡◌, Option, map, refl, arith, ◌++◌,
}
use agentic_loop.Prelude.Int.{pos}
use agentic_loop.Message.{effective_parts, user, empty_message, Message}
use agentic_loop.Errors.{is_context_overflow, wrap_callback_err, plain}
use agentic_loop.Node.{shape_of, message_from_nodes, Node, Body, assistant_body, tool_call_body}
use agentic_loop.Session.{
  omit_calls, tool_calls, Session, add_all, new_session, append_flat, messages,
}
use agentic_loop.Session.Answered.{PendingBut, unanswered_at}
use agentic_loop.Session.Grows.{history}
use agentic_loop.Session.Appended.{note_message}
use agentic_loop.Tools.{batch_fingerprint, resolve_call, Tool, Result}
use agentic_loop.ContextWindow.{check_window_config, resolve_context_window, cap_to_window, no_list}
use agentic_loop.ContextWindow.Served.{resolve_served_window}
use agentic_loop.Compaction as Compaction
use agentic_loop.Compaction.Returns.{refused_once}
use agentic_loop.RunLoop.{Config, Host, Streamed, Usage}
use agentic_loop.RunLoop.Run as Run
use agentic_loop.RunLoop.Run.{run_on, run_loop}
use agentic_loop.RunLoop.Sound.Whole.{run_on-answers, run_on-ends}

abbrev World : Type 0
World = ℕ

abbrev read_tool : Tool World
read_tool = record {
  decl = record {
    name = codes "read";
    description = [];
    input_schema = [];
    readonly = true;
    destructive = none;
    idempotent = true;
    open_world = none;
    unvouched = false;
  };
  execute =
      λ id args w. (Result.ok (record { content = codes "text"; parts = []; is_error = false }), w);
}

abbrev streamed : List Body → Streamed
streamed bodies = record {
  comp = some (record {
    message = empty_message user;
    usage = record { prompt_tokens = pos 1; completion_tokens = pos 1 };
    usage_reported = true;
    routed = [];
    model = [];
  });
  bodies = bodies;
  refused = [];
  error = none;
  sink_error = none;
}

abbrev reply : ℕ → Streamed
reply zero = streamed (tool_call_body (codes "a") (codes "read") (codes "{}") ∷ [])
reply (suc n) = streamed (assistant_body (codes "done") ∷ [])

abbrev no_summary : List Message → World → Compaction.Result (Compaction.Completion Usage) × World
no_summary msgs w = (Compaction.failed (plain (codes "no")), w)

no_summary_fits :
    (msgs : List Message) (us : List Usage) (w : World) (fuel : ℕ)
    (out : Compaction.Fitted no_summary)
    → Compaction.compact_to_fit no_summary fuel msgs us w ≡ some out
    → (Compaction.failed (plain (codes "no")), us, w) ≡ out
no_summary_fits msgs us w fuel out =
    refused_once no_summary fuel msgs us w w (plain (codes "no")) out refl
      (unfold is_context_overflow in refl)

abbrev host : Host World
host = record {
  stream = λ turn id req w. (reply w, w + 1);
  ask_limits = λ model w. (no_list, w);
  complete = no_summary;
  fit = λ msgs us w. (Compaction.failed (plain (codes "no")), us, w);
  fit_lem = no_summary_fits;
  turn_begin = λ turn req w. ((req, none), w);
  turn_end = λ turn comp e w. (none, w);
  tool_batch = λ calls w. ((calls, none), w);
  tool_call = λ call w. ((call, none), w);
  tool_result = λ call res m w. (none, w);
  tool_message = λ id row content parts e w. (none, w);
  assistant_message = λ parent w. (([], none), w);
  compacted = λ summary msgs w. ([], w);
  resource_notice = λ t ids w. ([], w);
  tell = λ n w. w;
  turn_hook = λ turn w. w;
  context_error = λ w. none;
  now = λ w. 0;
  error_text = λ e. codes "error";
  window_error = λ e. plain (codes "window");
}

abbrev two_turns : Config World
two_turns = record {
  host = host;
  call = record { tools = some read_tool ∷ []; approver = none; unknown_tool = none };
  max_turns = 3;
  model = [];
  armed = false;
  threshold = λ n. n;
  messages = none;
  inbox = none;
  subagents = none;
  watcher = none;
  diff_tool = [];
  window = record { fallback = pos 0; override = pos 0; window = pos 0; window_reported = false };
  dedup = true;
  elapsed = none;
  clock = λ n. [];
  quote = λ t. t;
  hex_sha256 = λ t. t;
}

abbrev asked : Session
asked = append_flat (note_message [] [] (codes "hi")) new_session

run_on-ends_example : (res : Run.Result World) × (run_on two_turns 8 asked 0 ≡ some res)
run_on-ends_example = run_on-ends two_turns asked 0 (tt, tt) (omega arith)

abbrev result_of : Option (Run.Result World) → Run.Result World
result_of none = record {
  last = Run.new_loop two_turns asked 0;
  final = none;
  undelivered = [];
  error = none;
}
result_of (some res) = res

abbrev result : Run.Result World
result = result_of (run_on two_turns 8 asked 0)

-- A run that returns has its result here.
returned :
    (out : Option (Run.Result World))
    → ((res : Run.Result World) × (out ≡ some res))
    → out ≡ some (result_of out)
returned none (res, e) = cc
returned (some out) (res, e) = refl

run_on-answers_example :
    PendingBut (unanswered_at asked) [] result.last.session
    × ((more : List Node) × (history result.last.session ≡ history asked ++ more))
run_on-answers_example =
    run_on-answers two_turns asked 0 (tt, tt) 8 result
      (returned (run_on two_turns 8 asked 0) (run_on-ends two_turns asked 0 (tt, tt) (omega arith)))

-- The question, the call, its result and the answer.
answered_in_two :
    map (λ m. m.content) (messages result.last.session)
    ≡ codes "hi" ∷ [] ∷ codes "text" ∷ codes "done" ∷ []
unfolding run_on messages check_window_config resolve_context_window one_turn watch cap
    cap_to_window drain_inbox_now drain deliver_ready forget_sent compact_here should_compact
    run_model_call wrap_callback_err call_error served_window turn_message message_from_nodes
    add_all run_batch text_eq batch_fingerprint decimal emit_tool_batch same_calls trim_space
    dispatch tool_calls start resolve_call record_results finish_turn answer omit_calls append_flat
    new_session shape_of effective_parts collapsed collapse lookup new_output_deduper
    resolve_served_window
answered_in_two = refl
