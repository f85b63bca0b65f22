-- ===== src/RunLoop/Turn.antt =====
-- One round of the loop of run_loop.go, from the turn's boundary to its end.
use agentic_loop.Prelude.{
  List, ℕ, Text, codes, [], ◌∷◌, if◌then◌else◌, Bool, Option, ◌++◌, false, is_nil, some, none, not,
  ◌&&◌, ◌==◌, true, ◌+◌, length,
}
use agentic_loop.Message.{Message, ToolCall, ToolDecl}
use agentic_loop.Errors.{Error, is_ended, is_context_overflow}
use agentic_loop.Session.{messages, tool_calls}
use agentic_loop.Tools.{decls}
use agentic_loop.ContextWindow.{WindowError}
use agentic_loop.RunLoop.{
  Config, Loop, Step, same_turn, ended, Stage, then_step, then_stage, Status, errored, cancelled,
}
use agentic_loop.RunLoop.Calling.{has_comp, ModelCall, turn_message, run_model_call, without_calls}
use agentic_loop.RunLoop.Compacting.{compact_here, compact_now, forget_sent, cap, served_window}
use agentic_loop.RunLoop.Delivery.{drain, drain_inbox_now, deliver_ready, watch}
use agentic_loop.RunLoop.ToolTurn.{run_batch, stop_turn}
use agentic_loop.RunLoop.Ending.{is_last_turn, finalize, omit, finish_turn}

abbrev pub last_id : List Message → Text
last_id [] = []
last_id (m ∷ []) = m.id
last_id (m ∷ n ∷ ms) = last_id (n ∷ ms)

abbrev pub status_of : Error → Status
status_of e = if is_ended e then cancelled else errored

abbrev pub retried_here : ℕ → Option ℕ → Bool
retried_here turn none = false
retried_here turn (some t) = t == turn

module _ {W : Type 0} (cfg : Config W) where
  -- Compaction, sub-agents, the queue, the inbox, the resource watch and the cap, in this order.
  unfoldable pub boundary : ℕ → Loop W → Stage W
  boundary turn r =
      then_stage
        (watch cfg
          (drain_inbox_now cfg
            (drain cfg (deliver_ready cfg turn (forget_sent cfg (compact_here cfg r))))).1)
        (cap cfg)

  abbrev pub tools_of_turn : ℕ → List ToolDecl
  tools_of_turn turn = if is_last_turn cfg turn then [] else decls W cfg.call.tools

  abbrev pub nothing_streamed : ModelCall → Bool
  nothing_streamed mc = not (has_comp mc.comp) && is_nil mc.nodes

  -- A failed call: what streamed stays, and the run ends.
  abbrev pub call_failed : Text → ModelCall → Error → Loop W → Step W
  call_failed id mc e before =
      let r =
        omit cfg mc (codes "the call ended before this tool ran: " ++ cfg.host.error_text e)
          before in
      let partial = without_calls (turn_message mc) id in
      if nothing_streamed mc
      then ended (finalize cfg id none (status_of e) r) none (some e)
      else ended (finalize cfg id (some partial) (status_of e) r) (some partial) (some e)

  abbrev pub overflowed : ℕ → ModelCall → Error → Loop W → Bool
  overflowed turn mc e r =
      is_context_overflow (some e)
      && cfg.armed
      && nothing_streamed mc
      && not (retried_here turn r.overflow_turn)

  abbrev pub after_retry : Text → ModelCall → Error → Bool × Loop W → Step W
  after_retry id mc e (true, r) =
      same_turn (record (finalize cfg id none errored r) { last_comp = none; last_sent = 0 })
  after_retry id mc e (false, r) = call_failed id mc e r

  -- A request larger than the window is compacted and asked again, once a turn.
  unfoldable pub on_call_error : ℕ → Text → ModelCall → Error → Loop W → Step W
  on_call_error turn id mc e r =
      if overflowed turn mc e r
      then after_retry id mc e (compact_now cfg (record r { overflow_turn = some turn }))
      else call_failed id mc e r

  abbrev pub named : Text → Message → Message
  named id m = record m { id = if is_nil id then m.id else id }

  abbrev pub runs_tools : ℕ → List ToolCall → Bool
  runs_tools turn calls = not (is_nil calls) && not (is_last_turn cfg turn)

  abbrev pub after_window : ℕ → Text → ModelCall → Option WindowError × Loop W → Step W
  after_window turn id mc (some e, r) =
      stop_turn cfg (tool_calls mc.nodes)
        (codes "the run stopped before this tool ran: "
          ++ cfg.host.error_text (cfg.host.window_error e))
        id (named id (turn_message mc)) errored (some (cfg.host.window_error e)) r
  after_window turn id mc (none, r) =
      let assistant = named id (turn_message mc) in
      if runs_tools turn assistant.tool_calls
      then run_batch cfg assistant.tool_calls id assistant mc r
      else finish_turn cfg turn id mc assistant r

  abbrev pub call_outcome : ℕ → Text → ModelCall → Option Error → Loop W → Step W
  unfolding on_call_error
  call_outcome turn id mc (some e) r = on_call_error turn id mc e r
  call_outcome turn id mc none r =
      after_window turn id mc (served_window cfg mc.comp (record r { last_comp = mc.comp }))

  abbrev pub after_call : ℕ → Text → ModelCall × Loop W → Step W
  unfolding call_outcome
  after_call turn id (mc, r) = call_outcome turn id mc mc.error r

  abbrev pub after_row : ℕ → (Text × Option Error) × W → Loop W → Step W
  unfolding after_call
  after_row turn ((id, some e), w) r =
      ended (finalize cfg id none errored (record r { world = w })) none (some e)
  after_row turn ((id, none), w) r =
      let msgs = messages r.session in
      after_call turn id (
        run_model_call cfg (turn + 1) msgs (tools_of_turn turn) id
          (record r { world = w; last_sent = length msgs }))

  abbrev pub call_turn : ℕ → Loop W → Step W
  unfolding after_row
  call_turn turn before =
      let r : Loop W = record before { world = cfg.host.turn_hook (turn + 1) before.world } in
      after_row turn (cfg.host.assistant_message (last_id (messages r.session)) r.world) r

  unfoldable pub one_turn : ℕ → Loop W → Step W
  unfolding boundary call_turn
  one_turn turn r = then_step (boundary turn r) (call_turn turn)
