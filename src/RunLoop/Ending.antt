-- ===== src/RunLoop/Ending.antt =====
-- How a turn of run_loop.go ends that runs no tools: sub-agents that are still out, the answer, the
-- wrap-up call and the last resort.
use agentic_loop.Prelude.{
  List, ℕ, Text, codes, [], ◌∷◌, if◌then◌else◌, Bool, Option, ◌++◌, ltb, is_nil, some, none, not,
  ◌&&◌, trim_space, ◌==◌, leb, ◌+◌,
}
use agentic_loop.Message.{Message}
use agentic_loop.Errors.{Error, is_ended}
use agentic_loop.Session.{messages, omit_calls, tool_calls, add_text}
use agentic_loop.SubagentRuns.{SubagentReport}
use agentic_loop.SubagentRuns.Delivery.{format_subagent_delivery}
use agentic_loop.RunLoop.{
  Config, Loop, finalized, tell, Step, next_turn, ended, Status, complete, cancelled, Usage,
  SubagentPort,
}
use agentic_loop.RunLoop.Calling.{
  ModelCall, turn_message, run_model_call, without_calls, fallback_output,
}
use agentic_loop.RunLoop.Delivery.{
  note, append, deliver, drain, queue_pending, answer, more_turns_allowed,
}

abbrev pub wrap_up_instruction : Text
wrap_up_instruction =
    codes "Stop researching and write your final answer now, using only the information already "
    ++ codes
        "gathered above. Do not call any tools and do not keep thinking -- output the complete, "
    ++ codes "self-contained report that directly answers the task."

module _ {W : Type 0} (cfg : Config W) where
  abbrev pub is_last_turn : ℕ → Bool
  is_last_turn turn = ltb 0 cfg.max_turns && leb cfg.max_turns (turn + 1)

  abbrev pub finalize : Text → Option Message → Status → Loop W → Loop W
  finalize id m status r = tell cfg (finalized id m status) r

  abbrev pub omit : ModelCall → Text → Loop W → Loop W
  omit mc reason r = record r { session = omit_calls (tool_calls mc.nodes) reason r.session }

  abbrev pub not_run : Text
  not_run = codes "the run is ending, so this tool call was not run"

  -- The turn's text, or what stands in for it, which then joins the turn.
  abbrev pub with_fallback : ModelCall → Message → Loop W → Message × Loop W
  with_fallback mc final r =
      let text = fallback_output (turn_message mc) in
      if is_nil (trim_space final.content)
      then (record final { content = text }, record r { session = add_text mc.call text r.session })
      else (final, r)

  -- The last resort: the reasoning, or a placeholder.
  unfoldable pub last_resort : ℕ → Text → ModelCall → Message → Loop W → Step W
  last_resort turn id mc assistant r =
      let shown : Message × Loop W = with_fallback mc (without_calls assistant id) r in
      answer cfg turn mc.comp id shown.0 shown.1

  -- The wrap-up's answer is the turn's; a wrap-up that failed or wrote nothing leaves the last resort.
  abbrev pub wrapped_up :
      ℕ → Text → ModelCall → Message → ModelCall → Option Error → Loop W → Step W
  unfolding last_resort
  wrapped_up turn id mc assistant mc2 (some e) r = last_resort turn id mc assistant r
  wrapped_up turn id mc assistant mc2 none r =
      if is_nil (trim_space (turn_message mc2).content)
      then last_resort turn id mc assistant r
      else answer cfg turn mc2.comp id (without_calls (turn_message mc2) id) r

  abbrev pub after_wrap_up : ℕ → Text → ModelCall → Message → ModelCall × Loop W → Step W
  unfolding wrapped_up
  after_wrap_up turn id mc assistant (mc2, r) =
      wrapped_up turn id mc assistant mc2 mc2.error (omit mc2 not_run r)

  -- A turn without an answer, where tools were in play: one more request, without tools, asks for it.
  unfoldable pub wrap_up : ℕ → Text → ModelCall → Message → Loop W → Step W
  unfolding after_wrap_up
  wrap_up turn id mc assistant r =
      let asked = append (note (codes "wrap_up") wrap_up_instruction) r in
      if not (is_nil cfg.call.tools) && not (is_last_turn turn)
      then after_wrap_up turn id mc assistant
          (run_model_call cfg (turn + 2) (messages asked.session) [] [] asked)
      else last_resort turn id mc assistant r

  -- A turn that asked for no tools, once no sub-agent is waited for.
  unfoldable pub conclude : ℕ → Text → ModelCall → Message → Loop W → Step W
  unfolding wrap_up
  conclude turn id mc assistant r =
      let text = fallback_output assistant in
      let stalled = record (without_calls assistant id) { content = text } in
      if not (is_nil (trim_space assistant.content))
      then answer cfg turn mc.comp id (without_calls assistant id) r
      else if queue_pending cfg r && more_turns_allowed cfg turn
      then next_turn (
          finalize id (some stalled) complete
            (record r { session = add_text mc.call text r.session }))
      else wrap_up turn id mc assistant r

  -- The last permitted turn: what arrived is delivered, the rest is given up. None where nothing was.
  abbrev pub deliver_last : ℕ → Text → ModelCall → Message → SubagentPort W → Loop W → Step W
  unfolding conclude
  deliver_last turn id mc assistant port r =
      let reports : List (SubagentReport Usage) × W = port.take_reports r.world in
      let lost : ℕ × W = port.cancel_remaining reports.1 in
      let after : Loop W = record r { world = lost.1 } in
      let shown : Message × Loop W = with_fallback mc (without_calls assistant id) after in
      let told : Loop W = finalize id (some shown.0) complete shown.1 in
      let content = format_subagent_delivery cfg.quote reports.0 (port.running told.world) lost.0 in
      if is_nil reports.0 && lost.0 == 0
      then conclude turn id mc assistant after
      else ended (drain cfg (deliver cfg content told)) (some shown.0) none

  abbrev pub collect_failed : Text → ModelCall → Message → Error → Loop W → Step W
  collect_failed id mc assistant e r =
      let shown : Message × Loop W = with_fallback mc (without_calls assistant id) r in
      if is_ended e
      then ended (finalize id (some shown.0) cancelled shown.1) (some shown.0) none
      else ended r none (some e)

  abbrev pub collected :
      ℕ
      → Text
      → ModelCall
      → Message
      → SubagentPort W
      → (List (SubagentReport Usage) × Option Error) × W
      → Loop W
      → Step W
  unfolding conclude
  collected turn id mc assistant port ((reports, some e), w) r =
      collect_failed id mc assistant e (record r { world = w })
  collected turn id mc assistant port (([], none), w) r =
      conclude turn id mc assistant (record r { world = w })
  collected turn id mc assistant port ((rep ∷ reps, none), w) r =
      let after : Loop W = record r { world = w } in
      let told : Loop W =
        if is_nil (trim_space assistant.content)
        then after
        else finalize id (some (without_calls assistant id)) complete after in
      next_turn (
        deliver cfg (format_subagent_delivery cfg.quote (rep ∷ reps) (port.running told.world) 0)
          told)

  -- A sub-agent that is still out is waited for, or given up on the last turn.
  abbrev pub finish_with :
      ℕ → Text → ModelCall → Message → Option (SubagentPort W) → Loop W → Step W
  unfolding conclude deliver_last collected
  finish_with turn id mc assistant none r = conclude turn id mc assistant r
  finish_with turn id mc assistant (some port) r =
      if port.pending r.world == 0
      then conclude turn id mc assistant r
      else if is_last_turn turn
      then deliver_last turn id mc assistant port r
      else collected turn id mc assistant port (port.collect r.world) r

  -- The model asked for no tools, or may run none: sub-agents may still be out.
  unfoldable pub finish_turn : ℕ → Text → ModelCall → Message → Loop W → Step W
  unfolding finish_with
  finish_turn turn id mc assistant r =
      finish_with turn id mc assistant cfg.subagents (omit mc not_run r)
