-- ===== src/RunLoop/ToolTurn.antt =====
-- The tool turn of run_loop.go: the stuck check, the host's batch, its run, and the ends of a run in the
-- middle of a turn.
use agentic_loop.Prelude.{
  List, ℕ, Text, codes, Option, some, if◌then◌else◌, none, ◌++◌, text_eq, ◌==◌, leb, ◌+◌, decimal,
}
use agentic_loop.Message.{Message, ToolCall}
use agentic_loop.Errors.{Error, plain, wrapped}
use agentic_loop.Session.{Session, CallNode, omit_calls, tool_calls, replace_calls}
use agentic_loop.Tools.{batch_fingerprint}
use agentic_loop.RunLoop.{
  Config, Loop, finalized, tell, Step, next_turn, ended, Status, complete, cancelled,
}
use agentic_loop.RunLoop.Calling.{ModelCall, without_calls, same_calls}
use agentic_loop.RunLoop.Delivery.{note, append}
use agentic_loop.RunLoop.Batch.{
  Verdict, items, aborted, zip_calls, emit_tool_batch, dispatch, record_results,
}

abbrev pub stuck_nudge_at : ℕ
stuck_nudge_at = 3

abbrev pub stuck_fail_at : ℕ
stuck_fail_at = 6

abbrev pub stuck_nudge_instruction : Text
stuck_nudge_instruction =
    codes "You have now requested the same tool calls several times in a row and received the same "
    ++ codes "results each time. Repeating them again cannot tell you anything new. Do something "
    ++ codes "different: act on the results you already have, call a different tool, or write your "
    ++ codes "final answer now. Another identical request ends this run."

abbrev pub err_stuck : Error
err_stuck = plain (codes "agentic: model is stuck repeating the same tool calls")

abbrev pub stuck_error : ℕ → Error
stuck_error n = wrapped (decimal n ++ codes " identical turns in a row") err_stuck

module _ {W : Type 0} (cfg : Config W) where
  -- The run's end in the middle of a turn: the calls that have no result get an omitted one.
  unfoldable pub stop_turn :
      List CallNode → Text → Text → Message → Status → Option Error → Loop W → Step W
  stop_turn calls reason id assistant status e r =
      let cleared = without_calls assistant id in
      ended
        (tell cfg (finalized id (some cleared) status)
          (record r { session = omit_calls calls reason r.session }))
        (some cleared) e

  unfoldable pub abort_batch : List CallNode → Text → Message → Error → Loop W → Step W
  unfolding stop_turn
  abort_batch calls id assistant cause r =
      stop_turn calls
        (codes "the batch was cancelled before this tool ran: " ++ cfg.host.error_text cause) id
        assistant cancelled (some cause) r

  abbrev pub nudged : Loop W → Loop W
  nudged r =
      if r.repeats == stuck_nudge_at
      then append (note (codes "stop_nudge") stuck_nudge_instruction) r
      else r

  abbrev pub after_results : List CallNode → Text → Message → Option Error × Loop W → Step W
  unfolding abort_batch
  after_results calls id assistant (some e, r) = abort_batch calls id assistant e r
  after_results calls id assistant (none, r) = next_turn (nudged r)

  abbrev pub after_dispatch : List CallNode → Text → Message → Loop W → Verdict × W → Step W
  unfolding after_results
  after_dispatch calls id assistant r (aborted e, w) =
      abort_batch calls id assistant e (record r { world = w })
  after_dispatch calls id assistant r (items its, w) =
      after_results calls id assistant (record_results cfg id its (record r { world = w }))

  -- The batch that runs, once the host has left it.
  unfoldable pub run_calls :
      List CallNode → List ToolCall → Text → Message → ModelCall → Loop W → Step W
  unfolding after_dispatch
  run_calls nodes calls id assistant mc r =
      let turn_ = record assistant { tool_calls = calls } in
      let told = tell cfg (finalized id (some turn_) complete) r in
      after_dispatch nodes id turn_ told
        (dispatch cfg mc.refused (zip_calls nodes calls) none told.world)

  abbrev pub after_batch_hook :
      List ToolCall
      → Text
      → Message
      → ModelCall
      → Loop W
      → (List ToolCall × Option Error) × W
      → Step W
  unfolding run_calls stop_turn
  after_batch_hook calls id assistant mc r ((expanded, some e), w) =
      stop_turn (tool_calls mc.nodes)
        (codes "the batch was cancelled before it ran: " ++ cfg.host.error_text e) id assistant
        cancelled (some e) (record r { world = w })
  after_batch_hook calls id assistant mc r ((expanded, none), w) =
      if same_calls calls expanded
      then run_calls (tool_calls mc.nodes) expanded id assistant mc (record r { world = w })
      else let swapped : List CallNode × Session =
          replace_calls (tool_calls mc.nodes) mc.call expanded r.session in
        run_calls swapped.0 expanded id assistant mc (record r { world = w; session = swapped.1 })

  -- A batch with the same fingerprint as the one before makes no progress.
  abbrev pub counted : List ToolCall → Loop W → Loop W
  counted calls r =
      let fp = batch_fingerprint calls in
      if text_eq fp r.last_batch
      then record r { repeats = r.repeats + 1 }
      else record r { last_batch = fp; repeats = 1 }

  unfoldable pub run_batch : List ToolCall → Text → Message → ModelCall → Loop W → Step W
  unfolding after_batch_hook
  run_batch calls id assistant mc before =
      let r = counted calls before in
      if leb stuck_fail_at r.repeats
      then stop_turn (tool_calls mc.nodes)
          (codes "the run stopped: the same tool calls repeated "
            ++ decimal r.repeats
            ++ codes " times")
          id assistant complete (some (stuck_error r.repeats)) r
      else after_batch_hook calls id assistant mc r (emit_tool_batch cfg calls r.world)
