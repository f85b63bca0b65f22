-- ===== src/RunLoop/Sound/Turns.antt =====
-- The conversation, and the turn that was retried, through one round of the loop of run_loop.go.
use agentic_loop.Prelude.{
  List, ℕ, Option, Text, is_nil, ◌+◌, none, codes, ◌≡◌, Bool-cases, allb, [], ◌++◌, true, inl, some,
  ◌∷◌, length, inr, refl, ap, Bool, false, arith, subst, ◌∙◌, sym,
}
use agentic_loop.Message.{Message}
use agentic_loop.Errors.{Error}
use agentic_loop.ContextWindow.{WindowError}
use agentic_loop.Node.{Node}
use agentic_loop.Session.{Session, tool_calls, messages}
use agentic_loop.Session.Answered.{PendingBut, unanswered_at}
use agentic_loop.Session.Held.{Held, omit-Held}
use agentic_loop.RunLoop.{Config, Loop, Stage, going, halted, errored, then_step}
use agentic_loop.RunLoop.Calling.{ModelCall, run_model_call, turn_message}
use agentic_loop.RunLoop.Compacting.{compact_now, served_window}
use agentic_loop.RunLoop.Ending.{omit, finish_turn}
use agentic_loop.RunLoop.ToolTurn.{run_batch}
use agentic_loop.RunLoop.Turn.{
  boundary, call_failed, nothing_streamed, retried_here, overflowed, after_retry, on_call_error,
  named, runs_tools, after_window, call_outcome, after_call, after_row, call_turn, one_turn,
  tools_of_turn,
}
use agentic_loop.RunLoop.Sound.{Kept, KeptStep, KeptStage, HostCallless, if_kept}
use agentic_loop.RunLoop.Sound.Between.{boundary-Kept, compact_now-Kept}
use agentic_loop.RunLoop.Sound.Window.{served-Kept}
use agentic_loop.RunLoop.Sound.Batch.{call-Kept, stop_turn-Kept}
use agentic_loop.RunLoop.Sound.Tools.{
  run_batch-Kept, turn_calls_length, call_unsuperseded, unsuperseded,
}
use agentic_loop.RunLoop.Sound.Ends.{finish_turn-Kept}

module _ {W : Type 0} (cfg : Config W) (start : Session) (o : Option ℕ) (turn : ℕ)
    (host : HostCallless cfg) where
  call_failed-Kept :
      (rec_ : Option ℕ) (id : Text) (mc : ModelCall) (e : Error) (r : Loop W)
      → Held start rec_ (tool_calls mc.nodes) r.session
      → KeptStep start o turn (call_failed cfg id mc e r)
  call_failed-Kept rec_ id mc e r k =
      let reason = codes "the call ended before this tool ran: " ++ cfg.host.error_text e in
      let h : Held start rec_ [] (omit cfg mc reason r).session =
        omit-Held start rec_ (tool_calls mc.nodes) reason r.session k in
      elim (Bool-cases (nothing_streamed cfg mc)) [
        | inl f ↦ rw f (h.0, h.1, refl)
        | inr f ↦ rw f (h.0, h.1, refl)
      ]

  -- Nothing streamed, so no call is left open by the retry.
  no_nodes : (ns : List Node) → is_nil ns ≡ true → ns ≡ []
  no_nodes [] h = refl
  no_nodes (n ∷ ns) h = cc

  no_calls_open : (mc : ModelCall) → nothing_streamed cfg mc ≡ true → tool_calls mc.nodes ≡ []
  no_calls_open mc h =
      ap tool_calls (no_nodes mc.nodes (ground arith)) ∙ (unfold tool_calls in refl)

  after_retry-Kept :
      (id : Text) (mc : ModelCall) (e : Error) (p : Bool × Loop W)
      → retried_here turn o ≡ false
      → tool_calls mc.nodes ≡ []
      → Kept start (some turn) none [] p.1
      → KeptStep start o turn (after_retry cfg id mc e p)
  after_retry-Kept id mc e (true, r) once empty k = (k.0, k.1, once)
  after_retry-Kept id mc e (false, r) once empty k =
      call_failed-Kept none id mc e r (subst (λ c. Held start none c r.session) (sym empty) k.0)

  on_call_error-Kept :
      (id : Text) (mc : ModelCall) (e : Error) (r : Loop W)
      → Kept start o mc.call (tool_calls mc.nodes) r
      → KeptStep start o turn (on_call_error cfg turn id mc e r)
  unfolding on_call_error
  on_call_error-Kept id mc e r k = elim (Bool-cases (overflowed cfg turn mc e r)) [
    | inl f ↦
        let once : retried_here turn r.overflow_turn ≡ false = ground arith in
        let empty : tool_calls mc.nodes ≡ [] = no_calls_open mc (ground arith) in
        rw f (
          after_retry-Kept id mc e (compact_now cfg (record r { overflow_turn = some turn }))
            (subst (λ t. retried_here turn t ≡ false) k.1 once) empty
            (compact_now-Kept cfg start (some turn) (record r { overflow_turn = some turn })
              (
                (
                  subst (λ c. PendingBut (unanswered_at start) c r.session) empty k.0.0,
                  k.0.1,
                  refl,
                ),
                refl,
              )))
    | inr f ↦ rw f (call_failed-Kept mc.call id mc e r k.0)
  ]

  after_window-Kept :
      (id : Text) (mc : ModelCall) (p : Option WindowError × Loop W)
      → allb unsuperseded mc.nodes ≡ true
      → Kept start o mc.call (tool_calls mc.nodes) p.1
      → KeptStep start o turn (after_window cfg turn id mc p)
  after_window-Kept id mc (some e, r) u k =
      stop_turn-Kept cfg start o turn mc.call (tool_calls mc.nodes) _ id
        (named cfg id (turn_message mc)) errored (some (cfg.host.window_error e)) r k
  after_window-Kept id mc (none, r) u k =
      let m : Message = named cfg id (turn_message mc) in
      if_kept start o turn (runs_tools cfg turn m.tool_calls) (run_batch cfg m.tool_calls id m mc r)
        (finish_turn cfg turn id mc m r)
        (run_batch-Kept cfg start o turn m.tool_calls id m mc r
          (unfold turn_message in turn_calls_length mc.nodes u) k)
        (finish_turn-Kept cfg start o turn host id mc m r k)

  after_call-Kept :
      (id : Text) (p : ModelCall × Loop W)
      → allb unsuperseded p.0.nodes ≡ true
      → Kept start o p.0.call (tool_calls p.0.nodes) p.1
      → KeptStep start o turn (after_call cfg turn id p)
  unfolding on_call_error
  after_call-Kept id (mc, r) u k = go mc.error
    where
      go : (e : Option Error) → KeptStep start o turn (call_outcome cfg turn id mc e r)
      go none =
          after_window-Kept id mc (served_window cfg mc.comp (record r { last_comp = mc.comp })) u (
            served-Kept cfg start o mc.call (tool_calls mc.nodes) mc.comp
              (record r { last_comp = mc.comp }) k)
      go (some e) = on_call_error-Kept id mc e r k

  after_row-Kept :
      (row : (Text × Option Error) × W) (r : Loop W)
      → Kept start o none [] r
      → KeptStep start o turn (after_row cfg turn row r)
  unfolding on_call_error
  after_row-Kept ((id, some e), w) r k = k.0
  after_row-Kept ((id, none), w) r k =
      let sent : Loop W = record r { world = w; last_sent = length (messages r.session) } in
      let tools = tools_of_turn cfg turn in
      after_call-Kept id (run_model_call cfg (turn + 1) (messages r.session) tools id sent)
        (call_unsuperseded cfg (turn + 1) (messages r.session) tools id sent)
        (call-Kept cfg start o (turn + 1) (messages r.session) tools id sent k)

  then_call-Kept :
      (st : Stage W)
      → KeptStage start o st
      → KeptStep start o turn (then_step st (call_turn cfg turn))
  unfolding on_call_error
  then_call-Kept (going r) k =
      after_row-Kept _ (record r { world = cfg.host.turn_hook (turn + 1) r.world }) k
  then_call-Kept (halted r final e) k = k

  pub one_turn-Kept :
      (r : Loop W) → Kept start o none [] r → KeptStep start o turn (one_turn cfg turn r)
  unfolding one_turn
  one_turn-Kept r k = then_call-Kept (boundary cfg turn r) (boundary-Kept cfg start o turn r host k)
