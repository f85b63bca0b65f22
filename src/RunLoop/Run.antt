-- ===== src/RunLoop/Run.antt =====
-- `runOn` of run_loop.go as a whole: its start, its loop with fuel, and the end by the cap on turns.
use agentic_loop.Prelude.{
  List, ℕ, suc, zero, Option, if◌then◌else◌, [], none, is_nil, ltb, some, ◌&&◌, ◌==◌, leb, ◌+◌,
}
use agentic_loop.Message.{Message, assistant, empty_message}
use agentic_loop.Errors.{Error}
use agentic_loop.Session.{Session}
use agentic_loop.SubagentRuns.{SubagentReport}
use agentic_loop.SubagentRuns.Delivery.{format_subagent_delivery}
use agentic_loop.Dedup.{new_output_deduper}
use agentic_loop.ContextWindow.{
  WindowError, check_window_config, resolve_context_window, Outcome, WindowConfig, Event,
}
use agentic_loop.RunLoop.{
  Config, Loop, Step, next_turn, same_turn, ended, Usage, SubagentPort, QueuePort, window_found,
  tell,
}
use agentic_loop.RunLoop.Calling.{no_output_placeholder}
use agentic_loop.RunLoop.Delivery.{note, announce, append, subagent_report_kind}
use agentic_loop.RunLoop.Turn.{one_turn}

-- What a run returns: the loop's last state, the final message, and the error.
pub record Result (W : Type 0) : Type 0 where
  pub last : Loop W
  pub final : Option Message
  pub undelivered : List Message
  pub error : Option Error

abbrev pub placeholder_message : Message
placeholder_message = record (empty_message assistant) { content = no_output_placeholder }

module _ {W : Type 0} (cfg : Config W) where
  abbrev pub give_up : SubagentPort W → Loop W → Loop W
  give_up port r =
      let reports : List (SubagentReport Usage) × W = port.take_reports r.world in
      let lost : ℕ × W = port.cancel_remaining reports.1 in
      let after : Loop W = record r { world = lost.1 } in
      if is_nil reports.0 && lost.0 == 0
      then after
      else announce cfg
          (note subagent_report_kind
            (format_subagent_delivery cfg.quote reports.0 (port.running after.world) lost.0))
          after

  abbrev pub given_up : Option (SubagentPort W) → Loop W → Loop W
  given_up none r = r
  given_up (some port) r = if port.pending r.world == 0 then r else give_up port r

  -- The cap broke the loop.
  unfoldable pub capped_end : Loop W → Result W
  capped_end r = record {
    last = append placeholder_message (given_up cfg.subagents r);
    final = some placeholder_message;
    undelivered = [];
    error = none;
  }

  -- What a turn's end leads to, where `rest` is the loop from a turn on.
  abbrev pub after_turn : (ℕ → Loop W → Option (Result W)) → ℕ → Step W → Option (Result W)
  after_turn rest turn (next_turn r) = rest (turn + 1) r
  after_turn rest turn (same_turn r) = rest turn r
  after_turn rest turn (ended r final e) =
      some (record { last = r; final = final; undelivered = []; error = e })

  -- The loop from `turn` on. None where the fuel runs out.
  unfoldable pub run_loop : ℕ → ℕ → Loop W → Option (Result W)
  unfolding capped_end
  run_loop zero turn r = none
  run_loop (suc fuel) turn r =
      if ltb 0 cfg.max_turns && leb cfg.max_turns turn
      then some (capped_end r)
      else after_turn (λ t l. run_loop fuel t l) turn (one_turn cfg turn r)

  unfoldable pub new_loop : Session → W → Loop W
  new_loop s w = record {
    world = w;
    session = s;
    turns = 0;
    usages = [];
    last_batch = [];
    repeats = 0;
    last_comp = none;
    last_sent = 0;
    served_asked = [];
    overflow_turn = none;
    deduper = if cfg.dedup then some new_output_deduper else none;
    window = cfg.window;
    tracker = cfg.elapsed;
  }

  abbrev pub refused_start : Error → Session → W → Result W
  refused_start e s w = record {
    last = new_loop s w;
    final = none;
    undelivered = [];
    error = some e;
  }

  abbrev pub with_event : Option (Event Error) → Loop W → Loop W
  with_event none r = r
  with_event (some ev) r = tell cfg (window_found ev) r

  -- The queue belongs to the run: it is closed at the end, and what it held is handed back.
  abbrev pub closed_by : Option (QueuePort W) → Result W → Result W
  closed_by none res = res
  closed_by (some q) res = record res {
    last = record res.last { world = (q.close res.last.world).1 };
    undelivered = (q.close res.last.world).0;
  }

  abbrev pub closed_run : Option (Result W) → Option (Result W)
  closed_run none = none
  closed_run (some res) = some (closed_by cfg.messages res)

  abbrev pub with_window :
      ℕ → Session → Outcome (WindowConfig × Option (Event Error)) × W → Option (Result W)
  unfolding run_loop new_loop
  with_window fuel s (Outcome.refused e, w) = some (refused_start (cfg.host.window_error e) s w)
  with_window fuel s (Outcome.ok (win, ev), w) =
      closed_run (run_loop fuel 0 (with_event ev (record (new_loop s w) { window = win })))

  abbrev pub started : ℕ → Session → W → Option WindowError → Option (Result W)
  unfolding with_window
  started fuel s w (some e) = some (refused_start (cfg.host.window_error e) s w)
  started fuel s w none =
      with_window fuel s
        (resolve_context_window Error cfg.host.ask_limits cfg.window cfg.armed cfg.model w)

  -- A run from the leaf of `s`. None where the fuel for the rounds of the loop runs out.
  unfoldable pub run_on : ℕ → Session → W → Option (Result W)
  unfolding started
  run_on fuel s w = started fuel s w (check_window_config cfg.window)
