-- ===== src/RunLoop/Compacting.antt =====
-- internal/loop/autocompact.go and the calls of contextwindow.go: how the loop keeps a request within
-- the window.
use agentic_loop.Prelude.{Text, Option, Bool, some, false, true, if◌then◌else◌, none}
use agentic_loop.Prelude.Int.{ℤ}
use agentic_loop.Session.{messages, compact_session}
use agentic_loop.Dedup.{OutputDeduper, reset}
use agentic_loop.Compaction as Compaction
use agentic_loop.Compaction.{should_compact}
use agentic_loop.ContextWindow.Served as Served
use agentic_loop.ContextWindow.{LastCall, cap_to_window, Outcome, WindowError}
use agentic_loop.RunLoop.{
  Config, Loop, Completion, compaction_failed, window_found, window_unknown, tell, Fitted, Stage,
  going, halted,
}

abbrev pub reset_deduper : Option OutputDeduper → Option OutputDeduper
reset_deduper none = none
reset_deduper (some d) = some (reset d)

abbrev pub last_call_of : Option Completion → Option LastCall
last_call_of none = none
last_call_of (some c) =
    some (record { usage_reported = c.usage_reported; prompt_tokens = c.usage.prompt_tokens })

abbrev pub usage_pair : Option Completion → Option (Bool × ℤ)
usage_pair none = none
usage_pair (some c) = some (c.usage_reported, c.usage.prompt_tokens)

module _ {W : Type 0} (cfg : Config W) where
  abbrev pub fitted : Loop W → Fitted W → Bool × Loop W
  fitted r (Compaction.failed e, us, w) =
      (false, tell cfg (compaction_failed e) (record r { usages = us; world = w }))
  fitted r (Compaction.ok cr, us, w) =
      let stored : Text × W = cfg.host.compacted cr.summary cr.messages w in
      (
        true,
        record r {
          usages = us;
          world = stored.1;
          deduper = reset_deduper r.deduper;
          session = compact_session cr.summary stored.0 r.session;
        },
      )

  -- Whether the window was compacted.
  unfoldable pub compact_now : Loop W → Bool × Loop W
  compact_now r = fitted r (cfg.host.fit (messages r.session) r.usages r.world)

  unfoldable pub compact_here : Loop W → Bool × Loop W
  unfolding compact_now
  compact_here r =
      if should_compact cfg.armed cfg.threshold r.window.window (usage_pair r.last_comp)
      then compact_now r
      else (false, r)

  -- What the loop forgets where the window was compacted at a turn's boundary.
  unfoldable pub forget_sent : Bool × Loop W → Loop W
  forget_sent (true, r) = record r { last_comp = none; last_sent = 0 }
  forget_sent (false, r) = r

  abbrev pub capped : Outcome Bool × Loop W → Stage W
  capped (Outcome.refused e, r) = halted r none (some (cfg.host.window_error e))
  capped (Outcome.ok true, r) = going (record r { last_comp = none })
  capped (Outcome.ok false, r) = going r

  unfoldable pub cap : Loop W → Stage W
  unfolding compact_now
  cap r = capped (
      cap_to_window compact_now r.window cfg.armed (messages r.session) (last_call_of r.last_comp)
        r.last_sent r)

  abbrev pub LoopWindow : Type 0
  LoopWindow = Option WindowError × Loop W

  abbrev pub told_window : Option (Served.Notice cfg.host.ask_limits) → Loop W → Loop W
  told_window none r = r
  told_window (some (Served.settled ev)) r = tell cfg (window_found ev) r
  told_window (some (Served.nothing_known first errs)) r = tell cfg (window_unknown first errs) r

  abbrev pub use_window : Served.Settings cfg.host.ask_limits × Text × W → Loop W → LoopWindow
  use_window (Outcome.refused e, asked, w) r =
      (some e, record r { served_asked = asked; world = w })
  use_window (Outcome.ok (win, told), asked, w) r =
      (none, told_window told (record r { served_asked = asked; world = w; window = win }))

  abbrev pub served_by : Option Completion → Option (Text × Text)
  served_by none = none
  served_by (some c) = some (c.routed, c.model)

  -- The call of `resolveServedWindow`: its error, if there is one.
  unfoldable pub served_window : Option Completion → Loop W → LoopWindow
  served_window comp r =
      use_window
        (Served.resolve_served_window cfg.host.ask_limits r.window cfg.armed cfg.model
          (served_by comp) r.served_asked r.world)
        r
