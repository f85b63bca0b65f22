-- ===== src/ContextWindow/Served.antt =====
-- internal/loop/contextwindow.go: the list is asked again by the names that a response gives.
use agentic_loop.Prelude.{
  zero, List, Text, ◌∷◌, Option, Bool, ◌++◌, some, true, false, if◌then◌else◌, [], none, text_eq,
  not, ◌||◌,
}
use agentic_loop.Prelude.Int.{ℤ, pos}
use agentic_loop.ContextWindow.{
  WindowConfig, Outcome, ok, refused, Event, ReportError, no_window_list, reported_window,
  apply_window, wants_window, served_names, LimitsAnswer,
}

abbrev pub join_lines : List Text → Text
join_lines [] = []
join_lines (n ∷ []) = n
join_lines (n ∷ m ∷ ns) = n ++ 0x0a ∷ join_lines (m ∷ ns)

abbrev pub is_zero : ℤ → Bool
is_zero (pos zero) = true
is_zero z = false

module _ {E W : Type 0} (ask : Text → W → LimitsAnswer E × W) where
  -- What the host is told: a window, or the failures where the run still has none.
  pub data Notice : Type 0 where
    settled : Event E → Notice
    nothing_known : Text → List (ReportError E) → Notice

  abbrev pub Settings : Type 0
  Settings = Outcome (WindowConfig × Option Notice)

  abbrev pub applied : Outcome (WindowConfig × Event E) → Settings
  applied (ok (c, ev)) = ok (c, some (settled ev))
  applied (refused e) = refused e

  abbrev pub unknown_still : WindowConfig → Text → List (ReportError E) → Settings
  unknown_still cfg first errs =
      ok (cfg, if is_zero cfg.window then some (nothing_known first errs) else none)

  abbrev pub is_no_list : ReportError E → Bool
  is_no_list no_window_list = true
  is_no_list _ = false

  -- One name's answer: a window ends the loop, and so does a provider without a list.
  abbrev pub on_answer :
      WindowConfig
      → Text
      → (ReportError E → W → Settings × W)
      → (ℤ × Option (ReportError E)) × W
      → Settings × W
  unfolding apply_window
  on_answer cfg served next ((reported, none), w) =
      (applied (apply_window E cfg reported none served), w)
  on_answer cfg served next ((reported, some e), w) =
      if is_no_list e then (ok (cfg, none), w) else next e w

  -- The loop over the names, of which `first` was the first.
  pub ask_names : WindowConfig → Text → List Text → List (ReportError E) → W → Settings × W
  unfolding reported_window on_answer
  ask_names cfg first [] errs w = (unknown_still cfg first errs, w)
  ask_names cfg first (served ∷ names) errs w =
      on_answer cfg served (λ e v. ask_names cfg first names (errs ++ e ∷ []) v)
        (reported_window E ask served w)

  abbrev pub ask_new : WindowConfig → List Text → Text → W → Settings × Text × W
  unfolding ask_names
  ask_new cfg [] asked w = (ok (cfg, none), asked, w)
  ask_new cfg (first ∷ names) asked w =
      let key = join_lines (first ∷ names) in
      let (settings, w') = ask_names cfg first (first ∷ names) [] w in
      if text_eq key asked then (ok (cfg, none), asked, w) else (settings, key, w')

  -- A response gives the name it was routed to and its body's name. `asked` is what was asked last.
  unfoldable pub resolve_served_window :
      WindowConfig → Bool → Text → Option (Text × Text) → Text → W → Settings × Text × W
  unfolding wants_window served_names ask_new
  resolve_served_window cfg armed requested none asked w = (ok (cfg, none), asked, w)
  resolve_served_window cfg armed requested (some (routed, model)) asked w =
      if not (wants_window E cfg armed) || cfg.window_reported
      then (ok (cfg, none), asked, w)
      else ask_new cfg (served_names requested routed model) asked w
