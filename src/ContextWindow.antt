-- ===== src/ContextWindow.antt =====
-- internal/loop/contextwindow.go: the window a run may fill, from the host's settings and the server's
-- model list, and the cap that keeps a request within it. An error is kept by its kind and the
-- numbers it names. `E` is the type of the model list's errors.
pub mod Bounds
pub mod Served
pub mod Keeps
mod Examples
use agentic_loop.Prelude.{
  Bool, Option, Text, List, ℕ, if◌then◌else◌, some, false, ◌||◌, not, ◌∷◌, length, drop, true, ◌&&◌,
  none, [], is_nil, ◌+◌, ◌/◌, ltb, text_eq, ◌++◌,
}
use agentic_loop.Prelude.Int.{ℤ, pos, negsuc, ltb_ℤ, ◌+ℤ◌}
use agentic_loop.Message.{Message, ThinkingBlock, ToolCall, text, tool}

-- The fields of `Config` that concern the window.
pub record WindowConfig : Type 0 where
  pub fallback : ℤ
  pub override : ℤ
  pub window : ℤ
  pub window_reported : Bool

-- The errors that wrap ErrContextWindowConfig, and then ErrContextWindowExceeded.
pub data WindowError : Type 0 where
  negative both_set : WindowError
  override_too_large : ℤ → ℤ → WindowError
  exceeded : ℤ → ℤ → WindowError

pub data Outcome {ℓ} (A : Type ℓ) : Type ℓ where
  ok : A → Outcome A
  refused : WindowError → Outcome A

abbrev pub positive : ℤ → Bool
positive z = ltb_ℤ (pos 0) z

abbrev pub below_zero : ℤ → Bool
below_zero z = ltb_ℤ z (pos 0)

-- The error of `checkWindowConfig`, if there is one.
unfoldable pub check_window_config : WindowConfig → Option WindowError
check_window_config cfg =
    if below_zero cfg.fallback || below_zero cfg.override
    then some negative
    else if positive cfg.fallback && positive cfg.override
    then some both_set
    else none

-- The warning names the reason and the setting that is used.
pub data Warning : Type 0 where
  override_unchecked fallback_used : Warning

pub record ContextWindowEvent (E : Type 0) : Type 0 where
  pub window : ℤ
  pub reported : ℤ
  pub from_model_list : Bool
  pub from_fallback : Bool
  pub overridden : Bool
  pub warning : Option (Warning × Option E)
  pub served : Text
  pub error : Option E

-- The answer of ModelLimitsOf: no list, an error, or the window that is published.
pub data LimitsAnswer (E : Type 0) : Type 0 where
  no_list : LimitsAnswer E
  failed : E → LimitsAnswer E
  limits : ℤ → LimitsAnswer E

-- Why no window was reported.
pub data ReportError (E : Type 0) : Type 0 where
  no_window_list : ReportError E
  reading : Text → E → ReportError E
  unpublished : Text → ReportError E

module _ (E : Type 0) where
  abbrev window_of : Text → LimitsAnswer E → ℤ × Option (ReportError E)
  window_of model no_list = (pos 0, some no_window_list)
  window_of model (failed e) = (pos 0, some (reading model e))
  window_of model (limits n) = if positive n then (n, none) else (pos 0, some (unpublished model))

  abbrev Lookup : Type 0 → Type 0
  Lookup W = Text → W → LimitsAnswer E × W

  pub reported_window : {W : Type 0} → Lookup W → Text → W → (ℤ × Option (ReportError E)) × W
  reported_window ask model w = (window_of model (ask model w).0, (ask model w).1)

  abbrev pub Event : Type 0
  Event = ContextWindowEvent (ReportError E)

  abbrev plain_event : Text → ℤ → ℤ → Event
  plain_event served reported window = record {
    window = window;
    reported = reported;
    from_model_list = false;
    from_fallback = false;
    overridden = false;
    warning = none;
    served = served;
    error = none;
  }

  abbrev settle : WindowConfig → Bool → Event → Outcome (WindowConfig × Event)
  settle cfg known ev = ok (record cfg { window = ev.window; window_reported = known }, ev)

  -- The new settings and the event that the host is told.
  pub apply_window :
      WindowConfig → ℤ → Option (ReportError E) → Text → Outcome (WindowConfig × Event)
  apply_window cfg reported err served =
      let ev = plain_event served reported in
      if positive reported && ltb_ℤ reported cfg.override
      then refused (override_too_large cfg.override reported)
      else if positive reported && positive cfg.override
      then settle cfg (positive reported) (record (ev cfg.override) { overridden = true })
      else if positive reported
      then settle cfg (positive reported) (record (ev reported) { from_model_list = true })
      else if positive cfg.override
      then settle cfg (positive reported)
          (record (ev cfg.override) { overridden = true; warning = some (override_unchecked, err) })
      else if positive cfg.fallback
      then settle cfg (positive reported)
          (record (ev cfg.fallback) { from_fallback = true; warning = some (fallback_used, err) })
      else settle cfg (positive reported) (record (ev (pos 0)) { error = err })

  unfoldable pub wants_window : WindowConfig → Bool → Bool
  wants_window cfg armed = armed || positive cfg.override || positive cfg.fallback

  -- `armed` is req.AutoCompact > 0.
  abbrev applied :
      {W : Type 0}
      → WindowConfig
      → (ℤ × Option (ReportError E)) × W
      → Outcome (WindowConfig × Option Event) × W
  applied cfg ((reported, err), w) = (told (apply_window cfg reported err []), w)
    where
      told : Outcome (WindowConfig × Event) → Outcome (WindowConfig × Option Event)
      told (ok (c, ev)) = ok (c, some ev)
      told (refused e) = refused e

  unfoldable pub resolve_context_window :
      {W : Type 0}
      → Lookup W
      → WindowConfig
      → Bool
      → Text
      → W
      → Outcome (WindowConfig × Option Event) × W
  unfolding wants_window reported_window apply_window
  resolve_context_window ask cfg armed model w =
      if wants_window cfg armed
      then applied cfg (reported_window ask model w)
      else (ok (cfg, none), w)

-- `servedNames`: the routed name, then the body's, without repeats and without the requested one.
unfoldable pub served_names : Text → Text → Text → List Text
served_names requested routed model =
    let first = not (is_nil routed) && not (text_eq routed requested) in
    let second =
      not (is_nil model) && not (text_eq model requested) && not (first && text_eq routed model) in
    (if first then routed ∷ [] else []) ++ (if second then model ∷ [] else [])

abbrev pub thinking_chars : List ThinkingBlock → ℕ
thinking_chars [] = 0
thinking_chars (b ∷ bs) = length b.text + thinking_chars bs

abbrev pub argument_chars : List ToolCall → ℕ
argument_chars [] = 0
argument_chars (c ∷ cs) = length c.arguments + argument_chars cs

-- `outputChars` of statecheck.go.
pub output_chars : Message → ℕ
output_chars m = length m.content + thinking_chars m.thinking_blocks + argument_chars m.tool_calls

abbrev pub total_chars : List Message → ℕ
unfolding output_chars
total_chars [] = 0
total_chars (m ∷ ms) = output_chars m + total_chars ms

abbrev pub estimate_chars_per_token : ℕ
estimate_chars_per_token = 3

-- The fields of the last completion: whether its usage was reported, and its prompt tokens.
pub record LastCall : Type 0 where
  pub usage_reported : Bool
  pub prompt_tokens : ℤ

unfoldable pub next_prompt_estimate : Option LastCall → List Message → ℤ
next_prompt_estimate none appended = pos 0
next_prompt_estimate (some last) appended =
    if last.usage_reported
    then last.prompt_tokens +ℤ pos (total_chars appended / estimate_chars_per_token)
    else pos 0

module _ {W : Type 0} (compact_now : W → Bool × W) where
  abbrev after_compaction : ℤ → ℤ → Bool × W → Outcome Bool × W
  after_compaction est window (true, w) = (ok true, w)
  after_compaction est window (false, w) = (refused (exceeded est window), w)

  abbrev over_window : Bool → ℤ → ℤ → W → Outcome Bool × W
  over_window true est window w = after_compaction est window (compact_now w)
  over_window false est window w = (refused (exceeded est window), w)

  -- `sent` is how many messages of the transcript the last call carried.
  unfoldable pub cap_to_window :
      WindowConfig → Bool → List Message → Option LastCall → ℕ → W → Outcome Bool × W
  unfolding next_prompt_estimate
  cap_to_window cfg armed transcript last sent w =
      let est = next_prompt_estimate last (drop sent transcript) in
      if not (positive cfg.window) || ltb (length transcript) sent
      then (ok false, w)
      else if ltb_ℤ est cfg.window
      then (ok false, w)
      else over_window armed est cfg.window w
