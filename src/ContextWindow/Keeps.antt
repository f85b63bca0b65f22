-- ===== src/ContextWindow/Keeps.antt =====
-- The cap on the window leaves the world alone, or hands it to the compaction.
use agentic_loop.Prelude.{
  inl, inr, List, ℕ, Bool, Option, true, Bool-cases, false, not, ◌||◌, ltb, length, inl, drop,
}
use agentic_loop.Prelude.Int.{ℤ, ltb_ℤ}
use agentic_loop.Message.{Message}
use agentic_loop.ContextWindow.{
  WindowConfig, LastCall, cap_to_window, after_compaction, over_window, next_prompt_estimate,
  positive,
}

module _ {ℓ} {W : Type 0} (P : W → Type ℓ) (compact_now : W → Bool × W) where
  after_compaction_lem :
      (est window : ℤ) (p : Bool × W) → P p.1 → P (after_compaction compact_now est window p).1
  after_compaction_lem est window (true, l) h = h
  after_compaction_lem est window (false, l) h = h

  over_window_lem :
      (armed : Bool) (est window : ℤ) (w : W)
      → P w
      → P (compact_now w).1
      → P (over_window compact_now armed est window w).1
  over_window_lem true est window w h h' = after_compaction_lem est window (compact_now w) h'
  over_window_lem false est window w h h' = h

  pub cap_keeps :
      (cfg : WindowConfig) (armed : Bool) (transcript : List Message) (last : Option LastCall)
      (sent : ℕ) (w : W)
      → P w
      → P (compact_now w).1
      → P (cap_to_window compact_now cfg armed transcript last sent w).1
  unfolding cap_to_window
  cap_keeps cfg armed transcript last sent w h h' =
      elim (Bool-cases (not (positive cfg.window) || ltb (length transcript) sent)) [
        | inl e ↦ rw e h
        | inr e ↦
            rw e
              (elim (Bool-cases
                (ltb_ℤ (next_prompt_estimate last (drop sent transcript)) cfg.window)) [
                  | inl f ↦ rw f h
                  | inr f ↦ rw f (over_window_lem armed _ cfg.window w h h')
                ])
      ]
