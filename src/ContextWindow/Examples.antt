-- ===== src/ContextWindow/Examples.antt =====
-- An override below the reported window, and a transcript that has grown past the window.
use agentic_loop.Prelude.{true, ℕ, none, Bool, ◌∷◌, [], ◌+◌, some}
use agentic_loop.Prelude.Int.{pos}
use agentic_loop.Message.{user, empty_message}
use agentic_loop.ContextWindow.{WindowConfig, apply_window, LastCall, cap_to_window}
use agentic_loop.ContextWindow.Bounds.{Settled, apply_window-Settled, Capped, cap_to_window-Capped}

abbrev capped_config : WindowConfig
capped_config = record {
  fallback = pos 0;
  override = pos 100;
  window = pos 100;
  window_reported = true;
}

apply_window-Settled_example :
    Settled capped_config (pos 200) (apply_window ℕ capped_config (pos 200) none [])
apply_window-Settled_example = apply_window-Settled capped_config (pos 200) none []

abbrev last_call : LastCall
last_call = record { usage_reported = true; prompt_tokens = pos 100 }

-- A compaction that succeeds.
abbrev compacts : ℕ → Bool × ℕ
compacts n = (true, n + 1)

cap_to_window-Capped_example :
    Capped compacts capped_config true
      (empty_message user ∷ [])
      (some last_call)
      1
      0
      (cap_to_window compacts capped_config true (empty_message user ∷ []) (some last_call) 1 0)
cap_to_window-Capped_example =
    cap_to_window-Capped compacts capped_config true (empty_message user ∷ []) (some last_call) 1 0
