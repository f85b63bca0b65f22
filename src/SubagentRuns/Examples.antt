-- ===== src/SubagentRuns/Examples.antt =====
-- A launch that reports and one that is lost.
use agentic_loop.Prelude.{List, ℕ, codes, ◌∷◌, [], false}
use agentic_loop.SubagentRuns.World.{
  Op, launch_op, mark_running_op, complete_op, take_op, cancel_op, perform_all, start, IsBalanced,
}
use agentic_loop.SubagentRuns.Lifecycle.{every_run_accounted}

abbrev a_turn : List (Op ℕ)
a_turn =
    launch_op (codes "a") (codes "look") (codes "find it") 5
    ∷ launch_op (codes "b") [] [] 6
    ∷ mark_running_op (codes "a")
    ∷ complete_op (codes "a") (codes "found") false (7 ∷ []) 9
    ∷ take_op
    ∷ cancel_op
    ∷ []

every_run_accounted_example : IsBalanced ℕ (perform_all ℕ a_turn (start ℕ))
every_run_accounted_example = every_run_accounted ℕ a_turn
