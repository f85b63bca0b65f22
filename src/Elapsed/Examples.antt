-- ===== src/Elapsed/Examples.antt =====
-- A minute and a half.
use agentic_loop.Prelude.{◌≤◌, decimal, length, arith, ◌≡◌, codes, refl}
use agentic_loop.Elapsed.{elapsed_units, elapsed_parts, format_elapsed}
use agentic_loop.Elapsed.Units.{Exact, elapsed_parts_lem}

elapsed_parts_lem_example :
    (1 ≤ length (elapsed_parts 2 90_000_000_000 elapsed_units))
    × (length (elapsed_parts 2 90_000_000_000 elapsed_units) ≤ 2)
    × Exact 90_000_000_000 (elapsed_parts 2 90_000_000_000 elapsed_units)
elapsed_parts_lem_example = elapsed_parts_lem 90_000_000_000 (omega arith)

format_elapsed_text : format_elapsed 90_000_000_000 ≡ codes "1min 30secs"
unfolding format_elapsed decimal
format_elapsed_text = refl
