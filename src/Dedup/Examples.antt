-- ===== src/Dedup/Examples.antt =====
-- A read-only tool that gives the same output twice.
use agentic_loop.Prelude.{
  codes, Text, ℕ, List, text_eq, [], if◌then◌else◌, ◌∷◌, true, false, ◌≡◌, none, ◌+◌, arith, refl,
}
use agentic_loop.Prelude.Dict.{lookup, put, remove}
use agentic_loop.Message.{ToolDecl}
use agentic_loop.Tools.{ToolResult}
use agentic_loop.Dedup.{new_output_deduper, collapse, unchanged_marker, lookup, put, remove}
use agentic_loop.Dedup.Invariant.{IsValid, new-IsValid, collapse-IsValid}
use agentic_loop.Dedup.Memory.{run, repeat_collapses}
use agentic_loop.Dedup.Honesty.{Shown, marker_honest}

abbrev read_file : ToolDecl
read_file = record {
  name = codes "r";
  description = [];
  input_schema = [];
  readonly = true;
  destructive = none;
  idempotent = false;
  open_world = none;
  unvouched = false;
}

abbrev output : ToolResult
output = record { content = codes "a"; parts = []; is_error = false }

-- A digest of one byte that tells this output from others.
abbrev digest : Text → Text
digest t = (if text_eq t (codes "a") then 1 else 0) ∷ []

collapse-IsValid_example : IsValid (collapse digest read_file output new_output_deduper).2
collapse-IsValid_example = collapse-IsValid digest read_file output new_output_deduper new-IsValid

repeat_collapses_example :
    (n : ℕ) × ((collapse digest read_file output
        (run digest [] (collapse digest read_file output new_output_deduper).2)).1
      ≡ true)
    × ((collapse digest read_file output
          (run digest [] (collapse digest read_file output new_output_deduper).2)).0
        ≡ unchanged_marker (codes "r") (n + 1))
unfolding collapse new_output_deduper lookup
repeat_collapses_example =
    repeat_collapses digest new_output_deduper read_file output output [] new-IsValid refl refl
      (omega arith) refl refl

abbrev earlier : List (ToolDecl × ToolResult)
earlier = (read_file, output) ∷ []

marker_honest_example : Shown read_file output earlier
unfolding collapse new_output_deduper run lookup put remove text_eq
marker_honest_example =
    marker_honest digest (λ a b. refl) read_file output earlier ((λ _. refl), tt) refl
