-- ===== src/TextDiff/Hunks/Counts.antt =====
-- The summary of `CountLineChanges` against the numbers of lines.
use agentic_loop.Prelude.{List, [], ◌∷◌, ◌+◌, ◌≡◌, Text, length, arith, ap, refl}
use agentic_loop.TextDiff.{DiffOp, diff_ops}
use agentic_loop.TextDiff.Script.{old_lines, new_lines, diff_ops-Edits}
use agentic_loop.TextDiff.Hunks.{
  count_added, count_removed, count_line_changes, count_lines, split_diff_lines,
}

counts_balance :
    (ops : List DiffOp)
    → length (old_lines ops) + count_added ops ≡ length (new_lines ops) + count_removed ops
unfolding count_added count_removed
counts_balance [] = refl
counts_balance (op ∷ ops) = ground (arith, counts_balance ops)

-- The lines before, and those counted as added, are as many as the lines after and those counted as
-- removed.
pub count_line_changes_balance :
    (before after : Text)
    → count_lines before + (count_line_changes before after).0
      ≡ count_lines after + (count_line_changes before after).1
unfolding count_line_changes count_lines
count_line_changes_balance before after =
    let a = split_diff_lines before in
    let b = split_diff_lines after in
    let e = diff_ops-Edits a b in
    omega (arith, counts_balance (diff_ops a b), ap length e.old, ap length e.new)
