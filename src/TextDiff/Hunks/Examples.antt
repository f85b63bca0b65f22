-- ===== src/TextDiff/Hunks/Examples.antt =====
-- Runs of the diff, and its theorems at concrete files.
use mathlib.Core.List.{flat_map}
use agentic_loop.Prelude.{
  ℕ, List, [], ◌∷◌, ◌+◌, ◌≡◌, ◌≤◌, refl, Text, codes, text_eq, decimal, length, All,
}
use agentic_loop.TextDiff.{
  DiffOp, keep, delete, add, diff_ops, common_prefix, common_suffix, lcs_ops, walk, dp_table,
  dp_row, zeros,
}
use agentic_loop.TextDiff.Script.{Edits, diff_ops-Edits}
use agentic_loop.TextDiff.Minimal.{kept_lines, lcs_ops_minimal}
use agentic_loop.TextDiff.Hunks.{
  unified_diff, split_diff_lines, render_hunks, old_at, new_at, hunks, count_lines,
  count_line_changes,
}
use agentic_loop.TextDiff.Hunks.Cover.{Apart, Covered, IsChangeAt, hunks_cover}
use agentic_loop.TextDiff.Hunks.Headers.{HeaderMatches, hunks-HeaderMatches}
use agentic_loop.TextDiff.Hunks.Counts.{count_line_changes_balance}

diff_example :
    unified_diff (codes "a") (codes "b") (codes "x\ny\nz\n") (codes "x\nw\nz\nv")
    ≡ codes "--- a\n+++ b\n@@ -1,3 +1,4 @@\n x\n-y\n+w\n z\n+v"
unfolding unified_diff split_diff_lines render_hunks diff_ops decimal text_eq flat_map common_prefix
    common_suffix lcs_ops walk dp_table dp_row zeros old_at new_at
diff_example = refl

abbrev before : List Text
before = codes "x" ∷ codes "y" ∷ codes "z" ∷ []

abbrev after : List Text
after = codes "x" ∷ codes "w" ∷ codes "z" ∷ codes "v" ∷ []

abbrev rewrite_all : List DiffOp
rewrite_all =
    delete (codes "x")
    ∷ delete (codes "y")
    ∷ delete (codes "z")
    ∷ add (codes "x")
    ∷ add (codes "w")
    ∷ add (codes "z")
    ∷ add (codes "v")
    ∷ []

abbrev small_script : List DiffOp
small_script = keep (codes "x") ∷ delete (codes "y") ∷ add (codes "w") ∷ keep (codes "z") ∷ []

diff_ops-Edits_example : Edits before after (diff_ops before after)
diff_ops-Edits_example = diff_ops-Edits before after

lcs_ops_minimal_example :
    length (kept_lines rewrite_all) ≤ length (kept_lines (lcs_ops before after))
lcs_ops_minimal_example =
    lcs_ops_minimal before after rewrite_all (record { old = refl; new = refl })

hunks_cover_example :
    Apart 0 4 (hunks small_script)
    × ((d : ℕ) → IsChangeAt small_script d → Covered d (hunks small_script))
hunks_cover_example = hunks_cover small_script

hunks-HeaderMatches_example : All (HeaderMatches small_script) (hunks small_script)
hunks-HeaderMatches_example = hunks-HeaderMatches small_script

count_line_changes_balance_example :
    count_lines (codes "x\ny") + (count_line_changes (codes "x\ny") (codes "x")).0
    ≡ count_lines (codes "x") + (count_line_changes (codes "x\ny") (codes "x")).1
count_line_changes_balance_example = count_line_changes_balance (codes "x\ny") (codes "x")
