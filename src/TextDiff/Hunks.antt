-- ===== src/TextDiff/Hunks.antt =====
-- The second half of textdiff.go: hunks, their headers, and the whole diff as text.
pub mod Cover
pub mod Headers
pub mod Counts
mod Examples
use agentic_loop.Prelude.{
  List, Bool, ℕ, Text, decimal, false, ◌∷◌, ◌-◌, take, codes, length, text_eq, true, ◌+◌,
  if◌then◌else◌, drop, ◌++◌, [], suc, ◌==◌, leb, ltb, zero, ◌*◌, ◌||◌, is_nil, ◌≡◌, refl,
}
use Prim.Native.Nat.{min}
use mathlib.Core.List.{flat_map}
use agentic_loop.TextDiff.{
  OpKind, kept, deleted, added, DiffOp, replace_ops, diff_ops, diff_context_lines, diff_max_lines,
}

abbrev is_change : OpKind → Bool
is_change kept = false
is_change deleted = true
is_change added = true

-- The indices of the changes, the first operation having index `i`.
pub change_indices : ℕ → List DiffOp → List ℕ
change_indices i [] = []
change_indices i (op ∷ ops) =
    let rest = change_indices (i + 1) ops in if is_change op.kind then i ∷ rest else rest

-- `oldAt[i]` and `newAt[i]`: the old and the new lines among the first `i` operations.
abbrev old_unit : OpKind → ℕ
old_unit kept = 1
old_unit deleted = 1
old_unit added = 0

abbrev new_unit : OpKind → ℕ
new_unit kept = 1
new_unit deleted = 0
new_unit added = 1

pub old_at : List DiffOp → ℕ → ℕ
old_at [] i = 0
old_at (op ∷ ops) zero = 0
old_at (op ∷ ops) (suc i) = old_unit op.kind + old_at ops i

pub new_at : List DiffOp → ℕ → ℕ
new_at [] i = 0
new_at (op ∷ ops) zero = 0
new_at (op ∷ ops) (suc i) = new_unit op.kind + new_at ops i

-- What one round of the loop over the changes computes before it prints.
pub record Hunk : Type 0 where
  pub start : ℕ
  pub end : ℕ
  pub old_start : ℕ
  pub old_count : ℕ
  pub new_start : ℕ
  pub new_count : ℕ

-- `start` is clamped at 0, as subtraction on ℕ is.
pub hunk_of : List DiffOp → ℕ → ℕ → Hunk
hunk_of ops first last =
    let start = first - diff_context_lines in
    let end = min (last + diff_context_lines + 1) (length ops) in
    let old_count = old_at ops end - old_at ops start in
    let new_count = new_at ops end - new_at ops start in
    record {
      start = start;
      end = end;
      old_start = if old_count == 0 then old_at ops start else old_at ops start + 1;
      old_count = old_count;
      new_start = if new_count == 0 then new_at ops start else new_at ops start + 1;
      new_count = new_count;
    }

-- The loop over the changes: `first` and `last` are the changes of the hunk under way, and a change
-- joins it if their contexts touch or overlap.
pub group_from : List DiffOp → ℕ → ℕ → List ℕ → List Hunk
unfolding hunk_of
group_from ops first last [] = hunk_of ops first last ∷ []
group_from ops first last (c ∷ cs) =
    let joined = group_from ops first c cs in
    let apart = hunk_of ops first last ∷ group_from ops c c cs in
    if leb (c - last) (2 * diff_context_lines) then joined else apart

pub group : List DiffOp → List ℕ → List Hunk
unfolding group_from
group ops [] = []
group ops (c ∷ cs) = group_from ops c c cs

pub hunks : List DiffOp → List Hunk
unfolding group change_indices
hunks ops = group ops (change_indices 0 ops)

abbrev pub slice : ℕ → ℕ → List DiffOp → List DiffOp
slice start end ops = take (end - start) (drop start ops)

abbrev kind_byte : OpKind → ℕ
kind_byte kept = b' '
kind_byte deleted = b'-'
kind_byte added = b'+'

render_ops : List DiffOp → Text
render_ops [] = []
render_ops (op ∷ ops) = kind_byte op.kind ∷ (op.text ++ b'\n' ∷ render_ops ops)

render_hunk : List DiffOp → Hunk → Text
unfolding render_ops
render_hunk ops h =
    codes "@@ -"
    ++ decimal h.old_start
    ++ codes ","
    ++ decimal h.old_count
    ++ codes " +"
    ++ decimal h.new_start
    ++ codes ","
    ++ decimal h.new_count
    ++ codes " @@\n"
    ++ render_ops (slice h.start h.end ops)

-- `strings.TrimSuffix(s, "\n")`.
pub trim_newline : Text → Text
trim_newline [] = []
trim_newline (c ∷ []) = if c == b'\n' then [] else c ∷ []
trim_newline (c ∷ d ∷ s) = c ∷ trim_newline (d ∷ s)

pub render_hunks : List DiffOp → Text
unfolding render_hunk trim_newline hunks
render_hunks ops = trim_newline (flat_map (render_hunk ops) (hunks ops))

-- `strings.Split(s, "\n")` over the bytes read, with the current piece.
split_from : Text → Text → List Text
split_from cur [] = cur ∷ []
split_from cur (c ∷ s) =
    let cut = cur ∷ split_from [] s in
    let on = split_from (cur ++ c ∷ []) s in if c == b'\n' then cut else on

pub split_diff_lines : Text → List Text
unfolding split_from trim_newline
split_diff_lines [] = []
split_diff_lines (c ∷ s) = split_from [] (trim_newline (c ∷ s))

too_large : List Text → List Text → Text
too_large a b =
    codes "(diff too large for a line diff: "
    ++ decimal (length a)
    ++ codes " -> "
    ++ decimal (length b)
    ++ codes " lines; showing a whole-file replacement)\n"

pub unified_diff : Text → Text → Text → Text → Text
unified_diff from_label to_label old_text new_text =
    let a = split_diff_lines old_text in
    let b = split_diff_lines new_text in
    let header = codes "--- " ++ from_label ++ codes "\n+++ " ++ to_label ++ codes "\n" in
    let body = render_hunks (diff_ops a b) in
    if text_eq old_text new_text
    then []
    else if ltb diff_max_lines (length a) || ltb diff_max_lines (length b)
    then header ++ too_large a b ++ render_hunks (replace_ops a b)
    else if is_nil body
    then []
    else header ++ body

count_added : List DiffOp → ℕ
count_added [] = 0
count_added (op ∷ ops) = elim op.kind [ added ↦ suc (count_added ops) | _ ↦ count_added ops ]

count_removed : List DiffOp → ℕ
count_removed [] = 0
count_removed (op ∷ ops) = elim op.kind [
  | deleted ↦ suc (count_removed ops)
  | _ ↦ count_removed ops
]

pub count_line_changes : Text → Text → ℕ × ℕ
unfolding count_added count_removed
count_line_changes before after =
    let ops = diff_ops (split_diff_lines before) (split_diff_lines after) in
    (count_added ops, count_removed ops)

pub count_lines : Text → ℕ
count_lines s = length (split_diff_lines s)
