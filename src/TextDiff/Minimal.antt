-- ===== src/TextDiff/Minimal.antt =====
-- No edit script keeps more lines than the one that `lcsOps` walks out of its table.
use mathlib.Core.Path.{ap₂}
use agentic_loop.Prelude.{
  Text, List, ◌∷◌, map, ℕ, ◌++◌, drop, ◌≡◌, [], length, ◌+◌, append-nil, ◌≤◌, arith, ◌∙◌, suc, refl,
  zero,
}
use agentic_loop.Prelude.{List, [], ◌∷◌, Text, map, ◌++◌, length, drop}
use agentic_loop.TextDiff.{
  kept, deleted, added, OpKind, DiffOp, delete, add, walk, lcs_ops, replace_ops, dp_table, dp_at,
}
use agentic_loop.TextDiff.Table.{lcs_length, dp_at-lcs_length, lcs_length-cons, lcs_length-cons}
use agentic_loop.TextDiff.Lcs.{Subsequence, done, skip, take, Subsequence-le-lcs_length}
use agentic_loop.TextDiff.Script.{Edits, old_lines, new_lines, old_line, new_line}

abbrev kept_line : OpKind → Text → List Text → List Text
kept_line kept l rest = l ∷ rest
kept_line deleted l rest = rest
kept_line added l rest = rest

-- The lines that a script leaves alone.
abbrev pub kept_lines : List DiffOp → List Text
kept_lines [] = []
kept_lines (op ∷ ops) = kept_line op.kind op.text (kept_lines ops)

kept-Subsequence :
    (ops : List DiffOp)
    → Subsequence (kept_lines ops) (old_lines ops) × Subsequence (kept_lines ops) (new_lines ops)
kept-Subsequence [] = (done, done)
kept-Subsequence (op ∷ ops) = step op.kind op.text (kept-Subsequence ops)
  where
    step :
        (k : OpKind) (l : Text)
        → Subsequence (kept_lines ops) (old_lines ops)
          × Subsequence (kept_lines ops) (new_lines ops)
        → Subsequence (kept_line k l (kept_lines ops)) (old_line k l (old_lines ops))
          × Subsequence (kept_line k l (kept_lines ops)) (new_line k l (new_lines ops))
    step kept l (p, q) = (take l p, take l q)
    step deleted l (p, q) = (skip l p, q)
    step added l (p, q) = (p, skip l q)

kept-replace : (a b : List Text) → kept_lines (map delete a ++ map add b) ≡ []
kept-replace [] [] = refl
kept-replace [] (y ∷ b) = kept-replace [] b
kept-replace (x ∷ a) b = kept-replace a b

drop_next :
    (i : ℕ) (l : List Text) (x : Text) (a : List Text) → drop i l ≡ x ∷ a → drop (i + 1) l ≡ a
drop_next zero [] x a e = cc
drop_next zero (y ∷ l) x a e = ground arith
drop_next (suc i) [] x a e = cc
drop_next (suc i) (y ∷ l) x a e = ground (arith, drop_next i l x a e)

-- The walk from (i, j) keeps as many lines as the table promises there.
walk_kept :
    (a0 b0 : List Text) (i j : ℕ) (a b : List Text)
    → drop i a0 ≡ a
    → drop j b0 ≡ b
    → length (kept_lines (walk (dp_table a0 b0) i j a b)) ≡ lcs_length a b
unfolding walk
walk_kept a0 b0 i j [] b ea eb = rw (kept-replace [] b) (unfold lcs_length in refl)
walk_kept a0 b0 i j (x ∷ a) [] ea eb =
    rw (← append-nil (map delete a), kept-replace a []) (unfold lcs_length in refl)
walk_kept a0 b0 i j (x ∷ a) (y ∷ b) ea eb =
    let na = drop_next i a0 x a ea in
    let nb = drop_next j b0 y b eb in
    let right : dp_at (dp_table a0 b0) i (j + 1) ≡ lcs_length (x ∷ a) b =
      dp_at-lcs_length a0 b0 i (j + 1) ∙ ap₂ lcs_length ea nb in
    let below : dp_at (dp_table a0 b0) (i + 1) j ≡ lcs_length a (y ∷ b) =
      dp_at-lcs_length a0 b0 (i + 1) j ∙ ap₂ lcs_length na eb in
    ground (
      arith,
      lcs_length-cons x y a b,
      right,
      below,
      walk_kept a0 b0 (i + 1) (j + 1) a b na nb,
      walk_kept a0 b0 (i + 1) j a (y ∷ b) na eb,
      walk_kept a0 b0 i (j + 1) (x ∷ a) b ea nb,
    )

lcs_ops_kept : (a b : List Text) → length (kept_lines (lcs_ops a b)) ≡ lcs_length a b
unfolding lcs_ops replace_ops
lcs_ops_kept [] b = rw (kept-replace [] b) (unfold lcs_length in refl)
lcs_ops_kept (x ∷ a) [] = rw (kept-replace (x ∷ a) []) (unfold lcs_length in refl)
lcs_ops_kept (x ∷ a) (y ∷ b) = walk_kept (x ∷ a) (y ∷ b) 0 0 (x ∷ a) (y ∷ b) refl refl

-- No edit script from `a` to `b`, however it was found, leaves more lines alone than the one that
-- `lcsOps` returns.
pub lcs_ops_minimal :
    (a b : List Text) (ops : List DiffOp)
    → Edits a b ops
    → length (kept_lines ops) ≤ length (kept_lines (lcs_ops a b))
lcs_ops_minimal a b ops e =
    let (p, q) = kept-Subsequence ops in
    rw lcs_ops_kept (Subsequence-le-lcs_length a b (kept_lines ops) (rw e.old at p) (rw e.new at q))
