-- ===== src/TextDiff.antt =====
-- internal/loop/textdiff.go: the line diff. Lines are texts, an edit script is a list of operations.
pub mod Table
pub mod Lcs
pub mod Script
pub mod Minimal
pub mod Hunks
use mathlib.Core.List.{reverse}
use agentic_loop.Prelude.{
  ℕ, zero, suc, ◌+◌, ◌-◌, ◌*◌, Bool, true, false, ◌||◌, List, [], ◌∷◌, ◌++◌, map, Text, text_eq,
  length, take, drop, get_or, is_nil, ltb, leb, if◌then◌else◌,
}

abbrev pub diff_context_lines : ℕ
diff_context_lines = 3

abbrev pub diff_max_lines : ℕ
diff_max_lines = 20_000

abbrev pub diff_max_cells : ℕ
diff_max_cells = 4_000_000

-- The three values of a `diffOp`'s kind: ' ', '-' and '+'.
pub data OpKind : Type 0 where
  kept deleted added : OpKind

pub record DiffOp : Type 0 where
  pub kind : OpKind
  pub text : Text

abbrev pub keep : Text → DiffOp
keep l = record { kind = kept; text = l }

abbrev pub delete : Text → DiffOp
delete l = record { kind = deleted; text = l }

abbrev pub add : Text → DiffOp
add l = record { kind = added; text = l }

pub replace_ops : List Text → List Text → List DiffOp
replace_ops a b = map delete a ++ map add b

-- `dp[i][j]` for `a[i] = x` and `b[j] = y`, from the cells below-right, below and to the right.
abbrev cell : Text → Text → ℕ → ℕ → ℕ → ℕ
cell x y below_right below right =
    if text_eq x y then below_right + 1 else if leb right below then below else right

-- A row from its column `j` on, over the same columns of the row below it. The inner loop runs from
-- the last column down, so a row is built from its end; its last cell stays 0.
pub dp_row : Text → List Text → List ℕ → List ℕ
dp_row x [] below = 0 ∷ []
dp_row x (y ∷ b) [] = []
dp_row x (y ∷ b) (d ∷ below) =
    let right = dp_row x b below in cell x y (get_or below 0 0) d (get_or right 0 0) ∷ right

zeros : List Text → List ℕ
zeros [] = 0 ∷ []
zeros (y ∷ b) = 0 ∷ zeros b

-- The rows from `i` on; the outer loop runs from the last row up.
pub dp_table : List Text → List Text → List (List ℕ)
dp_table [] b = zeros b ∷ []
dp_table (x ∷ a) b = let below = dp_table a b in dp_row x b (get_or below 0 []) ∷ below

abbrev pub dp_at : List (List ℕ) → ℕ → ℕ → ℕ
dp_at dp i j = get_or (get_or dp i []) j 0

-- The walk from the top left corner, over `a[i:]` and `b[j:]`.
pub walk : List (List ℕ) → ℕ → ℕ → List Text → List Text → List DiffOp
walk dp i j [] b = map add b
walk dp i j (x ∷ a) [] = map delete (x ∷ a)
walk dp i j (x ∷ a) (y ∷ b) = elim (text_eq x y) [
  | true ↦ keep x ∷ walk dp (i + 1) (j + 1) a b
  | false ↦ elim (leb (dp_at dp i (j + 1)) (dp_at dp (i + 1) j)) [
    | true ↦ delete x ∷ walk dp (i + 1) j a (y ∷ b)
    | false ↦ add y ∷ walk dp i (j + 1) (x ∷ a) b
  ]
]

pub lcs_ops : List Text → List Text → List DiffOp
lcs_ops a b = if is_nil a || is_nil b then replace_ops a b else walk (dp_table a b) 0 0 a b

-- The first loop of `diffOps` counts the lines that both sides begin with.
pub common_prefix : List Text → List Text → ℕ
common_prefix [] b = 0
common_prefix (x ∷ a) [] = 0
common_prefix (x ∷ a) (y ∷ b) = if text_eq x y then suc (common_prefix a b) else 0

-- The second loop reads both sides from their ends, past the prefix.
pub common_suffix : List Text → List Text → ℕ
common_suffix a b = common_prefix (reverse a) (reverse b)

abbrev pub middle_ops : List Text → List Text → List DiffOp
middle_ops ma mb =
    if ltb diff_max_cells (length ma * length mb) then replace_ops ma mb else lcs_ops ma mb

pub diff_ops : List Text → List Text → List DiffOp
diff_ops a b =
    let p = common_prefix a b in
    let s = common_suffix (drop p a) (drop p b) in
    let ma = take (length a - s - p) (drop p a) in
    let mb = take (length b - s - p) (drop p b) in
    map keep (take p a) ++ middle_ops ma mb ++ map keep (drop (length a - s) a)
