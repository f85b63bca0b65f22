-- ===== src/TextDiff/Table.antt =====
-- The dynamic program of `lcsOps` holds, at row i and column j, the recursive LCS length of a[i:]
-- and b[j:].
use agentic_loop.Prelude.{
  ℕ, zero, suc, ◌+◌, ◌≡◌, refl, ap, List, [], ◌∷◌, Text, text_eq, drop, get_or, leb, if◌then◌else◌,
  sym,
}
use agentic_loop.TextDiff.{dp_row, zeros, dp_table, dp_at}

unfoldable pub lcs_length : List Text → List Text → ℕ
lcs_length [] b = 0
lcs_length (x ∷ a) [] = 0
lcs_length (x ∷ a) (y ∷ b) =
    let both = lcs_length a b in
    let below = lcs_length a (y ∷ b) in
    let right = lcs_length (x ∷ a) b in
    if text_eq x y then both + 1 else if leb right below then below else right

-- The row of `a`, from the column of `b` on.
row : List Text → List Text → List ℕ
row a [] = lcs_length a [] ∷ []
row a (y ∷ b) = lcs_length a (y ∷ b) ∷ row a b

rows : List Text → List Text → List (List ℕ)
rows [] b = row [] b ∷ []
rows (x ∷ a) b = row (x ∷ a) b ∷ rows a b

zeros-row : (b : List Text) → zeros b ≡ row [] b
unfolding zeros row lcs_length
zeros-row [] = refl
zeros-row (y ∷ b) = ap (λ r. 0 ∷ r) (zeros-row b)

first-row : (a b : List Text) → get_or (row a b) 0 0 ≡ lcs_length a b
unfolding row
first-row a [] = refl
first-row a (y ∷ b) = refl

dp_row-row : (x : Text) (a b : List Text) → dp_row x b (row a b) ≡ row (x ∷ a) b
unfolding dp_row row
dp_row-row x a [] = unfold lcs_length in refl
dp_row-row x a (y ∷ b) =
    rw (dp_row-row x a b, first-row a b, first-row (x ∷ a) b) (unfold lcs_length in refl)

first-rows : (a b : List Text) → get_or (rows a b) 0 [] ≡ row a b
unfolding rows
first-rows [] b = refl
first-rows (x ∷ a) b = refl

dp_table-rows : (a b : List Text) → dp_table a b ≡ rows a b
unfolding dp_table rows
dp_table-rows [] b = rw zeros-row
dp_table-rows (x ∷ a) b = rw (dp_table-rows a b, first-rows a b, dp_row-row x a b)

pub lcs_length-nil : (a : List Text) → lcs_length a [] ≡ 0
unfolding lcs_length
lcs_length-nil [] = refl
lcs_length-nil (x ∷ a) = refl

row_at : (a b : List Text) (j : ℕ) → get_or (row a b) j 0 ≡ lcs_length a (drop j b)
unfolding row
row_at a [] zero = refl
row_at a [] (suc j) = sym (lcs_length-nil a)
row_at a (y ∷ b) zero = refl
row_at a (y ∷ b) (suc j) = row_at a b j

rows_at :
    (a b : List Text) (i j : ℕ)
    → get_or (get_or (rows a b) i []) j 0 ≡ lcs_length (drop i a) (drop j b)
unfolding rows
rows_at [] b zero j = row_at [] b j
rows_at [] b (suc i) j = unfold lcs_length in refl
rows_at (x ∷ a) b zero j = row_at (x ∷ a) b j
rows_at (x ∷ a) b (suc i) j = rows_at a b i j

-- Every cell of the table, the border and the cells out of range included.
pub dp_at-lcs_length :
    (a b : List Text) (i j : ℕ) → dp_at (dp_table a b) i j ≡ lcs_length (drop i a) (drop j b)
dp_at-lcs_length a b i j = rw dp_table-rows (rows_at a b i j)

pub lcs_length-cons :
    (x y : Text) (a b : List Text)
    → lcs_length (x ∷ a) (y ∷ b) ≡ (
        if text_eq x y
        then lcs_length a b + 1
        else if leb (lcs_length (x ∷ a) b) (lcs_length a (y ∷ b))
        then lcs_length a (y ∷ b)
        else lcs_length (x ∷ a) b)
unfolding lcs_length
lcs_length-cons x y a b = refl
