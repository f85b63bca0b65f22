-- ===== src/TextDiff/Lcs.antt =====
-- The recursive LCS length is the greatest length of a common subsequence.
use agentic_loop.Prelude.{refl, text_eq_refl, ◌+◌, ◌≤◌, ◌≡◌, List, [], ◌∷◌, Text, length, arith}
use agentic_loop.TextDiff.Table.{lcs_length}

pub data Subsequence : List Text → List Text → Type 0 where
  done : Subsequence [] []
  skip : {s l : List Text} (x : Text) → Subsequence s l → Subsequence s (x ∷ l)
  take : {s l : List Text} (x : Text) → Subsequence s l → Subsequence (x ∷ s) (x ∷ l)

tail : List Text → List Text
tail [] = []
tail (z ∷ s) = s

Subsequence-tail : {s l : List Text} → Subsequence s l → Subsequence (tail s) l
unfolding tail
Subsequence-tail done = done
Subsequence-tail (skip x p) = skip x (Subsequence-tail p)
Subsequence-tail (take x p) = skip x p

both_tails : {x : Text} {s l : List Text} → Subsequence s (x ∷ l) → Subsequence (tail s) l
unfolding tail
both_tails (skip x p) = Subsequence-tail p
both_tails (take x p) = p

length-tail : (s : List Text) → length s ≤ length (tail s) + 1
unfolding tail
length-tail [] = omega arith
length-tail (z ∷ s) = omega arith

-- With different heads one of the two heads is skipped.
data Skips (x y : Text) (a b s : List Text) : Type 0 where
  left : Subsequence s a → Skips x y a b s
  right : Subsequence s b → Skips x y a b s
  neither : x ≡ y → Skips x y a b s

skips :
    (x y : Text) {a b s : List Text}
    → Subsequence s (x ∷ a)
    → Subsequence s (y ∷ b)
    → Skips x y a b s
skips x y (skip _ p) q = left p
skips x y (take _ p) (skip _ q) = right q
skips x y (take _ p) (take _ q) = neither refl

-- No common subsequence is longer than the LCS length.
pub Subsequence-le-lcs_length :
    (a b s : List Text) → Subsequence s a → Subsequence s b → length s ≤ lcs_length a b
unfolding lcs_length
Subsequence-le-lcs_length [] b [] p q = omega arith
Subsequence-le-lcs_length [] b (_ ∷ _) p q = elim p [ ]
Subsequence-le-lcs_length (x ∷ a) [] [] p q = omega arith
Subsequence-le-lcs_length (x ∷ a) [] (_ ∷ _) p q = elim q [ ]
Subsequence-le-lcs_length (x ∷ a) (y ∷ b) s p q =
    step (Subsequence-le-lcs_length a b (tail s) (both_tails p) (both_tails q))
      (λ p'. Subsequence-le-lcs_length a (y ∷ b) s p' q)
      (λ q'. Subsequence-le-lcs_length (x ∷ a) b s p q') (skips x y p q)
  where
    step :
        length (tail s) ≤ lcs_length a b
        → (Subsequence s a → length s ≤ lcs_length a (y ∷ b))
        → (Subsequence s b → length s ≤ lcs_length (x ∷ a) b)
        → Skips x y a b s
        → length s ≤ lcs_length (x ∷ a) (y ∷ b)
    step ih_both ih_left ih_right (left p') = ground (arith, ih_both, ih_left p', length-tail s)
    step ih_both ih_left ih_right (right q') = ground (arith, ih_both, ih_right q', length-tail s)
    step ih_both ih_left ih_right (neither e) =
        ground (arith, ih_both, length-tail s, text_eq_refl y)
