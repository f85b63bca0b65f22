-- ===== src/TextDiff/Script.antt =====
-- The edit script of `diffOps` turns the old lines into the new ones, whichever way it was made.
use mathlib.Core.List.{reverse, reverse-append, reverse-reverse}
use agentic_loop.Prelude.{
  ℕ, zero, suc, ◌+◌, ◌-◌, ◌≤◌, ◌≡◌, refl, ap, sym, List, [], ◌∷◌, ◌++◌, map, Text, text_eq_sound,
  length, take, drop, append_assoc, append-nil, arith, length-append, take-append-drop, ◌∙◌,
  length-drop,
}
use agentic_loop.TextDiff.{
  OpKind, kept, deleted, added, DiffOp, keep, delete, add, replace_ops, walk, lcs_ops, dp_table,
  common_prefix, common_suffix, middle_ops, diff_ops,
}

-- What an operation contributes to the old text and to the new one.
abbrev pub old_line : OpKind → Text → List Text → List Text
old_line kept l rest = l ∷ rest
old_line deleted l rest = l ∷ rest
old_line added l rest = rest

abbrev pub new_line : OpKind → Text → List Text → List Text
new_line kept l rest = l ∷ rest
new_line deleted l rest = rest
new_line added l rest = l ∷ rest

abbrev pub old_lines : List DiffOp → List Text
old_lines [] = []
old_lines (op ∷ ops) = old_line op.kind op.text (old_lines ops)

abbrev pub new_lines : List DiffOp → List Text
new_lines [] = []
new_lines (op ∷ ops) = new_line op.kind op.text (new_lines ops)

-- An edit script from `a` to `b`.
pub record Edits (a b : List Text) (ops : List DiffOp) : Type 0 where
  pub old : old_lines ops ≡ a
  pub new : new_lines ops ≡ b

old-append : (p q : List DiffOp) → old_lines (p ++ q) ≡ old_lines p ++ old_lines q
old-append [] q = refl
old-append (op ∷ p) q = ground (arith, old-append p q)

new-append : (p q : List DiffOp) → new_lines (p ++ q) ≡ new_lines p ++ new_lines q
new-append [] q = refl
new-append (op ∷ p) q = ground (arith, new-append p q)

keep-Edits : (l : List Text) → Edits l l (map keep l)
keep-Edits [] = record { old = refl; new = refl }
keep-Edits (x ∷ l) = let h = keep-Edits l in ground arith

delete-Edits : (l : List Text) → Edits l [] (map delete l)
delete-Edits [] = record { old = refl; new = refl }
delete-Edits (x ∷ l) = let h = delete-Edits l in ground arith

add-Edits : (l : List Text) → Edits [] l (map add l)
add-Edits [] = record { old = refl; new = refl }
add-Edits (x ∷ l) = let h = add-Edits l in ground arith

append-Edits :
    {a b a' b' : List Text} {p q : List DiffOp}
    → Edits a b p
    → Edits a' b' q
    → Edits (a ++ a') (b ++ b') (p ++ q)
append-Edits {p = p} {q = q} h k = ground (arith, old-append p q, new-append p q)

replace_ops-Edits : (a b : List Text) → Edits a b (replace_ops a b)
unfolding replace_ops
replace_ops-Edits a b = rw append-nil at (append-Edits (delete-Edits a) (add-Edits b))

-- Whatever the table holds.
pub walk-Edits : (dp : List (List ℕ)) (i j : ℕ) (a b : List Text) → Edits a b (walk dp i j a b)
unfolding walk
walk-Edits dp i j [] b = add-Edits b
walk-Edits dp i j (x ∷ a) [] = delete-Edits (x ∷ a)
walk-Edits dp i j (x ∷ a) (y ∷ b) =
    let both = walk-Edits dp (i + 1) (j + 1) a b in
    let left = walk-Edits dp (i + 1) j a (y ∷ b) in
    let right = walk-Edits dp i (j + 1) (x ∷ a) b in ground (arith, text_eq_sound x y)

pub lcs_ops-Edits : (a b : List Text) → Edits a b (lcs_ops a b)
unfolding lcs_ops
lcs_ops-Edits a b =
    let r = replace_ops-Edits a b in let w = walk-Edits (dp_table a b) 0 0 a b in ground arith

middle_ops-Edits : (a b : List Text) → Edits a b (middle_ops a b)
middle_ops-Edits a b = let r = replace_ops-Edits a b in let w = lcs_ops-Edits a b in ground arith

common_prefix-take : (a b : List Text) → take (common_prefix a b) a ≡ take (common_prefix a b) b
unfolding common_prefix
common_prefix-take [] [] = refl
common_prefix-take [] (y ∷ b) = refl
common_prefix-take (x ∷ a) [] = refl
common_prefix-take (x ∷ a) (y ∷ b) = ground (arith, common_prefix-take a b, text_eq_sound x y)

common_prefix-le :
    (a b : List Text) → (common_prefix a b ≤ length a) × (common_prefix a b ≤ length b)
unfolding common_prefix
common_prefix-le [] b = omega arith
common_prefix-le (x ∷ a) [] = omega arith
common_prefix-le (x ∷ a) (y ∷ b) = ground (arith, common_prefix-le a b)

length-reverse : (l : List Text) → length (reverse l) ≡ length l
length-reverse [] = refl
length-reverse (x ∷ l) = omega (
  arith,
  ap length (reverse-append (x ∷ []) l),
  length-append (reverse l) (x ∷ []),
  length-reverse l,
)

drop-append : (u v : List Text) → drop (length u) (u ++ v) ≡ v
drop-append [] v = refl
drop-append (x ∷ u) v = drop-append u v

drop-nil : (k : ℕ) → drop {A = Text} k [] ≡ []
drop-nil zero = refl
drop-nil (suc k) = refl

drop-drop : (p k : ℕ) (l : List Text) → drop k (drop p l) ≡ drop (p + k) l
drop-drop zero k l = ground arith
drop-drop (suc p) k [] = drop-nil k ∙ sym (drop-nil (suc p + k))
drop-drop (suc p) k (x ∷ l) =
    let e : suc p + k ≡ suc (p + k) = omega arith in rw e (drop-drop p k l)

-- The last `s` lines are the first `s` of the reversed lines, reversed.
drop-reverse :
    (s : ℕ) (r : List Text) → s ≤ length r → drop (length r - s) (reverse r) ≡ reverse (take s r)
drop-reverse s r h =
    let parts : reverse r ≡ reverse (drop s r) ++ reverse (take s r) =
      ap reverse (sym (take-append-drop s r)) ∙ reverse-append (take s r) (drop s r) in
    let count : length r - s ≡ length (reverse (drop s r)) =
      omega (arith, length-reverse (drop s r), length-drop s r) in
    rw (parts, count) (drop-append (reverse (drop s r)) (reverse (take s r)))

drop-take-reverse :
    (s : ℕ) (a : List Text)
    → s ≤ length (reverse a)
    → drop (length a - s) a ≡ reverse (take s (reverse a))
drop-take-reverse s a h = (rw (reverse-reverse, length-reverse) at (drop-reverse s (reverse a) h))

common_suffix-drop :
    (a b : List Text)
    → drop (length a - common_suffix a b) a ≡ drop (length b - common_suffix a b) b
unfolding common_suffix
common_suffix-drop a b =
    let le = common_prefix-le (reverse a) (reverse b) in
    drop-take-reverse _ a le.0
    ∙ ap reverse (common_prefix-take (reverse a) (reverse b))
    ∙ sym (drop-take-reverse _ b le.1)

common_suffix-le :
    (a b : List Text) → (common_suffix a b ≤ length a) × (common_suffix a b ≤ length b)
unfolding common_suffix
common_suffix-le a b =
    omega (arith, common_prefix-le (reverse a) (reverse b), length-reverse a, length-reverse b)

-- The three parts that `diffOps` cuts a side into, with `p` lines before and `s` behind.
three_parts :
    (p s : ℕ) (a : List Text)
    → p ≤ length a
    → s ≤ length (drop p a)
    → take p a ++ take (length a - s - p) (drop p a) ++ drop (length a - s) a ≡ a
three_parts p s a hp hs =
    let k = length a - s - p in
    let at : length a - s ≡ p + k = omega (arith, length-drop p a) in
    let tail : drop (length a - s) a ≡ drop k (drop p a) =
      ap (λ n. drop n a) at ∙ sym (drop-drop p k a) in
    append_assoc (take p a) (take k (drop p a)) (drop (length a - s) a)
    ∙ ap (λ t. take p a ++ (take k (drop p a) ++ t)) tail
    ∙ ap (λ t. take p a ++ t) (take-append-drop k (drop p a))
    ∙ take-append-drop p a

last_lines :
    (p s : ℕ) (a : List Text)
    → p ≤ length a
    → s ≤ length (drop p a)
    → drop (length a - s) a ≡ drop (length (drop p a) - s) (drop p a)
last_lines p s a hp hs =
    let at : length a - s ≡ p + (length (drop p a) - s) = omega (arith, length-drop p a) in
    rw (drop-drop p (length (drop p a) - s) a, at)

-- The script that `diffOps` returns has the old lines as its kept and deleted lines and the new
-- lines as its kept and added lines, both in order, on every path: common prefix and suffix, the
-- aligned middle and the replaced one.
pub diff_ops-Edits : (a b : List Text) → Edits a b (diff_ops a b)
unfolding diff_ops
diff_ops-Edits a b =
    let p = common_prefix a b in
    let s = common_suffix (drop p a) (drop p b) in
    let (pa, pb) = common_prefix-le a b in
    let (sa, sb) = common_suffix-le (drop p a) (drop p b) in
    let front : take p a ≡ take p b = common_prefix-take a b in
    let back : drop (length a - s) a ≡ drop (length b - s) b =
      last_lines p s a pa sa
      ∙ common_suffix-drop (drop p a) (drop p b)
      ∙ sym (last_lines p s b pb sb) in
    let h =
      append-Edits
        (append-Edits (keep-Edits (take p a)) (
          middle_ops-Edits (take (length a - s - p) (drop p a))
            (take (length b - s - p) (drop p b))))
        (keep-Edits (drop (length a - s) a)) in
    record {
      old = h.old ∙ three_parts p s a pa sa;
      new = h.new ∙ (rw (front, back) (three_parts p s b pb sb));
    }
