-- ===== src/TextDiff/Hunks/Headers.antt =====
-- The four numbers of a hunk's header against the lines of its body.
use Prim.Native.Nat.{min}
use agentic_loop.Prelude.{
  ℕ, zero, suc, List, [], ◌∷◌, ◌+◌, ◌-◌, ◌≤◌, ◌≡◌, refl, length, take, drop, if◌then◌else◌, ◌==◌,
  arith, All, ap, ◌<◌, Bool-cases, leb, inl, inr,
}
use agentic_loop.TextDiff.{DiffOp}
use agentic_loop.TextDiff.Hunks.Cover.{Ascends, change_indices-Ascends}
use agentic_loop.TextDiff.Script.{old_lines, new_lines}
use agentic_loop.TextDiff.Hunks.{Hunk, hunk_of, group_from, group, hunks, old_at, new_at, slice}

take-nil : (k : ℕ) → take {A = DiffOp} k [] ≡ []
take-nil zero = refl
take-nil (suc k) = refl

old_at-nil : (i : ℕ) → old_at [] i ≡ 0
unfolding old_at
old_at-nil i = refl

old_at-take : (ops : List DiffOp) (k : ℕ) → old_at ops k ≡ length (old_lines (take k ops))
unfolding old_at
old_at-take [] zero = refl
old_at-take [] (suc k) = refl
old_at-take (op ∷ ops) zero = refl
old_at-take (op ∷ ops) (suc k) = ground (arith, old_at-take ops k)

old_at-add :
    (ops : List DiffOp) (s k : ℕ)
    → old_at ops (s + k) ≡ old_at ops s + length (old_lines (take k (drop s ops)))
unfolding old_at
old_at-add [] zero k =
    omega (arith, old_at-take [] k, ap (old_at []) (let e : 0 + k ≡ k = omega arith in e))
old_at-add (op ∷ ops) zero k =
    omega (
      arith,
      old_at-take (op ∷ ops) k,
      ap (old_at (op ∷ ops)) (let e : 0 + k ≡ k = omega arith in e),
    )
old_at-add [] (suc s) k = ground (arith, old_at-nil (suc s + k), take-nil k)
old_at-add (op ∷ ops) (suc s) k = ground (arith, old_at-add ops s k)

new_at-nil : (i : ℕ) → new_at [] i ≡ 0
unfolding new_at
new_at-nil i = refl

new_at-take : (ops : List DiffOp) (k : ℕ) → new_at ops k ≡ length (new_lines (take k ops))
unfolding new_at
new_at-take [] zero = refl
new_at-take [] (suc k) = refl
new_at-take (op ∷ ops) zero = refl
new_at-take (op ∷ ops) (suc k) = ground (arith, new_at-take ops k)

new_at-add :
    (ops : List DiffOp) (s k : ℕ)
    → new_at ops (s + k) ≡ new_at ops s + length (new_lines (take k (drop s ops)))
unfolding new_at
new_at-add [] zero k =
    omega (arith, new_at-take [] k, ap (new_at []) (let e : 0 + k ≡ k = omega arith in e))
new_at-add (op ∷ ops) zero k =
    omega (
      arith,
      new_at-take (op ∷ ops) k,
      ap (new_at (op ∷ ops)) (let e : 0 + k ≡ k = omega arith in e),
    )
new_at-add [] (suc s) k = ground (arith, new_at-nil (suc s + k), take-nil k)
new_at-add (op ∷ ops) (suc s) k = ground (arith, new_at-add ops s k)

-- The counts are those of the body's lines. The starts are the 1-based numbers of the body's first
-- lines; a side with no line in the body names the line before it.
pub record HeaderMatches (ops : List DiffOp) (h : Hunk) : Type 0 where
  pub old_count : h.old_count ≡ length (old_lines (slice h.start h.end ops))
  pub new_count : h.new_count ≡ length (new_lines (slice h.start h.end ops))
  pub old_start :
      h.old_start ≡ length (old_lines (take h.start ops)) + (if h.old_count == 0 then 0 else 1)
  pub new_start :
      h.new_start ≡ length (new_lines (take h.start ops)) + (if h.new_count == 0 then 0 else 1)

abbrev AllMatch : List DiffOp → List Hunk → Type 0
AllMatch ops = All (HeaderMatches ops)

old_count_between :
    (ops : List DiffOp) (s e : ℕ)
    → s ≤ e
    → old_at ops e - old_at ops s ≡ length (old_lines (slice s e ops))
old_count_between ops s e h =
    let at : s + (e - s) ≡ e = omega arith in
    let sum = old_at-add ops s (e - s) in omega (arith, ap (old_at ops) at, sum)

new_count_between :
    (ops : List DiffOp) (s e : ℕ)
    → s ≤ e
    → new_at ops e - new_at ops s ≡ length (new_lines (slice s e ops))
new_count_between ops s e h =
    let at : s + (e - s) ≡ e = omega arith in
    let sum = new_at-add ops s (e - s) in omega (arith, ap (new_at ops) at, sum)

hunk_of-HeaderMatches :
    (ops : List DiffOp) (first last : ℕ)
    → first ≤ last
    → last < length ops
    → HeaderMatches ops (hunk_of ops first last)
unfolding hunk_of
hunk_of-HeaderMatches ops first last fl ln =
    let s = first - 3 in
    let e = min (last + 3 + 1) (length ops) in
    let se : s ≤ e = omega arith in
    record {
      old_count = old_count_between ops s e se;
      new_count = new_count_between ops s e se;
      old_start = ground (arith, old_at-take ops s);
      new_start = ground (arith, new_at-take ops s);
    }

group_from-AllMatch :
    (ops : List DiffOp) (first last : ℕ) (cs : List ℕ)
    → first ≤ last
    → last < length ops
    → Ascends (last + 1) (length ops) cs
    → AllMatch ops (group_from ops first last cs)
unfolding group_from
group_from-AllMatch ops first last [] fl ln up = (hunk_of-HeaderMatches ops first last fl ln, tt)
group_from-AllMatch ops first last (c ∷ cs) fl ln (lc, cn, up) =
    elim (Bool-cases (leb (c - last) 6)) [
      | inl near ↦ rw near (group_from-AllMatch ops first c cs (omega arith) cn up)
      | inr far ↦ rw far (
        hunk_of-HeaderMatches ops first last fl ln,
        group_from-AllMatch ops c c cs (omega arith) cn up,
      )
    ]

group-AllMatch :
    (ops : List DiffOp) (cs : List ℕ) → Ascends 0 (length ops) cs → AllMatch ops (group ops cs)
unfolding group
group-AllMatch ops [] up = tt
group-AllMatch ops (c ∷ cs) (_, cn, up) = group_from-AllMatch ops c c cs (omega arith) cn up

-- In every hunk of a script the header's counts are the numbers of old and of new lines of the
-- body, and its starts point at the body's first line on each side.
pub hunks-HeaderMatches : (ops : List DiffOp) → All (HeaderMatches ops) (hunks ops)
unfolding hunks
hunks-HeaderMatches ops =
    group-AllMatch ops _ (change_indices-Ascends 0 (length ops) ops (omega arith))
