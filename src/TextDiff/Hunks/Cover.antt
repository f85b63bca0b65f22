-- ===== src/TextDiff/Hunks/Cover.antt =====
-- The hunks are ordered, do not overlap, and leave no change out.
use agentic_loop.Prelude.{
  ℕ, List, ◌∷◌, ◌≤◌, ◌<◌, ◌+◌, ◌⊎◌, ◌≡◌, ◌-◌, length, [], arith, inl, Bool-cases, inr, leb, suc,
  zero, if◌then◌else◌,
}
use agentic_loop.TextDiff.{OpKind, kept, deleted, added, DiffOp}
use agentic_loop.TextDiff.Hunks.{
  Hunk, hunk_of, group_from, group, hunks, change_indices, min, is_change,
}

-- Ascending, above `lo` and below `n`.
abbrev pub Ascends : ℕ → ℕ → List ℕ → Type 0
Ascends lo n [] = Unit
Ascends lo n (c ∷ cs) = (lo ≤ c) × (c < n) × Ascends (c + 1) n cs

abbrev pub Apart : ℕ → ℕ → List Hunk → Type 0
Apart lo n [] = Unit
Apart lo n (h ∷ hs) = (lo ≤ h.start) × (h.start < h.end) × (h.end ≤ n) × Apart h.end n hs

abbrev pub Covered : ℕ → List Hunk → Type 0
Covered d [] = ⊥
Covered d (h ∷ hs) = ((h.start ≤ d) × (d < h.end)) ⊎ Covered d hs

abbrev Holds : ℕ → List ℕ → Type 0
Holds d [] = ⊥
Holds d (c ∷ cs) = (d ≡ c) ⊎ Holds d cs

module _ (ops : List DiffOp) where
  group_from-Apart :
      (lo first last : ℕ) (cs : List ℕ)
      → lo ≤ first - 3
      → first ≤ last
      → last < length ops
      → Ascends (last + 1) (length ops) cs
      → Apart lo (length ops) (group_from ops first last cs)
  unfolding group_from
  group_from-Apart lo first last [] h fl ln up = ground arith
  group_from-Apart lo first last (c ∷ cs) h fl ln (lc, cn, up) =
      elim (Bool-cases (leb (c - last) 6)) [
        | inl near ↦ rw near (group_from-Apart lo first c cs h (omega arith) cn up)
        | inr far ↦ rw far (
          ground (arith),
          ground arith,
          ground arith,
          group_from-Apart (min (last + 3 + 1) (length ops)) c c cs (ground arith) (omega arith) cn
              up,
        )
      ]

  -- `d` is among the changes of the hunk under way, or is still to come.
  abbrev Awaits : ℕ → ℕ → ℕ → List ℕ → Type 0
  Awaits d first last cs = ((first ≤ d) × (d ≤ last)) ⊎ Holds d cs

  joins :
      (d first last c : ℕ) (cs : List ℕ)
      → first ≤ last
      → last < c
      → Awaits d first last (c ∷ cs)
      → Awaits d first c cs
  joins d first last c cs fl lc (inl (f, l)) = inl (f, omega arith)
  joins d first last c cs fl lc (inr (inl e)) = inl (omega arith, omega arith)
  joins d first last c cs fl lc (inr (inr h)) = inr h

  group_from-Covered :
      (first last : ℕ) (cs : List ℕ) (d : ℕ)
      → first ≤ last
      → last < length ops
      → Ascends (last + 1) (length ops) cs
      → Awaits d first last cs
      → Covered d (group_from ops first last cs)
  unfolding group_from
  group_from-Covered first last [] d fl ln up (inl within) = inl (ground arith, ground arith)
  group_from-Covered first last [] d fl ln up (inr h) = absurd h
  group_from-Covered first last (c ∷ cs) d fl ln (lc, cn, up) h =
      elim (Bool-cases (leb (c - last) 6)) [
        | inl near ↦ rw near (
            group_from-Covered first c cs d (omega arith) cn up
              (joins d first last c cs fl (omega arith) h))
        | inr far ↦ rw far (splits h (group_from-Covered c c cs d (omega arith) cn up))
      ]
    where
      splits :
          Awaits d first last (c ∷ cs)
          → (Awaits d c c cs → Covered d (group_from ops c c cs))
          → Covered d (hunk_of ops first last ∷ group_from ops c c cs)
      splits (inl within) rest = inl (ground arith, ground arith)
      splits (inr (inl e)) rest = inr (rest (inl (omega arith, omega arith)))
      splits (inr (inr k)) rest = inr (rest (inr k))

abbrev ChangesLine : OpKind → Type 0
ChangesLine kept = ⊥
ChangesLine deleted = Unit
ChangesLine added = Unit

-- The operation at index `d` of the script exists and is no context line.
abbrev pub IsChangeAt : List DiffOp → ℕ → Type 0
IsChangeAt [] d = ⊥
IsChangeAt (op ∷ ops) zero = ChangesLine op.kind
IsChangeAt (op ∷ ops) (suc d) = IsChangeAt ops d

Ascends-below : (lo n : ℕ) (cs : List ℕ) → Ascends (lo + 1) n cs → Ascends lo n cs
Ascends-below lo n [] h = tt
Ascends-below lo n (c ∷ cs) (lc, cn, up) = (omega arith, cn, up)

Ascends-step :
    (k : OpKind) (i n : ℕ) (rest : List ℕ)
    → i < n
    → Ascends (i + 1) n rest
    → Ascends i n (if is_change k then i ∷ rest else rest)
Ascends-step kept i n rest lt up = Ascends-below i n rest up
Ascends-step deleted i n rest lt up = (omega arith, lt, up)
Ascends-step added i n rest lt up = (omega arith, lt, up)

pub change_indices-Ascends :
    (i n : ℕ) (ops : List DiffOp) → i + length ops ≡ n → Ascends i n (change_indices i ops)
unfolding change_indices
change_indices-Ascends i n [] e = tt
change_indices-Ascends i n (op ∷ ops) e =
    Ascends-step op.kind i n _ (omega arith) (change_indices-Ascends (i + 1) n ops (omega arith))

Holds-here :
    (k : OpKind) (d i : ℕ) (rest : List ℕ)
    → ChangesLine k
    → d ≡ i
    → Holds d (if is_change k then i ∷ rest else rest)
Holds-here kept d i rest h e = absurd h
Holds-here deleted d i rest h e = inl e
Holds-here added d i rest h e = inl e

Holds-there :
    (k : OpKind) (d i : ℕ) (rest : List ℕ)
    → Holds d rest
    → Holds d (if is_change k then i ∷ rest else rest)
Holds-there kept d i rest h = h
Holds-there deleted d i rest h = inr h
Holds-there added d i rest h = inr h

change_indices-Holds :
    (i : ℕ) (ops : List DiffOp) (d e : ℕ)
    → e ≡ i + d
    → IsChangeAt ops d
    → Holds e (change_indices i ops)
unfolding change_indices
change_indices-Holds i [] d e at h = absurd h
change_indices-Holds i (op ∷ ops) zero e at h = Holds-here op.kind e i _ h (omega arith)
change_indices-Holds i (op ∷ ops) (suc d) e at h =
    Holds-there op.kind e i _ (change_indices-Holds (i + 1) ops d e (omega arith) h)

group-Apart :
    (ops : List DiffOp) (cs : List ℕ)
    → Ascends 0 (length ops) cs
    → Apart 0 (length ops) (group ops cs)
unfolding group
group-Apart ops [] up = tt
group-Apart ops (c ∷ cs) (_, cn, up) =
    group_from-Apart ops 0 c c cs (omega arith) (omega arith) cn up

group-Covered :
    (ops : List DiffOp) (cs : List ℕ) (d : ℕ)
    → Ascends 0 (length ops) cs
    → Holds d cs
    → Covered d (group ops cs)
unfolding group
group-Covered ops [] d up h = absurd h
group-Covered ops (c ∷ cs) d (_, cn, up) (inl e) =
    group_from-Covered ops c c cs d (omega arith) cn up (inl (omega arith, omega arith))
group-Covered ops (c ∷ cs) d (_, cn, up) (inr h) =
    group_from-Covered ops c c cs d (omega arith) cn up (inr h)

-- The hunks of a script stand in order within it, none is empty, no two overlap, and every
-- operation that changes a line lies in one of them.
pub hunks_cover :
    (ops : List DiffOp)
    → Apart 0 (length ops) (hunks ops) × ((d : ℕ) → IsChangeAt ops d → Covered d (hunks ops))
unfolding hunks
hunks_cover ops =
    let up = change_indices-Ascends 0 (length ops) ops (omega arith) in
    (
      group-Apart ops _ up,
      λ d h. group-Covered ops _ d up (change_indices-Holds 0 ops d d (omega arith) h),
    )
