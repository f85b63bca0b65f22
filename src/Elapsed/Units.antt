-- ===== src/Elapsed/Units.antt =====
-- What the parts of a gap add up to.
use agentic_loop.Prelude.{
  List, ℕ, ◌<◌, ◌∷◌, ◌/◌, ◌*◌, All, ◌≤◌, length, ◌+◌, ◌⊎◌, suc, arith, inr, [], ◌-◌, Bool-cases,
  ◌==◌, inl, ◌≡◌, zero, true,
}
use native.Mathlib.Omega.{div_any}
use native.Mathlib.Nat.{mod-lt}
use agentic_loop.Elapsed.{ElapsedUnit, elapsed_units, Part, elapsed_parts}

-- The gap that the parts state.
unfoldable pub stated : List Part → ℕ
stated [] = 0
stated ((n, u) ∷ ps) = n * u.size + stated ps

-- The size of the smallest unit that is named.
abbrev pub precision : Part → List Part → ℕ
precision (n, u) [] = u.size
precision p (q ∷ ps) = precision q ps

-- The parts, if there are any, state no more than the gap, and less than a unit of the last one is
-- left out.
abbrev pub Exact : ℕ → List Part → Type 0
Exact d [] = Unit
Exact d (p ∷ ps) = (stated (p ∷ ps) ≤ d) × (d < stated (p ∷ ps) + precision p ps)

abbrev Sized : ElapsedUnit → Type 0
Sized u = 0 < u.size

quotient_rest : (d k : ℕ) → 0 < k → (d / k * k ≤ d) × (d < d / k * k + k)
quotient_rest d k h = (ground (arith, div_any d k), ground (arith, div_any d k, mod-lt d h))

cons-Exact :
    (n d : ℕ) (u : ElapsedUnit) (next : List Part)
    → n * u.size ≤ d
    → d < n * u.size + u.size
    → Exact (d - n * u.size) next
    → Exact d ((n, u) ∷ next)
unfolding stated
cons-Exact n d u [] low high e = (omega (arith, low), omega (arith, high))
cons-Exact n d u (q ∷ ps) low high (le, lt) = (omega (arith, le, low), omega (arith, lt, low))

elapsed_parts-Exact :
    (left d : ℕ) (us : List ElapsedUnit) → All Sized us → Exact d (elapsed_parts left d us)
unfolding elapsed_parts
elapsed_parts-Exact zero d us h = tt
elapsed_parts-Exact (suc left) d [] h = tt
elapsed_parts-Exact (suc left) d (u ∷ us) (sized, h) = elim (Bool-cases (d / u.size == 0)) [
  | inl none_of_it ↦ rw none_of_it (elapsed_parts-Exact (suc left) d us h)
  | inr some_of_it ↦
      let (low, high) = quotient_rest d u.size sized in
      rw some_of_it (
        cons-Exact (d / u.size) d u _ low high
          (elapsed_parts-Exact left (d - d / u.size * u.size) us h))
]

-- Some unit fits into the gap.
abbrev Reaches : ℕ → List ElapsedUnit → Type 0
Reaches d [] = ⊥
Reaches d (u ∷ us) = ((0 < u.size) × (u.size ≤ d)) ⊎ Reaches d us

elapsed_parts-ne :
    (left d : ℕ) (us : List ElapsedUnit) → Reaches d us → 1 ≤ length (elapsed_parts (suc left) d us)
unfolding elapsed_parts
elapsed_parts-ne left d [] h = elim h [ ]
elapsed_parts-ne left d (u ∷ us) h = elim (Bool-cases (d / u.size == 0)) [
  | inl none_of_it ↦ rw none_of_it (elapsed_parts-ne left d us (later none_of_it h))
  | inr some_of_it ↦ rw some_of_it (omega arith)
]
  where
    later : (d / u.size == 0) ≡ true → Reaches d (u ∷ us) → Reaches d us
    later e (inl (sized, fits)) = absurd (ground (arith, quotient_rest d u.size sized))
    later e (inr r) = r

elapsed_parts-length :
    (left d : ℕ) (us : List ElapsedUnit) → length (elapsed_parts left d us) ≤ left
unfolding elapsed_parts
elapsed_parts-length zero d us = omega arith
elapsed_parts-length (suc left) d [] = omega arith
elapsed_parts-length (suc left) d (u ∷ us) = ground (
  arith,
  elapsed_parts-length (suc left) d us,
  elapsed_parts-length left (d - d / u.size * u.size) us,
)

-- A gap of at least a second is stated in one or two parts, which are no more than it and leave out
-- less than one of the smallest unit they name.
pub elapsed_parts_lem :
    (d : ℕ)
    → 1_000_000_000 ≤ d
    → (1 ≤ length (elapsed_parts 2 d elapsed_units))
      × (length (elapsed_parts 2 d elapsed_units) ≤ 2)
      × Exact d (elapsed_parts 2 d elapsed_units)
elapsed_parts_lem d h = (
  elapsed_parts-ne 1 d elapsed_units (inr (inr (inr (inl (omega arith, h))))),
  elapsed_parts-length 2 d elapsed_units,
  elapsed_parts-Exact 2 d elapsed_units
      (omega arith, (omega arith, (omega arith, (omega arith, tt)))),
)
