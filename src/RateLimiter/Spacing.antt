-- ===== src/RateLimiter/Spacing.antt =====
-- How far apart the starts of requests are.
use agentic_loop.Prelude.{
  List, ℕ, ◌∷◌, ◌≡◌, Option, get_elem?, ◌+◌, some, arith, ◌≤◌, [], Bool-cases, ◌*◌, leb, suc, zero,
  inl, inr, none, refl, subst,
}
use agentic_loop.RateLimiter.{RateLimiter, wait, queue_up}

-- The earliest starts of the requests of callers that arrive at these times.
unfoldable pub slots : List ℕ → RateLimiter → List ℕ
slots [] l = []
slots (t ∷ ts) l = (t + (wait t l).0) ∷ slots ts (wait t l).1

-- The starts of callers by their arrival and by how much longer than asked they sleep.
unfoldable pub starts : List (ℕ × ℕ) → RateLimiter → List ℕ
starts [] l = []
starts ((t, late) ∷ cs) l = (t + (wait t l).0 + late) ∷ starts cs (wait t l).1

-- Nobody starts before the gate opens, and it opens an interval after the last start.
abbrev Opens : ℕ → RateLimiter → ℕ × RateLimiter → Type 0
Opens t l (slept, l') =
    (l'.interval ≡ l.interval)
    × (l'.next ≡ some (t + slept + l.interval))
    × ((next : ℕ) → l.next ≡ some next → next ≤ t + slept)

wait-Opens : (t : ℕ) (l : RateLimiter) → Opens t l (wait t l)
unfolding wait
wait-Opens t l = go l.next refl
  where
    go : (o : Option ℕ) → l.next ≡ o → Opens t l (queue_up t l o)
    go none e = (refl, ground arith, λ next h. cc (h, e))
    go (some next) e = elim (Bool-cases (leb next t)) [
      | inl past ↦ rw past (refl, ground arith, λ n h. ground (arith, h, e))
      | inr ahead ↦ rw ahead (refl, ground arith, λ n h. ground (arith, h, e))
    ]

-- Every start is at or after the gate's opening and every further one an interval later.
abbrev pub Spaced : ℕ → ℕ → List ℕ → Type 0
Spaced interval opening [] = Unit
Spaced interval opening (s ∷ ss) = (opening ≤ s) × Spaced interval (s + interval) ss

abbrev opening_of : Option ℕ → ℕ
opening_of none = 0
opening_of (some n) = n

slots-Spaced : (ts : List ℕ) (l : RateLimiter) → Spaced l.interval (opening_of l.next) (slots ts l)
unfolding slots
slots-Spaced [] l = tt
slots-Spaced (t ∷ ts) l =
    let (same, opens, waited) = wait-Opens t l in
    (
      gate_opening l.next refl waited,
      subst (λ i. Spaced i (t + (wait t l).0 + l.interval) (slots ts (wait t l).1)) same
          (subst (λ o. Spaced (wait t l).1.interval (opening_of o) (slots ts (wait t l).1)) opens
            (slots-Spaced ts (wait t l).1)),
    )
  where
    gate_opening :
        (o : Option ℕ)
        → l.next ≡ o
        → ((next : ℕ) → l.next ≡ some next → next ≤ t + (wait t l).0)
        → opening_of o ≤ t + (wait t l).0
    gate_opening none e f = omega arith
    gate_opening (some n) e f = f n e

later :
    (interval opening : ℕ) (ss : List ℕ) (i : ℕ) (s : ℕ)
    → Spaced interval opening ss
    → get_elem? ss i ≡ some s
    → opening + i * interval ≤ s
later interval opening [] i s h e = cc
later interval opening (x ∷ ss) zero s (p, h) e = ground arith
later interval opening (x ∷ ss) (suc i) s (p, h) e =
    omega (arith, later interval (x + interval) ss i s h e)

apart :
    (interval opening : ℕ) (ss : List ℕ) (i m a b : ℕ)
    → Spaced interval opening ss
    → get_elem? ss i ≡ some a
    → get_elem? ss (i + m) ≡ some b
    → a + m * interval ≤ b
apart interval opening [] i m a b h ea eb = cc
apart interval opening (x ∷ ss) zero zero a b (p, h) ea eb = ground arith
apart interval opening (x ∷ ss) zero (suc m) a b (p, h) ea eb =
    let index : 0 + suc m ≡ suc m = omega arith in
    let far = later interval (x + interval) ss m b h (rw index at eb) in ground (arith, far, ea)
apart interval opening (x ∷ ss) (suc i) m a b (p, h) ea eb =
    let index : suc i + m ≡ suc (i + m) = omega arith in
    apart interval (x + interval) ss i m a b h ea (rw index at eb)

abbrev arrivals : List (ℕ × ℕ) → List ℕ
arrivals [] = []
arrivals ((t, late) ∷ cs) = t ∷ arrivals cs

-- Nobody starts before the slot.
starts_late :
    (cs : List (ℕ × ℕ)) (l : RateLimiter) (j b : ℕ)
    → get_elem? (starts cs l) j ≡ some b
    → (slot : ℕ) × ((get_elem? (slots (arrivals cs) l) j ≡ some slot) × (slot ≤ b))
unfolding starts slots
starts_late [] l j b e = cc
starts_late ((t, late) ∷ cs) l zero b e = (t + (wait t l).0, (refl, ground (arith, e)))
starts_late ((t, late) ∷ cs) l (suc j) b e = starts_late cs (wait t l).1 j b e

-- Who sleeps as long as asked starts at the slot.
starts_sharp :
    (cs : List (ℕ × ℕ)) (l : RateLimiter) (i t a : ℕ)
    → get_elem? cs i ≡ some (t, 0)
    → get_elem? (starts cs l) i ≡ some a
    → get_elem? (slots (arrivals cs) l) i ≡ some a
unfolding starts slots
starts_sharp [] l i t a c e = cc
starts_sharp ((u, late) ∷ cs) l zero t a c e = ground (arith, c, e)
starts_sharp ((u, late) ∷ cs) l (suc i) t a c e = starts_sharp cs (wait u l).1 i t a c e

-- Whenever the callers arrive, and however much longer than asked the others sleep, the start of a
-- caller that sleeps no longer than asked and that of the mth after it are at least m intervals
-- apart, where no sleep is cut short.
pub starts_apart :
    (cs : List (ℕ × ℕ)) (l : RateLimiter) (i m t a b : ℕ)
    → get_elem? cs i ≡ some (t, 0)
    → get_elem? (starts cs l) i ≡ some a
    → get_elem? (starts cs l) (i + m) ≡ some b
    → a + m * l.interval ≤ b
starts_apart cs l i m t a b sharp ea eb =
    let (slot, (at, before)) = starts_late cs l (i + m) b eb in
    let far : a + m * l.interval ≤ slot =
      apart l.interval (opening_of l.next) (slots (arrivals cs) l) i m a slot
        (slots-Spaced (arrivals cs) l) (starts_sharp cs l i t a sharp ea) at in
    omega (arith, far, before)
