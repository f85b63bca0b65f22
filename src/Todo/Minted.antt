-- ===== src/Todo/Minted.antt =====
-- The ids of the task list of todo/todo.go: each names one task, and the next one is above them all.
use agentic_loop.Prelude.{
  List, ℕ, ◌≡◌, Bool, true, arith, ◌≤◌, ◌++◌, ◌∷◌, false, ◌||◌, not, ltb, ◌&&◌, [], refl, suc, zero,
  ◌+◌,
}
use agentic_loop.Prelude.Int.{ℤ, pos, negsuc}
use agentic_loop.Todo.{max_int, Todo, TodoStore, same_id, update_at, remove_at}

abbrev pub has_id : ℤ → List Todo → Bool
has_id i [] = false
has_id i (t ∷ ts) = same_id t.id i || has_id i ts

abbrev pub unique : List Todo → Bool
unique [] = true
unique (t ∷ ts) = not (has_id t.id ts) && unique ts

abbrev pub below : ℕ → ℤ → Bool
below next (pos n) = ltb n next
below next (negsuc n) = true

abbrev pub all_below : ℕ → List Todo → Bool
all_below next [] = true
all_below next (t ∷ ts) = below next t.id && all_below next ts

-- Each id names one task, the next one is above all of them, and `room` more can be handed out before
-- the ints of 64 bits are used up.
pub record IsMinted (room : ℕ) (s : TodoStore) : Type 0 where
  pub top : ℕ
  pub next_lem : s.next ≡ pos top
  pub room_lem : top + room ≤ max_int
  pub unique_lem : unique s.items ≡ true
  pub below_lem : all_below top s.items ≡ true

same_id_sym : (a b : ℤ) → same_id a b ≡ same_id b a
unfolding same_id
same_id_sym (pos a) (pos b) = ground arith
same_id_sym (pos a) (negsuc b) = refl
same_id_sym (negsuc a) (pos b) = refl
same_id_sym (negsuc a) (negsuc b) = ground arith

below_fresh : (next : ℕ) (i : ℤ) → below next i ≡ true → same_id i (pos next) ≡ false
unfolding same_id
below_fresh next (pos n) h = ground arith
below_fresh next (negsuc n) h = refl

pub has_id_fresh :
    (next : ℕ) (ts : List Todo) → all_below next ts ≡ true → has_id (pos next) ts ≡ false
has_id_fresh next [] h = refl
has_id_fresh next (t ∷ ts) h = ground (arith, has_id_fresh next ts, below_fresh next t.id)

pub below_mono : (m n : ℕ) (i : ℤ) → m ≤ n → below m i ≡ true → below n i ≡ true
below_mono m n (pos k) le h = ground arith
below_mono m n (negsuc k) le h = refl

pub all_below_mono :
    (m n : ℕ) (ts : List Todo) → m ≤ n → all_below m ts ≡ true → all_below n ts ≡ true
all_below_mono m n [] le h = refl
all_below_mono m n (t ∷ ts) le h = ground (arith, below_mono m n t.id le, all_below_mono m n ts le)

has_id-snoc :
    (i : ℤ) (t : Todo) (ts : List Todo) → has_id i (ts ++ t ∷ []) ≡ (has_id i ts || same_id t.id i)
has_id-snoc i t [] = ground arith
has_id-snoc i t (u ∷ ts) = ground (arith, has_id-snoc i t ts)

pub unique-snoc :
    (t : Todo) (ts : List Todo)
    → unique ts ≡ true
    → has_id t.id ts ≡ false
    → unique (ts ++ t ∷ []) ≡ true
unique-snoc t [] h g = refl
unique-snoc t (u ∷ ts) h g =
    ground (arith, unique-snoc t ts, has_id-snoc u.id t ts, same_id_sym u.id t.id)

pub all_below-snoc :
    (n : ℕ) (t : Todo) (ts : List Todo)
    → all_below n ts ≡ true
    → below n t.id ≡ true
    → all_below n (ts ++ t ∷ []) ≡ true
all_below-snoc n t [] h g = ground arith
all_below-snoc n t (u ∷ ts) h g = ground (arith, all_below-snoc n t ts)

module _ (f : Todo → Todo) (keeps : (t : Todo) → (f t).id ≡ t.id) where
  has_id-update_at : (i : ℤ) (k : ℕ) (ts : List Todo) → has_id i (update_at k f ts) ≡ has_id i ts
  has_id-update_at i k [] = refl
  has_id-update_at i zero (t ∷ ts) = rw (keeps t)
  has_id-update_at i (suc k) (t ∷ ts) = ground (arith, has_id-update_at i k ts)

  pub unique-update_at : (k : ℕ) (ts : List Todo) → unique (update_at k f ts) ≡ unique ts
  unique-update_at k [] = refl
  unique-update_at zero (t ∷ ts) = rw (keeps t)
  unique-update_at (suc k) (t ∷ ts) =
      ground (arith, unique-update_at k ts, has_id-update_at t.id k ts)

  pub all_below-update_at :
      (n k : ℕ) (ts : List Todo) → all_below n (update_at k f ts) ≡ all_below n ts
  all_below-update_at n k [] = refl
  all_below-update_at n zero (t ∷ ts) = rw (keeps t)
  all_below-update_at n (suc k) (t ∷ ts) = ground (arith, all_below-update_at n k ts)

has_id-remove_at :
    (i : ℤ) (k : ℕ) (ts : List Todo) → has_id i ts ≡ false → has_id i (remove_at k ts) ≡ false
has_id-remove_at i k [] h = refl
has_id-remove_at i zero (t ∷ ts) h = ground arith
has_id-remove_at i (suc k) (t ∷ ts) h = ground (arith, has_id-remove_at i k ts)

pub unique-remove_at : (k : ℕ) (ts : List Todo) → unique ts ≡ true → unique (remove_at k ts) ≡ true
unique-remove_at k [] h = refl
unique-remove_at zero (t ∷ ts) h = ground arith
unique-remove_at (suc k) (t ∷ ts) h =
    ground (arith, unique-remove_at k ts, has_id-remove_at t.id k ts)

pub all_below-remove_at :
    (n k : ℕ) (ts : List Todo) → all_below n ts ≡ true → all_below n (remove_at k ts) ≡ true
all_below-remove_at n k [] h = refl
all_below-remove_at n zero (t ∷ ts) h = ground arith
all_below-remove_at n (suc k) (t ∷ ts) h = ground (arith, all_below-remove_at n k ts)
