-- ===== src/Compaction/Split.antt =====
-- Where a conversation is split.
use agentic_loop.Prelude.{
  ℕ, List, ◌∷◌, ◌≤◌, ◌≡◌, true, ◌<◌, ◌⊎◌, ◌+◌, [], length, inl, arith, Bool, drop, ◌/◌, inr, ◌==◌,
  refl, ◌||◌, ltb, ◌&&◌, false, Bool-cases,
}
use agentic_loop.Message.{Message}
use agentic_loop.Compaction.{split_from, split_point, distance, is_user}

-- The index `i` of a list that starts at index `from` holds a message of the user.
abbrev pub UserAt : ℕ → ℕ → List Message → Type 0
UserAt i from [] = ⊥
UserAt i from (m ∷ ms) = ((i ≡ from) × (is_user m ≡ true)) ⊎ UserAt i (from + 1) ms

UserAt-bounds :
    (i from : ℕ) (ms : List Message) → UserAt i from ms → (from ≤ i) × (i < from + length ms)
UserAt-bounds i from [] h = elim h [ ]
UserAt-bounds i from (m ∷ ms) (inl (e, u)) = omega (arith, e)
UserAt-bounds i from (m ∷ ms) (inr h) =
    let (low, high) = UserAt-bounds i (from + 1) ms h in omega (arith, low, high)

-- A candidate is nearest to the middle of those that are known: itself, if any, and those ahead.
pub record IsNearest (half from best : ℕ) (ms : List Message) (r : ℕ) : Type 0 where
  pub chosen : (r ≡ best) ⊎ UserAt r from ms
  pub nearer_than_before : 1 ≤ best → (1 ≤ r) × (distance r half ≤ distance best half)
  pub nearest : (i : ℕ) → UserAt i from ms → (1 ≤ r) × (distance r half ≤ distance i half)

split_from-IsNearest :
    (half from best : ℕ) (ms : List Message)
    → 1 ≤ from
    → IsNearest half from best ms (split_from half from best ms)
unfolding split_from
split_from-IsNearest half from best [] h = record {
  chosen = inl refl;
  nearer_than_before = λ b. (b, omega arith);
  nearest = λ i u. elim u [ ];
}
split_from-IsNearest half from best (m ∷ ms) h = elim (Bool-cases (is_user m && closer)) [
  | inl taken ↦
      rw taken (take_it taken (split_from-IsNearest half (from + 1) from ms (omega arith)))
  | inr passed ↦
      rw passed (pass_it passed (split_from-IsNearest half (from + 1) best ms (omega arith)))
]
  where
    closer : Bool
    closer = best == 0 || ltb (distance from half) (distance best half)

    take_it :
        (is_user m && closer) ≡ true
        → {r : ℕ} → IsNearest half (from + 1) from ms r
        → IsNearest half from best (m ∷ ms) r
    take_it taken {r = r} n = record {
      chosen = elim n.chosen [ inl e ↦ inr (inl (e, ground arith)) | inr u ↦ inr (inr u) ];
      nearer_than_before = λ b. let (ge, le) = n.nearer_than_before h in (ge, ground arith);
      nearest = λ i u. elim u [
        | inl at ↦ let (ge, le) = n.nearer_than_before h in (ge, rw (at.0) le)
        | inr ahead ↦ n.nearest i ahead
      ];
    }

    pass_it :
        (is_user m && closer) ≡ false
        → {r : ℕ} → IsNearest half (from + 1) best ms r
        → IsNearest half from best (m ∷ ms) r
    pass_it passed {r = r} n = record {
      chosen = elim n.chosen [ inl e ↦ inl e | inr u ↦ inr (inr u) ];
      nearer_than_before = n.nearer_than_before;
      nearest = λ i u. elim u [ inl here ↦ by_user here.0 here.1 | inr ahead ↦ n.nearest i ahead ];
    }
      where
        by_user :
            {i : ℕ} → i ≡ from → is_user m ≡ true → (1 ≤ r) × (distance r half ≤ distance i half)
        by_user e u =
            let (ge, le) = n.nearer_than_before (ground arith) in (ge, rw e (ground arith))

-- The split point is 0 where no message after the first is the user's. Otherwise it is the index of
-- such a message, and no other one is nearer to the middle.
pub record IsSplit (msgs : List Message) (cut : ℕ) : Type 0 where
  pub at_user : (cut ≡ 0) ⊎ UserAt cut 1 (drop 1 msgs)
  pub in_bounds : 1 ≤ cut → cut < length msgs
  pub nearest :
      (i : ℕ)
      → UserAt i 1 (drop 1 msgs)
      → (1 ≤ cut) × (distance cut (length msgs / 2) ≤ distance i (length msgs / 2))

-- The split point is 0 where no message after the first is the user's; else it is the index of
-- such a message within the conversation, and no other one is nearer to the middle.
pub split_point-IsSplit : (msgs : List Message) → IsSplit msgs (split_point msgs)
unfolding split_point
split_point-IsSplit [] = record {
  at_user = inl refl;
  in_bounds = λ p. absurd (omega (arith, p));
  nearest = λ i u. elim u [ ];
}
split_point-IsSplit (m ∷ ms) =
    let n = split_from-IsNearest (length (m ∷ ms) / 2) 1 0 ms (omega arith) in
    record {
      at_user = n.chosen;
      in_bounds = λ p. elim n.chosen [
        | inl e ↦ absurd (omega (arith, p, e))
        | inr u ↦ let (low, high) = UserAt-bounds _ 1 ms u in omega (arith, high)
      ];
      nearest = n.nearest;
    }
