-- ===== src/Dedup/Invariant.antt =====
-- The list of keys and the map of counts stay in step, and within the cap.
use agentic_loop.Prelude.{
  ℕ, Text, List, Option, length, arith, Bool, ◌∷◌, ◌≤◌, ◌++◌, ◌≡◌, Bool-cases, false, [], ltb, refl,
  some, inl, text_eq, true, ◌||◌, text_eq_iff, ◌+◌, inr, length-append, none,
}
use agentic_loop.Prelude.Dict.{Dict, lookup, put, lookup-put, lookup-remove}
use agentic_loop.Message.{ToolDecl}
use agentic_loop.Tools.{ToolResult}
use agentic_loop.Dedup.{
  OutputDeduper, new_output_deduper, max_dedup_entries, evict, remember, eligible, key_of, collapse,
  reset,
}

abbrev pub holds : Text → List Text → Bool
holds k [] = false
holds k (j ∷ js) = text_eq j k || holds k js

abbrev pub Distinct : List Text → Type 0
Distinct [] = Unit
Distinct (k ∷ ks) = (holds k ks ≡ false) × Distinct ks

abbrev pub is_some : Option ℕ → Bool
is_some none = false
is_some (some n) = true

pub record IsValid (d : OutputDeduper) : Type 0 where
  pub distinct : Distinct d.keys
  pub bounded : length d.keys ≤ max_dedup_entries
  pub agrees : (k : Text) → is_some (lookup k d.seen) ≡ holds k d.keys

pub holds-append :
    (k x : Text) (ks : List Text) → holds k (ks ++ x ∷ []) ≡ (holds k ks || text_eq x k)
holds-append k x [] = ground arith
holds-append k x (j ∷ js) = ground (arith, holds-append k x js)

Distinct-append :
    (x : Text) (ks : List Text) → Distinct ks → holds x ks ≡ false → Distinct (ks ++ x ∷ [])
Distinct-append x [] d h = ground arith
Distinct-append x (k ∷ ks) (fresh, d) h = (
  ground (arith, holds-append k x ks, text_eq_iff x k, text_eq_iff k x),
  Distinct-append x ks d (ground arith),
)

evict-IsValid :
    (keys : List Text) (seen : Dict ℕ)
    → Distinct keys
    → length keys ≤ 513
    → ((k : Text) → is_some (lookup k seen) ≡ holds k keys)
    → IsValid (evict keys seen)
evict-IsValid [] seen distinct bounded agrees = record {
  distinct = tt;
  bounded = omega arith;
  agrees = agrees;
}
evict-IsValid (oldest ∷ keys) seen (fresh, distinct) bounded agrees =
    elim (Bool-cases (ltb 512 (length (oldest ∷ keys)))) [
      | inl over ↦ rw over (record {
        distinct = distinct;
        bounded = omega arith;
        agrees = λ k. ground (arith, lookup-remove oldest k seen, agrees k, text_eq_iff oldest k);
      })
      | inr within ↦
          rw within
            (record { distinct = (fresh, distinct); bounded = ground arith; agrees = agrees })
    ]

module _ (hex_sha256 : Text → Text) (tool : ToolDecl) (result : ToolResult) where
  remember-IsValid :
      (key : Text) (d : OutputDeduper) (o : Option ℕ)
      → lookup key d.seen ≡ o
      → IsValid d
      → IsValid (remember key tool result d o).2
  remember-IsValid key d (some n) e v = record {
    distinct = v.distinct;
    bounded = v.bounded;
    agrees = λ k. ground (arith, lookup-put key k (n + 1) d.seen, v.agrees k, text_eq_iff key k);
  }
  remember-IsValid key d none e v =
      let fresh : holds key d.keys ≡ false = ground (arith, v.agrees key) in
      evict-IsValid (d.keys ++ key ∷ []) (put key 1 d.seen)
        (Distinct-append key d.keys v.distinct fresh)
        (omega (arith, v.bounded, length-append d.keys (key ∷ [])))
        (λ k. ground (arith, lookup-put key k 1 d.seen, holds-append k key d.keys, v.agrees k))

  -- Collapse keeps a deduper well formed: its keys are distinct, at most 512, and the map has a
  -- count for each of them and for nothing else.
  pub collapse-IsValid :
      (d : OutputDeduper) → IsValid d → IsValid (collapse hex_sha256 tool result d).2
  unfolding collapse
  collapse-IsValid d v = elim (Bool-cases (eligible tool result)) [
    | inl looked_at ↦ rw looked_at (remember-IsValid (key_of hex_sha256 tool result) d _ refl v)
    | inr passed ↦ rw passed v
  ]

pub new-IsValid : IsValid new_output_deduper
unfolding new_output_deduper lookup
new-IsValid = record { distinct = tt; bounded = omega arith; agrees = λ k. refl }

pub reset-IsValid : (d : OutputDeduper) → IsValid (reset d)
unfolding reset lookup
reset-IsValid d = record { distinct = tt; bounded = omega arith; agrees = λ k. refl }
