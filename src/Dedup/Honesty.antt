-- ===== src/Dedup/Honesty.antt =====
-- A marker is only ever put in place of an output that an earlier call produced.
use mathlib.Core.Bool.{false≢true}
use agentic_loop.Prelude.{
  ℕ, Option, none, some, List, Text, ◌≡◌, length, true, ◌++◌, ◌∷◌, ◌⊎◌, arith, [], text_eq_iff, ap,
  inl, length-append, Bool-cases, refl, sym, inr,
}
use agentic_loop.Prelude.Dict.{Dict, lookup}
use agentic_loop.Message.{ToolDecl}
use agentic_loop.Tools.{ToolResult}
use agentic_loop.Dedup.{
  OutputDeduper, new_output_deduper, evict, remember, eligible, key_of, collapse,
}
use agentic_loop.Dedup.Invariant.{IsValid, is_some, holds, holds-append, new-IsValid}
use agentic_loop.Dedup.Memory.{run, run-IsValid}

-- An earlier call of a tool of the same name gave the same bytes.
abbrev pub Shown : ToolDecl → ToolResult → List (ToolDecl × ToolResult) → Type 0
Shown tool result [] = ⊥
Shown tool result ((t, r) ∷ calls) =
    ((t.name ≡ tool.name) × (r.content ≡ result.content)) ⊎ Shown tool result calls

module _ (hex_sha256 : Text → Text) where
  abbrev Source : Text → List (ToolDecl × ToolResult) → Type 0
  Source k [] = ⊥
  Source k ((t, r) ∷ calls) = (key_of hex_sha256 t r ≡ k) ⊎ Source k calls

  evict-holds :
      (k : Text) (keys : List Text) (seen : Dict ℕ)
      → holds k (evict keys seen).keys ≡ true
      → holds k keys ≡ true
  evict-holds k [] seen h = h
  evict-holds k (oldest ∷ keys) seen h = ground arith

  collapse-holds :
      (k : Text) (tool : ToolDecl) (result : ToolResult) (d : OutputDeduper)
      → holds k (collapse hex_sha256 tool result d).2.keys ≡ true
      → (holds k d.keys ≡ true) ⊎ (key_of hex_sha256 tool result ≡ k)
  unfolding collapse
  collapse-holds k tool result d h = elim (Bool-cases (eligible tool result)) [
    | inl looked_at ↦ by_memory (lookup key d.seen) (rw looked_at at h)
    | inr passed ↦ inl (rw passed at h)
  ]
    where
      key : Text
      key = key_of hex_sha256 tool result

      by_memory :
          (o : Option ℕ)
          → holds k (remember key tool result d o).2.keys ≡ true
          → (holds k d.keys ≡ true) ⊎ (key ≡ k)
      by_memory none h =
          let before = evict-holds k (d.keys ++ key ∷ []) _ h in
          ground (arith, holds-append k key d.keys, text_eq_iff key k)
      by_memory (some n) h = inl h

  run-holds :
      (k : Text) (calls : List (ToolDecl × ToolResult)) (d : OutputDeduper)
      → holds k (run hex_sha256 calls d).keys ≡ true
      → (holds k d.keys ≡ true) ⊎ Source k calls
  unfolding run
  run-holds k [] d h = inl h
  run-holds k ((tool, result) ∷ calls) d h = elim (run-holds k calls _ h) [
    | inr later ↦ inr (inr later)
    | inl now ↦ elim (collapse-holds k tool result d now) [
      | inl before ↦ inl before
      | inr here ↦ inr (inl here)
    ]
  ]

  cut_at_digest :
      (a b r s : Text) → length r ≡ length s → a ++ 0 ∷ r ≡ b ++ 0 ∷ s → (a ≡ b) × (r ≡ s)
  cut_at_digest [] [] r s l e = (refl, ground arith)
  cut_at_digest [] (d ∷ b) r s l e = absurd (omega (arith, ap length e, length-append b (0 ∷ s)))
  cut_at_digest (c ∷ a) [] r s l e = absurd (omega (arith, ap length e, length-append a (0 ∷ r)))
  cut_at_digest (c ∷ a) (d ∷ b) r s l e = ground (arith, cut_at_digest a b r s l)

module _ (hex_sha256 : Text → Text)
    (one_length : (a b : Text) → length (hex_sha256 a) ≡ length (hex_sha256 b)) (tool : ToolDecl)
    (result : ToolResult) where
  -- No earlier output that differs from this result has its digest.
  abbrev pub NoCollision : List (ToolDecl × ToolResult) → Type 0
  NoCollision [] = Unit
  NoCollision ((t, r) ∷ calls) =
      (hex_sha256 r.content ≡ hex_sha256 result.content → r.content ≡ result.content)
      × NoCollision calls

  Source-Shown :
      (calls : List (ToolDecl × ToolResult))
      → NoCollision calls
      → Source hex_sha256 (key_of hex_sha256 tool result) calls
      → Shown tool result calls
  Source-Shown [] n h = h
  Source-Shown ((t, r) ∷ calls) (distinct, n) (inl same) =
      let (names, digests) =
        cut_at_digest hex_sha256 t.name tool.name _ _ (one_length r.content result.content) same in
      inl (names, distinct digests)
  Source-Shown ((t, r) ∷ calls) (distinct, n) (inr later) = inr (Source-Shown calls n later)

  marked_holds :
      (d : OutputDeduper)
      → IsValid d
      → (collapse hex_sha256 tool result d).1 ≡ true
      → holds (key_of hex_sha256 tool result) d.keys ≡ true
  unfolding collapse
  marked_holds d v h = elim (Bool-cases (eligible tool result)) [
    | inl looked_at ↦ by_memory (lookup key d.seen) (v.agrees key) (rw looked_at at h)
    | inr passed ↦ absurd (false≢true (rw passed at h))
  ]
    where
      key : Text
      key = key_of hex_sha256 tool result

      by_memory :
          (o : Option ℕ)
          → is_some o ≡ holds key d.keys
          → (remember key tool result d o).1 ≡ true
          → holds key d.keys ≡ true
      by_memory none e whole = cc
      by_memory (some n) e marked = sym e

  -- In a run that began with a new deduper, a result is replaced by the marker only if an earlier
  -- call of a tool of the same name returned exactly the same bytes. This supposes that all digests
  -- have one length, and that no earlier output that differs from this result has its digest.
  pub marker_honest :
      (calls : List (ToolDecl × ToolResult))
      → NoCollision calls
      → (collapse hex_sha256 tool result (run hex_sha256 calls new_output_deduper)).1 ≡ true
      → Shown tool result calls
  unfolding new_output_deduper
  marker_honest calls n h =
      let key = key_of hex_sha256 tool result in
      let d = run hex_sha256 calls new_output_deduper in
      let held = marked_holds d (run-IsValid hex_sha256 calls new_output_deduper new-IsValid) h in
      elim (run-holds hex_sha256 key calls new_output_deduper held) [
        | inl before ↦ absurd (false≢true before)
        | inr source ↦ Source-Shown calls n source
      ]
