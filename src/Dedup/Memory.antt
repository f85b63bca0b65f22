-- ===== src/Dedup/Memory.antt =====
-- How long an output is remembered, and that a marker never lies.
use agentic_loop.Prelude.{
  none, some, Option, length-append, ℕ, Text, List, ◌+◌, ◌≡◌, ◌++◌, ◌∷◌, ◌≤◌, length, [], ◌<◌,
  Bool-cases, true, arith, ap, ltb, text_eq_refl, Option, suc, ◌∙◌, inl, some, append_assoc, inr,
  length-append, none, false, refl,
}
use agentic_loop.Prelude.Dict.{lookup, Dict}
use agentic_loop.Message.{ToolDecl}
use agentic_loop.Tools.{ToolResult}
use agentic_loop.Dedup.{
  OutputDeduper, evict, remember, eligible, key_of, collapse, unchanged_marker,
}
use agentic_loop.Dedup.Invariant.{IsValid, is_some, holds, collapse-IsValid}

-- `k` is remembered, and at most `n` keys are younger.
pub record Within (n : ℕ) (k : Text) (keys : List Text) : Type 0 where
  pub older : List Text
  pub younger : List Text
  pub splits : keys ≡ older ++ k ∷ younger
  pub few : length younger ≤ n

Within-append :
    {n : ℕ} {k : Text} {keys : List Text} (x : Text)
    → Within n k keys
    → Within (n + 1) k (keys ++ x ∷ [])
Within-append {k = k} x w = record {
  older = w.older;
  younger = w.younger ++ x ∷ [];
  splits = ap (λ l. l ++ x ∷ []) w.splits ∙ append_assoc w.older (k ∷ w.younger) (x ∷ []);
  few = omega (arith, w.few, length-append w.younger (x ∷ []));
}

Within-tail :
    (n : ℕ) (k oldest : Text) (keys older younger : List Text)
    → oldest ∷ keys ≡ older ++ k ∷ younger
    → length younger ≤ n
    → n ≤ 511
    → 512 < length (oldest ∷ keys)
    → Within n k keys
Within-tail n k oldest keys [] younger e few le over = absurd (omega (arith, ap length e))
Within-tail n k oldest keys (o ∷ older) younger e few le over = record {
  older = older;
  younger = younger;
  splits = ground arith;
  few = few;
}

evict-Within :
    (n : ℕ) (k : Text) (keys : List Text) (seen : Dict ℕ)
    → n ≤ 511
    → Within n k keys
    → Within n k (evict keys seen).keys
evict-Within n k [] seen le w = w
evict-Within n k (oldest ∷ keys) seen le w = elim (Bool-cases (ltb 512 (length (oldest ∷ keys)))) [
  | inl over ↦
      rw over (Within-tail n k oldest keys w.older w.younger w.splits w.few le (ground arith))
  | inr within ↦ rw within w
]

Within-holds : (k : Text) (older younger : List Text) → holds k (older ++ k ∷ younger) ≡ true
Within-holds k [] younger = ground (arith, text_eq_refl k)
Within-holds k (o ∷ older) younger = ground (arith, Within-holds k older younger)

module _ (hex_sha256 : Text → Text) where
  -- The run's calls of `Collapse`, in order.
  unfoldable pub run : List (ToolDecl × ToolResult) → OutputDeduper → OutputDeduper
  run [] d = d
  run ((tool, result) ∷ calls) d = run calls (collapse hex_sha256 tool result d).2

  collapse-Within :
      (n : ℕ) (k : Text) (tool : ToolDecl) (result : ToolResult) (d : OutputDeduper)
      → n + 1 ≤ 511
      → Within n k d.keys
      → Within (n + 1) k (collapse hex_sha256 tool result d).2.keys
  unfolding collapse
  collapse-Within n k tool result d le w = elim (Bool-cases (eligible tool result)) [
    | inl looked_at ↦ rw looked_at (by_memory (lookup (key_of hex_sha256 tool result) d.seen))
    | inr passed ↦ rw passed (weaken w)
  ]
    where
      weaken : Within n k d.keys → Within (n + 1) k d.keys
      weaken w = record {
        older = w.older;
        younger = w.younger;
        splits = w.splits;
        few = omega (arith, w.few);
      }

      by_memory :
          (o : Option ℕ)
          → Within (n + 1) k (remember (key_of hex_sha256 tool result) tool result d o).2.keys
      by_memory none =
          evict-Within (n + 1) k _ _ le (Within-append (key_of hex_sha256 tool result) w)
      by_memory (some m) = weaken w

  run-Within :
      (n : ℕ) (k : Text) (calls : List (ToolDecl × ToolResult)) (d : OutputDeduper)
      → n + length calls ≤ 511
      → Within n k d.keys
      → Within (n + length calls) k (run calls d).keys
  unfolding run
  run-Within n k [] d le w = let e : n + 0 ≡ n = omega arith in rw e w
  run-Within n k ((tool, result) ∷ calls) d le w =
      let e : n + suc (length calls) ≡ n + 1 + length calls = omega arith in
      rw e (
        run-Within (n + 1) k calls _ (omega arith)
          (collapse-Within n k tool result d (omega arith) w))

  pub run-IsValid :
      (calls : List (ToolDecl × ToolResult)) (d : OutputDeduper) → IsValid d → IsValid (run calls d)
  unfolding run
  run-IsValid [] d v = v
  run-IsValid ((tool, result) ∷ calls) d v =
      run-IsValid calls _ (collapse-IsValid hex_sha256 tool result d v)

  first_time :
      (tool : ToolDecl) (result : ToolResult) (d : OutputDeduper)
      → eligible tool result ≡ true
      → (collapse hex_sha256 tool result d).1 ≡ false
      → Within 0 (key_of hex_sha256 tool result) (collapse hex_sha256 tool result d).2.keys
  unfolding collapse
  first_time tool result d looked_at whole =
      rw looked_at (by_memory (lookup key d.seen) (rw looked_at at whole))
    where
      key : Text
      key = key_of hex_sha256 tool result

      by_memory :
          (o : Option ℕ)
          → (remember key tool result d o).1 ≡ false
          → Within 0 key (remember key tool result d o).2.keys
      by_memory none h =
          evict-Within 0 key _ _ (omega arith)
            (record { older = d.keys; younger = []; splits = refl; few = omega arith })
      by_memory (some n) h = cc

  collapses_held :
      (tool : ToolDecl) (result : ToolResult) (d : OutputDeduper)
      → IsValid d
      → eligible tool result ≡ true
      → holds (key_of hex_sha256 tool result) d.keys ≡ true
      → (n : ℕ) × ((collapse hex_sha256 tool result d).1 ≡ true)
        × ((collapse hex_sha256 tool result d).0 ≡ unchanged_marker tool.name (n + 1))
  unfolding collapse
  collapses_held tool result d v looked_at held =
      rw looked_at (by_memory (lookup key d.seen) (v.agrees key ∙ held))
    where
      key : Text
      key = key_of hex_sha256 tool result

      by_memory :
          (o : Option ℕ)
          → is_some o ≡ true
          → (n : ℕ) × ((remember key tool result d o).1 ≡ true)
            × ((remember key tool result d o).0 ≡ unchanged_marker tool.name (n + 1))
      by_memory none h = cc
      by_memory (some n) h = (n, refl, refl)

  -- Once a well-formed deduper has shown an output of a read-only tool in full, the next output of
  -- the same tool with the same bytes, if it is no error, is answered by the marker, whatever at
  -- most 511 results came between.
  pub repeat_collapses :
      (d : OutputDeduper) (tool : ToolDecl) (result again : ToolResult)
      (between : List (ToolDecl × ToolResult))
      → IsValid d
      → eligible tool result ≡ true
      → (collapse hex_sha256 tool result d).1 ≡ false
      → length between ≤ 511
      → eligible tool again ≡ true
      → again.content ≡ result.content
      → (n : ℕ) × ((collapse hex_sha256 tool again
            (run between (collapse hex_sha256 tool result d).2)).1
          ≡ true)
        × ((collapse hex_sha256 tool again (run between (collapse hex_sha256 tool result d).2)).0
            ≡ unchanged_marker tool.name (n + 1))
  repeat_collapses d tool result again between v looked_at whole few looked_again same =
      let shown = (collapse hex_sha256 tool result d).2 in
      let key = key_of hex_sha256 tool result in
      let w =
        run-Within 0 key between shown (omega arith) (first_time tool result d looked_at whole) in
      let held : holds key (run between shown).keys ≡ true =
        ap (holds key) w.splits ∙ Within-holds key w.older w.younger in
      collapses_held tool again (run between shown)
        (run-IsValid between shown (collapse-IsValid hex_sha256 tool result d v)) looked_again
        (rw same held)
